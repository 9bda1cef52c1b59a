-- ===== src/Agent.antt =====
-- onset/agent.py: the state of one call, and the functions that its sockets and its run loop call. An
-- await that only sends is part of the step in which it stands. The clock, the scores of the speech
-- engine and the outcomes of sends are arguments; log lines are left out.
pub mod Loop
pub mod Trigger
pub mod Ownership
pub mod Gate
pub mod Supersede
pub mod Others
pub mod Response
use telnyx_onset.Prelude.{
  ℕ, zero, suc, ◌+◌, ◌-◌, ◌*◌, ◌/◌, ◌%◌, ◌^◌, ◌≤◌, ◌<◌, min, max, ◌≡◌, refl, sym, ap, ap₂, ◌∙◌,
  subst, ◌≢◌, ◌↔◌, ◌⊎◌, inl, inr, Bool, true, false, not, ◌&&◌, ◌||◌, Option, none, some, List, [],
  ◌∷◌, ◌++◌, map, append-nil, append_assoc, arith, ltb, leb, ◌==◌, if◌then◌else◌, ltb→lt, lt→ltb,
  ltb→le, leb→le, le→leb, leb→lt, lt→leb, ==_iff, ==_refl, Bool-cases, Option-cases, length, take,
  drop, replicate, concat, is_empty, All, length-append, take-append-drop, length-take, length-drop,
  length-replicate, take-append, drop-append, All-append, All-map, Text, codes, text_eq, text_eq→eq,
  text_eq_refl, is_space, lstrip, rstrip, strip,
}
use telnyx_onset.Audio.{Bytes}
use telnyx_onset.Types.{
  BenchmarkMode, SttEventType, SttEvent, transcript_interim, transcript_final, utterance_end,
  speech_started, MediaFlushResult,
}
use telnyx_onset.Limits.{TokenBudget}
use telnyx_onset.Turn.{TurnManager, handle_event}
use telnyx_onset.BargeIn.{BargeInHandler, handle_barge_in}
use telnyx_onset.Conversation.{Conversation, add_user_turn}
use telnyx_onset.Media
use telnyx_onset.Media.{MediaStream}
use telnyx_onset.Benchmark.{
  Source, interruption_source, Milestone, first_inbound_speech_bearing_frame, vad_decision,
  first_transcript, ineligible_trigger_observed, half_duplex_gate, interruption_requested,
  local_media_epoch_invalidated, clear_send_started, clear_send_finished, caller_turn_completed,
  response_cancellation_requested, next_response_started,
}

-- An item of the event queue. The generation of an ended speak is `none` if it could not be read.
pub data Item : Type 0 where
  stt_event : SttEvent → Item
  speak_ended : Option ℕ → Item
  hangup : Item

-- The response task: the generation it was created for, whether its coroutine has been entered, and
-- whether it has ended. `cancels` counts the calls of `cancel`.
pub record Task : Type 0 where
  pub generation : ℕ
  pub started : Bool
  pub done : Bool
  pub cancels : ℕ

-- `stt_fed` keeps the frames handed to the STT socket, and `milestones` the rows recorded, newest
-- first; `hangups` counts the hangup commands. The fields of -1 at the start are `none`.
pub record Agent : Type 0 where
  pub mode : BenchmarkMode
  pub half_duplex : Bool
  pub listen_guard : ℕ
  pub silence_frame : Bytes
  pub prebuffer_frames : ℕ
  pub media : MediaStream
  pub conversation : Conversation
  pub turn_manager : TurnManager
  pub barge_in : BargeInHandler
  pub budget : TokenBudget
  pub budget_announced : Bool
  pub current_node : Option Text
  pub ending : Bool
  pub degraded : Bool
  pub closed : Bool
  pub events : List Item
  pub response_task : Option Task
  pub response_gen : ℕ
  pub current_response_gen : Option ℕ
  pub speak_gen : ℕ
  pub current_speak_gen : Option ℕ
  pub speak_done : Bool
  pub cancellation_requested : List ℕ
  pub mute_until : ℕ
  pub inbound_frame_index : ℕ
  pub first_speech_frame_recorded : Bool
  pub first_interim_recorded : Bool
  pub first_final_recorded : Bool
  pub stt_fed : List Bytes
  pub milestones : List Milestone
  pub hangups : ℕ

unfoldable pub record_milestone : Milestone → Agent → Agent
record_milestone m a = record a { milestones = m ∷ a.milestones }

unfoldable pub put_event : Item → Agent → Agent
put_event item a = record a { events = a.events ++ (item ∷ []) }

unfoldable pub feed : Bytes → Agent → Agent
feed frame a = record a { stt_fed = frame ∷ a.stt_fed }

abbrev pub is_some {ℓ} : {A : Type ℓ} → Option A → Bool
is_some none = false
is_some (some _) = true

-- The half-duplex gate: the new end of the mute, and whether the frame is muted.
unfoldable pub listen_gate : ℕ → Agent → ℕ × Bool
listen_gate now a =
    let until = if a.barge_in.agent_is_speaking then now + a.listen_guard else a.mute_until in
    (until, a.barge_in.agent_is_speaking || ltb now until)

-- The frame goes on to the recogniser and to the detector. `profile` is the activity test of the frozen
-- profile, if one is loaded, and `onset` what the detector says of the frame.
unfoldable pub hear : Option (Bytes → Bool) → Bool → ℕ → Bytes → Agent → Agent
unfolding record_milestone put_event feed interruption_source
hear profile onset frame_index pcm16 a =
    let b = feed pcm16 a in
    let active : Bool = elim profile [
      | none ↦ false
      | some test ↦ not b.first_speech_frame_recorded && test pcm16
    ] in
    let c =
      if active
      then record_milestone (first_inbound_speech_bearing_frame frame_index)
          (record b { first_speech_frame_recorded = true })
      else b in
    if onset
    then put_event (stt_event (record { type = speech_started; transcript = [] }))
        (record_milestone (vad_decision (is_some (interruption_source c.mode speech_started []))) c)
    else c

unfoldable pub handle_audio : Option (Bytes → Bool) → (Bytes → Bool) → ℕ → Bytes → Agent → Agent
unfolding listen_gate hear feed
handle_audio profile detect now pcm16 a =
    let i = a.inbound_frame_index in
    let b = record a { inbound_frame_index = i + 1 } in
    let (until, muted) = listen_gate now b in
    if a.closed
    then a
    else if b.half_duplex
    then (if muted
        then feed b.silence_frame (record b { mute_until = until })
        else hear profile (detect pcm16) i pcm16 (record b { mute_until = until }))
    else hear profile (detect pcm16) i pcm16 b

-- The milestone of the first transcript of a type.
unfoldable pub note_first : SttEventType → Text → Agent → Agent
unfolding record_milestone
note_first transcript_interim text a =
    if not (is_empty text) && not a.first_interim_recorded
    then record_milestone
        (first_transcript transcript_interim
          (is_some (interruption_source a.mode transcript_interim text)))
        (record a { first_interim_recorded = true })
    else a
note_first transcript_final text a =
    if not (is_empty text) && not a.first_final_recorded
    then record_milestone
        (first_transcript transcript_final
          (is_some (interruption_source a.mode transcript_final text)))
        (record a { first_final_recorded = true })
    else a
note_first _ text a = a

abbrev pub put_stt : SttEventType → Text → Agent → Agent
put_stt type text a = put_event (stt_event (record { type = type; transcript = text })) a

unfoldable pub submit_transcript : Text → Bool → Bool → Agent → Agent
unfolding note_first put_event
submit_transcript text is_final speech_final a =
    let type = if is_final || speech_final then transcript_final else transcript_interim in
    let b = note_first type text a in
    if speech_final
    then put_stt utterance_end [] (if is_empty text then b else put_stt transcript_final text b)
    else if is_final
    then put_stt transcript_final text b
    else put_stt transcript_interim text b

unfoldable pub submit_speak_ended : Option ℕ → Agent → Agent
unfolding put_event
submit_speak_ended generation a = put_event (speak_ended generation) a

unfoldable pub submit_hangup : Agent → Agent
unfolding put_event
submit_hangup a = put_event hangup a

unfoldable pub on_socket_error : Agent → Agent
unfolding put_event
on_socket_error a = put_event hangup (record a { degraded = true })

abbrev pub same_gen : Option ℕ → Option ℕ → Bool
same_gen none none = false
same_gen none (some y) = false
same_gen (some x) none = false
same_gen (some x) (some y) = x == y

-- A generation that could not be read never equals the live one.
unfoldable pub on_speak_ended : Option ℕ → Agent → Agent
on_speak_ended generation a =
    if same_gen generation a.current_speak_gen then record a { speak_done = true } else a

unfoldable pub allocate_response_generation : Option ℕ → Agent → Agent
unfolding record_milestone
allocate_response_generation caller_turn_id a =
    let g = a.response_gen + 1 in
    record_milestone (next_response_started g caller_turn_id)
      (record a { response_gen = g; current_response_gen = some g })

abbrev pub member : ℕ → List ℕ → Bool
member g [] = false
member g (x ∷ xs) = (x == g) || member g xs

abbrev pub requested : Option ℕ → List ℕ → Bool
requested none gs = false
requested (some g) gs = member g gs

abbrev pub add_requested : Option ℕ → List ℕ → List ℕ
add_requested none gs = gs
add_requested (some g) gs = g ∷ gs

-- The part of `_request_response_cancellation` behind the tests of the task.
unfoldable pub cancel_task : Option Task → Option ℕ → Agent → Agent
unfolding record_milestone
cancel_task none generation a = a
cancel_task (some task) generation a =
    if requested generation a.cancellation_requested || task.done
    then a
    else record_milestone (response_cancellation_requested generation) (record a {
      cancellation_requested = add_requested generation a.cancellation_requested;
      response_task = some (record task { cancels = task.cancels + 1 });
    })

unfoldable pub request_response_cancellation : Option ℕ → Agent → Agent
unfolding cancel_task
request_response_cancellation generation a = cancel_task a.response_task generation a

unfoldable pub record_flush : Option ℕ → MediaFlushResult → Agent → Agent
unfolding record_milestone
record_flush generation r a =
    record_milestone (clear_send_finished generation r.send_finished_ns r.outcome) (
      record_milestone (clear_send_started generation r.send_started_ns) (
        record_milestone
          (local_media_epoch_invalidated generation r.invalidated_ns r.old_epoch r.new_epoch) a))
