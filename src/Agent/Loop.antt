-- ===== src/Agent/Loop.antt =====
-- The run loop of onset/agent.py: one item of the event queue after another.
use telnyx_onset.Prelude.{
  ℕ, Bool, true, false, not, ◌&&◌, ◌||◌, ◌==◌, Option, none, some, if◌then◌else◌, is_empty, Text,
}
use telnyx_onset.Types.{SttEventType, SttEvent, utterance_end, MediaFlushResult}
use telnyx_onset.Turn.{handle_event}
use telnyx_onset.BargeIn.{handle_barge_in}
use telnyx_onset.Conversation.{add_user_turn}
use telnyx_onset.Media
use telnyx_onset.Media.{MediaStream}
use telnyx_onset.Benchmark.{
  Source, interruption_source, ineligible_trigger_observed, half_duplex_gate,
  interruption_requested, caller_turn_completed,
}
use telnyx_onset.Agent.{
  Agent, Task, Item, stt_event, speak_ended, hangup, is_some, record_milestone, record_flush,
  request_response_cancellation, allocate_response_generation, on_speak_ended,
}

-- What a step takes from outside: the clock readings and the outcome of a flush, the time of the turn
-- clock, and what awaiting an entered response task leaves, with whether it raised CancelledError.
pub record Env : Type 0 where
  pub flush_times : ℕ × ℕ × ℕ
  pub flush_error : Option Text
  pub now : ℕ
  pub settle : Agent → Agent × Bool

-- After an item the loop goes on, or ends by a hangup, or by a CancelledError that leaves `run`.
pub data Outcome : Type 0 where
  goes_on hung_up cancelled : Agent → Outcome

-- SPEECH_STARTED or a transcript.
abbrev pub is_trigger_signal : SttEventType → Bool
is_trigger_signal utterance_end = false
is_trigger_signal _ = true

-- `stop_playback` with the variable that it sets.
abbrev pub stop_playback :
    Env → MediaStream × Option MediaFlushResult → MediaStream × Option MediaFlushResult
stop_playback env (m, _) =
    let (m', r) = Media.flush env.flush_times env.flush_error m in (m', some r)

unfoldable pub interrupt : Env → Source → Agent → Agent
unfolding record_milestone record_flush request_response_cancellation handle_barge_in Media.flush
interrupt env source a =
    let generation = a.current_response_gen in
    let b = record_milestone (interruption_requested generation source) a in
    let (handler, (media', flushed)) =
      handle_barge_in (stop_playback env) b.barge_in (b.media, none) in
    let c = record b { barge_in = handler; media = media' } in
    let d : Agent = elim flushed [ none ↦ c | some r ↦ record_flush generation r c ] in
    request_response_cancellation generation d

-- The branch for a trigger signal while the agent speaks in full duplex.
unfoldable pub on_signal : Env → SttEventType → Option Source → Agent → Agent
unfolding interrupt
on_signal env type none a =
    record_milestone (ineligible_trigger_observed a.current_response_gen type) a
on_signal env type (some source) a = interrupt env source a

-- The part of the loop before the turn manager, for the source that the event has.
unfoldable pub trigger_of : Env → SttEventType → Option Source → Agent → Agent
unfolding on_signal
trigger_of env type source a =
    let b =
      if is_trigger_signal type && a.barge_in.agent_is_speaking && not a.half_duplex
      then on_signal env type source a
      else a in
    if is_some source && b.barge_in.agent_is_speaking
    then record_milestone (half_duplex_gate b.current_response_gen type) b
    else b

unfoldable pub trigger : Env → SttEvent → Agent → Agent
unfolding trigger_of interruption_source
trigger env event a =
    trigger_of env event.type (interruption_source a.mode event.type event.transcript) a

unfoldable pub start_response : Text → Option ℕ → Agent → Agent
unfolding add_user_turn allocate_response_generation
start_response user_turn turn_id a =
    let b = record a { conversation = add_user_turn user_turn a.conversation } in
    let c = allocate_response_generation turn_id b in
    record c {
      response_task =
          some (record { generation = c.response_gen; started = false; done = false; cancels = 0 });
    }

-- `await self._response_task`, which `suppress(Exception)` lets a CancelledError through. A task on which
-- `cancel` was called before its first step raises it at once, without being entered; any other task
-- is entered, if it was not yet, and runs to its end.
unfoldable pub await_superseded : Env → Option Task → Agent → Agent × Bool
await_superseded env none a = (a, false)
await_superseded env (some task) a =
    if task.started || task.cancels == 0
    then env.settle (record a { response_task = some (record task { started = true }) })
    else (record a { response_task = some (record task { done = true }) }, true)

abbrev pub after_wait : Text → Option ℕ → Agent × Bool → Outcome
after_wait user_turn turn_id (a, true) = cancelled a
after_wait user_turn turn_id (a, false) = goes_on (start_response user_turn turn_id a)

unfoldable pub supersede : Env → Text → Option ℕ → Option Task → Agent → Outcome
unfolding await_superseded start_response request_response_cancellation
supersede env user_turn turn_id none a = goes_on (start_response user_turn turn_id a)
supersede env user_turn turn_id (some task) a =
    if task.done
    then goes_on (start_response user_turn turn_id a)
    else let b = request_response_cancellation a.current_response_gen a in
      after_wait user_turn turn_id (await_superseded env b.response_task b)

-- An empty user turn is no turn.
unfoldable pub complete_turn : Env → Option Text → Agent → Outcome
unfolding supersede record_milestone
complete_turn env none a = goes_on a
complete_turn env (some user_turn) a =
    let turn_id = a.turn_manager.last_completed_turn_id in
    let b =
      record_milestone
        (caller_turn_completed turn_id a.turn_manager.last_completed_source_event_count) a in
    if is_empty user_turn then goes_on a else supersede env user_turn turn_id b.response_task b

unfoldable pub on_stt_event : Env → SttEvent → Agent → Outcome
unfolding trigger complete_turn handle_event
on_stt_event env event a =
    let b = trigger env event a in
    let (m, user_turn) = handle_event b.turn_manager env.now event in
    complete_turn env user_turn (record b { turn_manager = m })

unfoldable pub handle_item : Env → Item → Agent → Outcome
unfolding on_stt_event on_speak_ended
handle_item env hangup a = hung_up a
handle_item env (speak_ended generation) a = goes_on (on_speak_ended generation a)
handle_item env (stt_event event) a = if a.ending then goes_on a else on_stt_event env event a
