-- ===== src/Agent/Others.antt =====
-- onset/agent.py: what the other tasks of a call do while the response task waits. The calls of the
-- media socket, of the STT socket and of the run loop up to its next await, and the pacer's.
use telnyx_onset.Prelude.{
  ℕ, ◌+◌, ◌≡◌, refl, sym, ap, subst, inl, inr, Bool-cases, ◌∙◌, Bool, Option, none, some, List, [],
  ◌∷◌, arith, ltb, if◌then◌else◌, Text,
}
use telnyx_onset.Audio.{Bytes}
use telnyx_onset.Types.{SttEventType, SttEvent}
use telnyx_onset.Turn.{handle_event}
use telnyx_onset.Media
use telnyx_onset.Media.{MediaStream, Action}
use telnyx_onset.Agent.{
  Agent, Task, handle_audio, hear, listen_gate, feed, submit_transcript, submit_hangup,
  on_socket_error, on_speak_ended, note_first, request_response_cancellation, record_milestone,
  put_event,
}
use telnyx_onset.Agent.Loop.{Env, trigger}
use telnyx_onset.Agent.Ownership.{Owned, keep-Owned, request-Owned, trigger-Owned}
use telnyx_onset.Agent.Trigger.{Own, own_of, trigger_lem, cancel_task-SameTurn}

-- `signals` is an event that completes no turn; `supersedes` the request that goes before the end of a
-- turn. `moves` is a stretch of the media stream, with the wind-down if it finds the socket dead.
pub data Other : Type 0 where
  hears : Option (Bytes → Bool) → (Bytes → Bool) → ℕ → Bytes → Other
  transcribes : Text → Bool → Bool → Other
  hangs_up socket_fails supersedes : Other
  echoes : Option ℕ → Other
  signals : Env → SttEvent → Other
  moves : Action → Other

unfoldable pub move_media : Action → Agent → Agent
unfolding on_socket_error Media.apply
move_media action a =
    let m = Media.apply action a.media in
    let b = record a { media = m } in
    if ltb a.media.notified m.notified then on_socket_error b else b

unfoldable pub signal_only : Env → SttEvent → Agent → Agent
unfolding trigger handle_event
signal_only env event a =
    let b = trigger env event a in
    if a.ending
    then a
    else record b { turn_manager = (handle_event b.turn_manager env.now event).0 }

unfoldable pub other : Other → Agent → Agent
unfolding handle_audio submit_transcript submit_hangup on_socket_error request_response_cancellation
    on_speak_ended signal_only move_media
other (hears profile detect now pcm16) a = handle_audio profile detect now pcm16 a
other (transcribes text is_final speech_final) a = submit_transcript text is_final speech_final a
other hangs_up a = submit_hangup a
other socket_fails a = on_socket_error a
other supersedes a = request_response_cancellation a.current_response_gen a
other (echoes generation) a = on_speak_ended generation a
other (signals env event) a = signal_only env event a
other (moves action) a = move_media action a

unfoldable pub others : List Other → Agent → Agent
unfolding other
others [] a = a
others (o ∷ os) a = others os (other o a)

-- What an ownership depends on, and the parts of the state that the sockets do not touch.
pub record Held : Type 0 where
  pub task : Option Task
  pub live : Option ℕ
  pub newest : ℕ
  pub requested : List ℕ

abbrev pub held_of : Agent → Held
held_of a = record {
  task = a.response_task;
  live = a.current_response_gen;
  newest = a.response_gen;
  requested = a.cancellation_requested;
}

record Steady : Type 0 where
  own : Own
  held : Held

abbrev steady_of : Agent → Steady
steady_of a = record { own = own_of a; held = held_of a }

hear-steady :
    (profile : Option (Bytes → Bool)) (onset : Bool) (i : ℕ) (pcm16 : Bytes) (a : Agent)
    → steady_of (hear profile onset i pcm16 a) ≡ steady_of a
unfolding hear feed record_milestone put_event
hear-steady none onset i pcm16 a = ground arith
hear-steady (some test) onset i pcm16 a = ground arith

handle_audio-steady :
    (profile : Option (Bytes → Bool)) (detect : Bytes → Bool) (now : ℕ) (pcm16 : Bytes) (a : Agent)
    → steady_of (handle_audio profile detect now pcm16 a) ≡ steady_of a
unfolding handle_audio listen_gate feed
handle_audio-steady profile detect now pcm16 a =
    let i = a.inbound_frame_index in
    let b = record a { inbound_frame_index = i + 1 } in
    let (until, muted) = listen_gate now b in
    ground (
      arith,
      hear-steady profile (detect pcm16) i pcm16 (record b { mute_until = until }),
      hear-steady profile (detect pcm16) i pcm16 b,
    )

note_first-steady :
    (type : SttEventType) (text : Text) (a : Agent)
    → steady_of (note_first type text a) ≡ steady_of a
unfolding note_first record_milestone
note_first-steady SttEventType.transcript_interim text a = ground arith
note_first-steady SttEventType.transcript_final text a = ground arith
note_first-steady SttEventType.utterance_end text a = refl
note_first-steady SttEventType.speech_started text a = refl

submit_transcript-steady :
    (text : Text) (f s : Bool) (a : Agent) → steady_of (submit_transcript text f s a) ≡ steady_of a
unfolding submit_transcript put_event
submit_transcript-steady text f s a = ground (
  arith,
  note_first-steady SttEventType.transcript_interim text a,
  note_first-steady SttEventType.transcript_final text a,
)

move_media-steady : (action : Action) (a : Agent) → steady_of (move_media action a) ≡ steady_of a
unfolding move_media on_socket_error put_event
move_media-steady action a = ground arith

signal_only-own :
    (env : Env) (event : SttEvent) (a : Agent) → own_of (signal_only env event a) ≡ own_of a
unfolding signal_only
signal_only-own env event a = let t = (trigger_lem env event a).0.own in ground arith

own-steady : {x y : Steady} → x ≡ y → x.own ≡ y.own
own-steady e = ap (λ (s : Steady). s.own) e

other-own : (o : Other) (a : Agent) → own_of (other o a) ≡ own_of a
unfolding other submit_hangup on_socket_error on_speak_ended request_response_cancellation put_event
other-own (hears profile detect now pcm16) a =
    own-steady (handle_audio-steady profile detect now pcm16 a)
other-own (transcribes text f s) a = own-steady (submit_transcript-steady text f s a)
other-own hangs_up a = refl
other-own socket_fails a = refl
other-own supersedes a = (cancel_task-SameTurn a.response_task a.current_response_gen a).own
other-own (echoes generation) a = ground arith
other-own (signals env event) a = signal_only-own env event a
other-own (moves action) a = own-steady (move_media-steady action a)

-- Whatever the others do, the conversation, the budget and the place in the flow stay.
pub others-own : (os : List Other) (a : Agent) → own_of (others os a) ≡ own_of a
unfolding others
others-own [] a = refl
others-own (o ∷ os) a = others-own os (other o a) ∙ other-own o a

pub held-Owned : (a b : Agent) → held_of b ≡ held_of a → Owned a → Owned b
held-Owned a b e h =
    keep-Owned a b (ap (λ (s : Held). s.task) e) (ap (λ (s : Held). s.live) e)
      (ap (λ (s : Held). s.newest) e) (ap (λ (s : Held). s.requested) e) h

kept-Owned : (a b : Agent) → steady_of b ≡ steady_of a → Owned a → Owned b
kept-Owned a b e h = held-Owned a b (ap (λ (s : Steady). s.held) e) h

signal_only-Owned :
    (env : Env) (event : SttEvent) (a : Agent) → Owned a → Owned (signal_only env event a)
unfolding signal_only
signal_only-Owned env event a h = elim (Bool-cases a.ending) [
  | inl e ↦ subst (λ t. Owned (if t then a else signalled)) (sym e) h
  | inr e ↦
      subst (λ t. Owned (if t then a else signalled)) (sym e)
        (keep-Owned (trigger env event a) signalled refl refl refl refl
          (trigger-Owned env event a h))
]
  where
    signalled : Agent
    signalled =
        let b = trigger env event a in
        record b { turn_manager = (handle_event b.turn_manager env.now event).0 }

other-Owned : (o : Other) (a : Agent) → Owned a → Owned (other o a)
unfolding other submit_hangup on_socket_error on_speak_ended put_event
other-Owned (hears profile detect now pcm16) a h =
    kept-Owned a (handle_audio profile detect now pcm16 a)
      (handle_audio-steady profile detect now pcm16 a) h
other-Owned (transcribes text f s) a h =
    kept-Owned a (submit_transcript text f s a) (submit_transcript-steady text f s a) h
other-Owned hangs_up a h = kept-Owned a (submit_hangup a) refl h
other-Owned socket_fails a h = kept-Owned a (on_socket_error a) refl h
other-Owned supersedes a h = request-Owned a h
other-Owned (echoes generation) a h = kept-Owned a (on_speak_ended generation a) (ground arith) h
other-Owned (signals env event) a h = signal_only-Owned env event a h
other-Owned (moves action) a h = kept-Owned a (move_media action a) (move_media-steady action a) h

-- Whatever the others do, the response task stays owned.
pub others-Owned : (os : List Other) (a : Agent) → Owned a → Owned (others os a)
unfolding others
others-Owned [] a h = h
others-Owned (o ∷ os) a h = others-Owned os (other o a) (other-Owned o a h)
