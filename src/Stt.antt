-- ===== src/Stt.antt =====
-- onset/stt.py: the client of the speech recogniser. The sockets that `_open` gives, the parsing of JSON
-- and `str` are arguments; log lines are left out.
pub mod Newest
pub mod Reconnect
use telnyx_onset.Prelude.{
  ℕ, zero, suc, ◌+◌, ◌*◌, Bool, true, false, not, ◌&&◌, ◌||◌, Option, none, some, List, [], ◌∷◌,
  ◌++◌, ltb, leb, if◌then◌else◌, length, is_empty, Text, codes,
}
use telnyx_onset.Audio.{Bytes}
use telnyx_onset.Json.{Json, text, get, truthy, as_object}

-- `send_queue` is the queue of frames; a size of 0 has no bound.
pub record SttClient : Type 0 where
  pub feed_max_frames : ℕ
  pub send_queue : List Bytes
  pub closed : Bool

unfoldable pub new_client : ℕ → SttClient
new_client feed_max_frames = record {
  feed_max_frames = feed_max_frames;
  send_queue = [];
  closed = false;
}

-- `put_nowait`; `none` stands for QueueFull.
unfoldable pub put_nowait : Bytes → SttClient → Option SttClient
put_nowait frame s =
    if ltb 0 s.feed_max_frames && leb s.feed_max_frames (length s.send_queue)
    then none
    else some (record s { send_queue = s.send_queue ++ (frame ∷ []) })

-- `get_nowait` of an empty queue raises QueueEmpty, which is suppressed.
abbrev pub drop_first : List Bytes → List Bytes
drop_first [] = []
drop_first (frame ∷ frames) = frames

abbrev pub or_else {ℓ} : {A : Type ℓ} → Option A → A → A
or_else none d = d
or_else (some a) d = a

unfoldable pub feed : Bytes → SttClient → SttClient
unfolding put_nowait
feed frame s =
    let dropped = record s { send_queue = drop_first s.send_queue } in
    if s.closed
    then s
    else or_else (put_nowait frame s) (or_else (put_nowait frame dropped) dropped)

-- A message of the socket: bytes, or a text with the value that `json.loads` finds, if it is one.
pub data Message : Type 0 where
  binary : Message
  textual : Option Json → Message

-- A call of `on_transcript`.
pub record Transcript : Type 0 where
  pub transcript : Text
  pub is_final : Bool
  pub speech_final : Bool

unfoldable pub handle_message : (Json → Text) → Message → Option Transcript
handle_message str binary = none
handle_message str (textual none) = none
handle_message str (textual (some value)) = elim (as_object value) [
  | none ↦ none
  | some fields ↦
      (let transcript = get (codes "transcript") fields in
        let is_final = truthy (get (codes "is_final") fields) in
        let speech_final = truthy (get (codes "speech_final") fields) in
        if truthy (get (codes "errors") fields) || (not (truthy transcript) && not speech_final)
        then none
        else some (record {
          transcript = str (if truthy transcript then transcript else text []);
          is_final = is_final;
          speech_final = speech_final;
        }))
]

unfoldable pub transcripts : (Json → Text) → List Message → List Transcript
unfolding handle_message
transcripts str [] = []
transcripts str (m ∷ ms) =
    let rest = transcripts str ms in elim (handle_message str m) [ none ↦ rest | some t ↦ t ∷ rest ]

-- One turn of the loop: what the socket yields until it ends or fails, whether `aclose` cancels the task
-- meanwhile, and whether opening a new socket succeeds.
pub record Session : Type 0 where
  pub messages : List Message
  pub is_cancelled : Bool
  pub reopens : Bool

-- How far the loop got: it goes on, it gave up and called `on_error`, or it was cancelled.
pub data Progress : Type 0 where
  goes_on gave_up was_cancelled : Progress

-- The calls of `on_transcript` and the waits, in units of the backoff, in their order.
pub record Received : Type 0 where
  pub heard : List Transcript
  pub waits : List ℕ
  pub progress : Progress

-- The loop over the turns that it makes; `open` tells that there is a socket.
unfoldable pub receive_loop : (Json → Text) → ℕ → ℕ → Bool → List Session → Received
unfolding transcripts
receive_loop str most attempt is_open [] = record { heard = []; waits = []; progress = goes_on }
receive_loop str most attempt is_open (s ∷ later) =
    let messages = if is_open then s.messages else [] in
    let failures = if is_empty messages then attempt else 0 in
    let now = transcripts str messages in
    let rest = receive_loop str most (failures + 1) s.reopens later in
    if s.is_cancelled
    then record { heard = now; waits = []; progress = was_cancelled }
    else if leb most failures
    then record { heard = now; waits = []; progress = gave_up }
    else record {
      heard = now ++ rest.heard;
      waits = (failures + 1) ∷ rest.waits;
      progress = rest.progress;
    }
