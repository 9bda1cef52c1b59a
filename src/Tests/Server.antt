-- ===== src/Tests/Server.antt =====
-- Concrete runs of onset/server.py and onset/media.py's `decode`.
use telnyx_onset.Prelude.{
  ℕ, ◌+◌, ◌-◌, ◌≤◌, ◌<◌, ◌≡◌, ◌≢◌, refl, true, false, ◌||◌, ◌&&◌, Option, none, some, List, [], ◌∷◌,
  All, arith, length, Text, codes, leb, ltb, if◌then◌else◌, decimal, max_str_digits,
}
use telnyx_onset.Json.{text, natural, object, field, empty_object}
use telnyx_onset.Media.Inbound.{start, Codec, Loaded, value, attribute_error, decode}
use telnyx_onset.Media.Raises.{raises, brings, raises-decode}
use telnyx_onset.Agent.Response.{mark_name}
use telnyx_onset.Limits.{new_limiter}
use telnyx_onset.Server.{
  start_streaming, hang_up, Settings, Webhook, new_app, parse_speak_generation,
}
use telnyx_onset.Server.Socket.{
  Outside, receives, breaks, run_ended, media_closed, Action, hook, connects, steps, run, is_none,
}
use telnyx_onset.Server.Slots.{slots, run-slots}
use telnyx_onset.Server.Served.{asked}
use telnyx_onset.Server.Admission.{run-admits}
use telnyx_onset.Server.Marks.{parse_speak_generation-mark_name}
use telnyx_onset.Tests.Call.{talking}

abbrev one_call : Settings
one_call = record {
  telnyx_connection_id = [];
  media_stream_url = codes "wss://host/ws/media";
  max_concurrent_calls = 1;
  has_benchmark_profile = true;
}

abbrev ascii_digit : ℕ → Option ℕ
ascii_digit c = if leb b'0' c && ltb c (b'0' + 10) then some (c - b'0') else none

abbrev outside : Outside
outside = record {
  built = some talking;
  profile = none;
  detect = λ pcm16. false;
  now = 5;
  digit = ascii_digit;
}

abbrev answered : Text → Webhook
answered id = record {
  event_type = codes "call.answered";
  connection_id = [];
  direction = [];
  call_control_id = id;
}

-- Two calls are answered, and both sockets connect; the first is served and ends.
abbrev two_calls : List Action
two_calls =
    hook (codes "t1") true (answered (codes "c1"))
    ∷ hook (codes "t2") true (answered (codes "c2"))
    ∷ connects (codes "t1")
    ∷ connects (codes "t2")
    ∷ steps 0 (receives outside (start (codes "c1") [] []))
    ∷ steps 1 (receives outside (start (codes "c2") [] []))
    ∷ steps 0 breaks
    ∷ steps 0 run_ended
    ∷ steps 0 media_closed
    ∷ []

run-slots_example :
    let (app, rs) = run two_calls (new_app one_call) [] in
    (app.limiter.active ≡ slots rs)
    × (one_call.max_concurrent_calls ≢ 0 → slots rs ≤ one_call.max_concurrent_calls)
run-slots_example = run-slots one_call two_calls

run-admits_example :
    let (app, rs) = run two_calls (new_app one_call) [] in
    All (λ r. (is_none r.agent || asked r.call_control_id app.commands) ≡ true) rs
    × (length app.stream_tokens ≤ 257)
run-admits_example = run-admits one_call two_calls

-- The second call is rejected, by a hangup of the empty id.
second_rejected :
    (run two_calls (new_app one_call) []).0.commands
    ≡ hang_up []
      ∷ start_streaming (codes "c2") (codes "wss://host/ws/media?token=t2")
      ∷ start_streaming (codes "c1") (codes "wss://host/ws/media?token=t1")
      ∷ []
unfolding run new_app new_limiter
second_rejected = refl

ascii_lem : (d : ℕ) → d < 10 → ascii_digit (b'0' + d) ≡ some d
ascii_lem d h = ground arith

short : length (decimal 42) ≤ max_str_digits
unfolding decimal
short = omega arith

parse_speak_generation-mark_name_example :
    parse_speak_generation ascii_digit (mark_name 42) ≡ some 42
parse_speak_generation-mark_name_example =
    parse_speak_generation-mark_name ascii_digit ascii_lem 42 short

abbrev codec : Codec
codec = record { str = λ v. []; decode_l16_payload = λ v. none }

-- A start event whose field is a number.
abbrev bad_start : Loaded
bad_start = value (
    object (
      field (codes "event") (text (codes "start"))
        (field (codes "start") (natural 7) empty_object)))

raises-decode_example : raises (decode codec bad_start) ≡ brings bad_start
raises-decode_example = raises-decode codec bad_start

bad_start-raises : raises (decode codec bad_start) ≡ some attribute_error
unfolding decode
bad_start-raises = refl
