-- ===== src/Tests/Probe.antt =====
-- Concrete runs of bench/acoustic_probe.py and of the decoder of bench/media_capture.py.
use telnyx_onset.Prelude.{◌≤◌, ◌≡◌, refl, true, false, some, List, [], ◌∷◌, Text, codes}
use telnyx_onset.Json.{Json, natural, text, object, empty_object, field}
use telnyx_onset.Bench.Tokens.{StreamRole, agent, probe, issue}
use telnyx_onset.Bench.Probe.{
  BenchConfig, ProbeController, dial, answer, bridge, streaming_start, new_controller, number,
  failure_categories,
}
use telnyx_onset.Bench.Capture.{MediaFrame}
use telnyx_onset.Bench.Frames.{ok, loaded, Codec, heard, utf8_size, decode_probe_message, ◌>>=◌}
use telnyx_onset.Bench.Frames.Bounds.{IsWhole, decode_probe_message-IsWhole}
use telnyx_onset.Bench.Probe.Calls.{replied, refused}
use telnyx_onset.Bench.Probe.Schedule.{
  Step, dials, hooks, resumes, fails, arms, claims, run, new_world,
}
use telnyx_onset.Bench.Probe.Orderly.{bridges, all_answered, starts, run-one_bridge}
use telnyx_onset.Bench.Probe.Failure.{IsRecorded, run-IsRecorded}
use telnyx_onset.Bench.Probe.Playback.{run-one_claim}

abbrev config : BenchConfig
config = record {
  harness_number = codes "1";
  agent_number = codes "2";
  probe_receive_only = false;
  call_seconds = 60;
}

abbrev start_state : ProbeController
start_state = new_controller config (codes "run") 0

abbrev event : Text → Text → Text → Json
event id kind leg = object (
    field (codes "data")
      (object (
        field (codes "id") (text id) (
          field (codes "event_type") (text kind) (
            field (codes "payload")
              (object (
                field (codes "call_control_id") (text leg) (
                  field (codes "direction") (text (codes "incoming")) (
                    field (codes "from") (text (codes "1"))
                      (field (codes "to") (text (codes "2")) empty_object)))))
              empty_object))))
      empty_object)

abbrev hook : Text → Text → Text → Step
hook id kind leg = hooks (codes "t") 0 (event id kind leg) 5

-- Both legs answer, the webhook of the second one twice, and the legs are bridged.
abbrev bridged_run : List Step
bridged_run =
    dials 1
    ∷ resumes 0 (replied (codes "a")) [] 2
    ∷ hook (codes "e1") (codes "call.initiated") (codes "b")
    ∷ resumes 0 (replied []) [] 3
    ∷ hook (codes "e2") (codes "call.answered") (codes "b")
    ∷ hook (codes "e3") (codes "call.answered") (codes "a")
    ∷ hook (codes "e3") (codes "call.answered") (codes "a")
    ∷ resumes 0 (replied []) [] 4
    ∷ resumes 0 (replied []) [] 4
    ∷ hook (codes "e4") (codes "call.bridged") (codes "a")
    ∷ hook (codes "e5") (codes "call.bridged") (codes "b")
    ∷ []

bridged_commands :
    (run bridged_run (new_world start_state)).controller.commands
    ≡ streaming_start (codes "a") probe (codes "t")
      ∷ bridge (codes "a") (codes "b")
      ∷ streaming_start (codes "b") agent (codes "t")
      ∷ answer (codes "b")
      ∷ dial
      ∷ []
unfolding run new_controller number issue
bridged_commands = refl

run-one_bridge_example :
    let c = (run bridged_run (new_world (new_controller config (codes "run") 0))).controller in
    (bridges c.commands ≤ 1)
    × (all_answered c.answered c.commands ≡ true)
    × ((r : StreamRole) → starts r c.commands ≤ 1)
run-one_bridge_example = run-one_bridge config (codes "run") 0 bridged_run

abbrev failed_run : List Step
failed_run = dials 1 ∷ resumes 0 refused [] 2 ∷ fails (codes "no such category") 3 ∷ []

first_failure :
    (run failed_run (new_world start_state)).controller.failure ≡ some (codes "dial_failed")
unfolding run new_controller number failure_categories
first_failure = refl

run-IsRecorded_example :
    IsRecorded (run failed_run (new_world (new_controller config (codes "run") 0))).controller
run-IsRecorded_example = run-IsRecorded config (codes "run") 0 failed_run

abbrev claim_run : List Step
claim_run =
    dials 1
    ∷ resumes 0 (replied (codes "a")) [] 2
    ∷ arms (codes "x") 3
    ∷ claims (codes "run") (codes "x") 4
    ∷ arms (codes "y") 5
    ∷ claims (codes "run") (codes "y") 6
    ∷ []

one_claim : (run claim_run (new_world start_state)).claims ≡ 1
unfolding run new_controller number issue
one_claim = refl

run-one_claim_example :
    (run claim_run (new_world (new_controller config (codes "run") 0))).claims ≤ 1
run-one_claim_example = run-one_claim config (codes "run") 0 claim_run

abbrev media_message : Json
media_message = object (
    field (codes "event") (text (codes "media")) (
      field (codes "sequence_number") (text (codes "12")) (
        field (codes "media")
          (object (
            field (codes "track") (text (codes "inbound")) (
              field (codes "payload") (text (codes "AAE=")) (
                field (codes "chunk") (natural 3)
                  (field (codes "timestamp") (text (codes "60")) empty_object)))))
          empty_object)))

abbrev reader : Codec
reader = record {
  loads = λ raw. loaded media_message;
  str = λ value. [];
  b64decode = λ payload. some (0 ∷ 1 ∷ []);
}

abbrev media_frame : MediaFrame
media_frame = record {
  sequence_number = 12;
  track = codes "inbound";
  chunk = 3;
  timestamp = 60;
  pcm16 = 0 ∷ 1 ∷ [];
}

media_decoded : decode_probe_message reader (codes "{}") ≡ ok (heard [] media_frame)
unfolding decode_probe_message ◌>>=◌
media_decoded = refl

decode_probe_message-IsWhole_example : IsWhole media_frame × (utf8_size (codes "{}") ≤ 65536)
decode_probe_message-IsWhole_example =
    decode_probe_message-IsWhole reader (codes "{}") [] media_frame media_decoded
