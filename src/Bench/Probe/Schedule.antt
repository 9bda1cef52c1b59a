-- ===== src/Bench/Probe/Schedule.antt =====
-- bench/acoustic_probe.py: a run as stretches of the webhooks, of the sockets and of the dialling in any order.
use telnyx_onset.Prelude.{
  ℕ, zero, suc, ◌+◌, Bool, true, false, Option, none, some, List, [], ◌∷◌, ◌++◌, if◌then◌else◌,
  Text, codes,
}
use telnyx_onset.Json.{Json}
use telnyx_onset.Bench.Probe.{
  ProbeState, dial_requested, dial, ProbeController, transition, fail, mark_media_ready,
  mark_greeting_started, arm_fixture_transport, claim_fixture_transport,
  mark_fixture_handoff_started, persist_fixture_handoff_started, mark_fixture_handoff_completed,
  mark_fixture_handoff_failed,
}
use telnyx_onset.Bench.Probe.Calls.{
  Task, awaits_dial, Next, finished, raises, waits, Reply, send, dispatch, resume, hangup_both,
  webhook_is_new, parse_hook,
}

-- `claims` counts the requests that got the fixture.
pub record World : Type 0 where
  pub controller : ProbeController
  pub tasks : List Task
  pub claims : ℕ

-- A stretch of the run. Each has the reading of the clock; a webhook and the end of an await also what
-- `secrets.token_urlsafe` gives, and a webhook the place of the id that `set.pop` takes.
pub data Step : Type 0 where
  dials hangs_up handoff_starts handoff_persists handoff_completes handoff_fails greets : ℕ → Step
  hooks : Text → ℕ → Json → ℕ → Step
  resumes : ℕ → Reply → Text → ℕ → Step
  fails : Text → ℕ → Step
  enters : ProbeState → ℕ → Step
  hears : Text → ℕ → Step
  arms : Text → ℕ → Step
  claims : Text → Text → ℕ → Step

-- An exception that leaves `dispatch` is caught by the webhook's route.
abbrev pub settle : ℕ → World → ProbeController × Next → World
settle now w (c, finished) = record w { controller = c }
settle now w (c, raises) = record w { controller = fail (codes "socket_error") now c }
settle now w (c, waits task) = record w { controller = c; tasks = w.tasks ++ (task ∷ []) }

abbrev pub begin_dial : ℕ → ProbeController → ProbeController × Next
begin_dial now c = (send dial (transition dial_requested now c), waits awaits_dial)

unfoldable pub receive : Text → ℕ → Json → ℕ → World → World
unfolding parse_hook webhook_is_new dispatch fail
receive token place body now w = elim (parse_hook body) [
  | none ↦ w
  | some (event_id, event_type, payload) ↦
      let (c, new) = webhook_is_new place event_id w.controller in
      if new then settle now w (dispatch token event_type payload now c) else w
]

-- The task at a place, and the others.
abbrev pub take_out : ℕ → List Task → Option (Task × List Task)
take_out i [] = none
take_out zero (t ∷ ts) = some (t, ts)
take_out (suc i) (t ∷ ts) = elim (take_out i ts) [
  | none ↦ none
  | some (x, rest) ↦ some (x, t ∷ rest)
]

unfoldable pub wake : ℕ → Reply → Text → ℕ → World → World
unfolding resume fail
wake place reply token now w = elim (take_out place w.tasks) [
  | none ↦ w
  | some (task, rest) ↦
      settle now (record w { tasks = rest }) (resume reply token now task w.controller)
]

abbrev pub armed : Option ProbeController → World → World
armed none w = w
armed (some c) w = record w { controller = c }

abbrev pub claimed : ProbeController × Bool → World → World
claimed (c, true) w = record w { controller = c; claims = w.claims + 1 }
claimed (c, false) w = record w { controller = c }

abbrev pub on_controller : (ProbeController → ProbeController) → World → World
on_controller f w = record w { controller = f w.controller }

unfoldable pub step : Step → World → World
unfolding transition fail hangup_both mark_fixture_handoff_started persist_fixture_handoff_started
    mark_fixture_handoff_completed mark_fixture_handoff_failed mark_greeting_started receive wake
    mark_media_ready arm_fixture_transport claim_fixture_transport
step (dials now) w = settle now w (begin_dial now w.controller)
step (hangs_up now) w = settle now w (hangup_both w.controller)
step (handoff_starts now) w = on_controller (mark_fixture_handoff_started now) w
step (handoff_persists now) w = on_controller persist_fixture_handoff_started w
step (handoff_completes now) w = on_controller (mark_fixture_handoff_completed now) w
step (handoff_fails now) w = on_controller (mark_fixture_handoff_failed now) w
step (greets now) w = on_controller (mark_greeting_started now) w
step (hooks token place body now) w = receive token place body now w
step (resumes place reply token now) w = wake place reply token now w
step (fails category now) w = on_controller (fail category now) w
step (enters state now) w = on_controller (transition state now) w
step (hears channel receive_ns) w = on_controller (mark_media_ready channel receive_ns) w
step (arms token now) w = armed (arm_fixture_transport token now w.controller) w
step (claims run_id token now) w = claimed (claim_fixture_transport run_id token now w.controller) w

unfoldable pub run : List Step → World → World
unfolding step
run [] w = w
run (s ∷ steps) w = run steps (step s w)

abbrev pub new_world : ProbeController → World
new_world c = record { controller = c; tasks = []; claims = 0 }
