-- ===== src/Bench/Probe/Playback.antt =====
-- The one-time address of the fixture in bench/acoustic_probe.py.
use telnyx_onset.Prelude.{
  ℕ, ◌≤◌, ◌≡◌, refl, Bool, not, ◌&&◌, Option, none, some, List, ◌∷◌, if◌then◌else◌, arith, Text,
}
use telnyx_onset.Bench.Tokens.{StreamRole, Checked, ok, raised, issue}
use telnyx_onset.Bench.Probe.{
  contains, legs_answered, BenchConfig, ProbeController, new_controller, transition, fail,
  mark_media_ready, mark_greeting_started, mark_fixture_handoff_started,
  persist_fixture_handoff_started, mark_fixture_handoff_completed, mark_fixture_handoff_failed,
}
use telnyx_onset.Bench.Probe.Calls.{
  Next, with_token, start_stream, bridge_legs, on_initiated, mark_bridged, webhook_is_new,
}
use telnyx_onset.Bench.Probe.Schedule.{Step, run, new_world}
use telnyx_onset.Bench.Probe.Rule.{Rule, run_kept, either}

record Count (claimed : Bool) (n : ℕ) : Type 0 where
  total : n ≡ (if claimed then 1 else 0)

abbrev Counted : ProbeController → ℕ → Type 0
Counted c n = Count c.fixture_token_claimed n

bridge_legs-Counted :
    (a b : Option Text) (now : ℕ) (c : ProbeController) (n : ℕ)
    → Counted c n
    → Counted (bridge_legs a b now c).0 n
unfolding bridge_legs transition
bridge_legs-Counted none b now c n h = h
bridge_legs-Counted (some a) none now c n h = h
bridge_legs-Counted (some a) (some b) now c n h =
    let M = λ (x : ProbeController × Next). Counted x.0 n in
    either M (not (contains a c.answered && contains b c.answered)) _ _ h
      (either M (transition legs_answered now c).bridge_sent _ _ h h)

with_token-Counted :
    (ccid : Text) (role : StreamRole) (c : ProbeController) (x : Checked Text) (n : ℕ)
    → Counted c n
    → Counted (with_token ccid role c x).0 n
with_token-Counted ccid role c (ok token) n h = h
with_token-Counted ccid role c (raised e) n h = h

Counted-Rule : Rule Counted
unfolding transition fail mark_media_ready mark_greeting_started mark_bridged on_initiated
    start_stream webhook_is_new mark_fixture_handoff_started persist_fixture_handoff_started
    mark_fixture_handoff_completed mark_fixture_handoff_failed
Counted-Rule = record {
  enter = λ s now c h. h;
  failed = λ category now c h. h;
  dialling = λ c h. h;
  dialled = λ leg c h. h;
  initiated =
      λ payload ccid now c {n} h. either (λ (x : ProbeController × Next). Counted x.0 n) _ _ _ h h;
  answering = λ ccid c h. h;
  bridging = λ now c h. h;
  legs = λ a b now c {n} h. bridge_legs-Counted a b now c n h;
  stream = λ token ccid role now c {n} e h.
      let x = issue token c.run_id ccid role now c.tokens in
      with_token-Counted ccid role
        (record c { streams_started = role ∷ c.streams_started; tokens = x.0 }) x.1 n h;
  teardown = λ result c h. h;
  hanging = λ c h. h;
  hanging_up = λ leg c h. h;
  new_hook =
      λ place event_id c {n} h. either (λ (x : ProbeController × Bool). Counted x.0 n) _ _ _ h h;
  media = λ channel receive_ns c h. h;
  greeting = λ now c h. h;
  arming = λ token now c h. h;
  claiming = λ c {n} e h. record { total = let k = h.total in ground arith };
  start_handoff = λ now c h. h;
  persist = λ c h. h;
  complete = λ now c h. h;
  break_off = λ now c h. h;
}

-- In a run of the probe at most one request gets the fixture, however often its address is armed and
-- claimed, and whatever else happens in between.
pub run-one_claim :
    (config : BenchConfig) (run_id : Text) (now : ℕ) (steps : List Step)
    → (run steps (new_world (new_controller config run_id now))).claims ≤ 1
unfolding new_controller
run-one_claim config run_id now steps =
    let h =
      run_kept Counted-Rule steps (new_world (new_controller config run_id now))
        (record { total = refl }) in
    let k = h.total in ground arith
