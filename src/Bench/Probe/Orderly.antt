-- ===== src/Bench/Probe/Orderly.antt =====
-- The commands that a run of bench/acoustic_probe.py sends for its two legs.
use telnyx_onset.Prelude.{
  ℕ, ◌+◌, ◌≤◌, ◌≡◌, refl, subst, if-cases, Bool, true, false, not, ◌&&◌, Option, none, some, List,
  [], ◌∷◌, if◌then◌else◌, arith, Text,
}
use telnyx_onset.Json.{Fields}
use telnyx_onset.Bench.Tokens.{
  StreamRole, StreamTokenStore, probe, agent, monitor, keeper, same_role, Checked, ok, raised,
  issue,
}
use telnyx_onset.Bench.Probe.{
  contains, leg_b_identified, Command, dial, answer, hangup, bridge, streaming_start, BenchConfig,
  ProbeController, new_controller, transition, fail, mark_media_ready, mark_greeting_started,
  arm_fixture_transport, claim_fixture_transport, mark_fixture_handoff_started,
  persist_fixture_handoff_started, mark_fixture_handoff_completed, mark_fixture_handoff_failed,
}
use telnyx_onset.Bench.Probe.Calls.{
  Next, finished, waits, awaits_answer, started, send, with_token, start_stream, bridge_legs,
  on_initiated, mark_bridged, webhook_is_new,
}
use telnyx_onset.Bench.Probe.Schedule.{Step, run, new_world}
use telnyx_onset.Bench.Probe.Rule.{Rule, run_kept, either}

abbrev is_bridge : Command → ℕ
is_bridge (bridge a b) = 1
is_bridge _ = 0

abbrev is_start : StreamRole → Command → ℕ
is_start r (streaming_start ccid role token) = if same_role role r then 1 else 0
is_start r _ = 0

abbrev pub bridges : List Command → ℕ
bridges [] = 0
bridges (x ∷ xs) = is_bridge x + bridges xs

abbrev pub starts : StreamRole → List Command → ℕ
starts r [] = 0
starts r (x ∷ xs) = is_start r x + starts r xs

abbrev legs_of : List Text → Command → Bool
legs_of answered (bridge a b) = contains a answered && contains b answered
legs_of answered _ = true

-- Every bridge was asked for between two legs that answered.
abbrev pub all_answered : List Text → List Command → Bool
all_answered answered [] = true
all_answered answered (x ∷ xs) = legs_of answered x && all_answered answered xs

abbrev held : Bool → ℕ
held b = if b then 1 else 0

record Sent (commands : List Command) (answered : List Text) (bridge_sent : Bool)
    (streams_started : List StreamRole) : Type 0 where
  one_bridge : bridges commands ≡ held bridge_sent
  both : all_answered answered commands ≡ true
  one_start : (r : StreamRole) → starts r commands ≤ held (started r streams_started)

abbrev Orderly : ProbeController → Type 0
Orderly c = Sent c.commands c.answered c.bridge_sent c.streams_started

new-Orderly :
    (config : BenchConfig) (run_id : Text) (now : ℕ) → Orderly (new_controller config run_id now)
unfolding new_controller
new-Orderly config run_id now = record {
  one_bridge = refl;
  both = refl;
  one_start = λ r. omega arith;
}

legs_of-cons :
    (ccid : Text) (answered : List Text) (x : Command)
    → legs_of answered x ≡ true
    → legs_of (ccid ∷ answered) x ≡ true
legs_of-cons ccid answered (bridge a b) h = ground arith
legs_of-cons ccid answered dial h = refl
legs_of-cons ccid answered (answer id) h = refl
legs_of-cons ccid answered (hangup id) h = refl
legs_of-cons ccid answered (streaming_start id role token) h = refl

all_answered-cons :
    (ccid : Text) (answered : List Text) (xs : List Command)
    → all_answered answered xs ≡ true
    → all_answered (ccid ∷ answered) xs ≡ true
all_answered-cons ccid answered [] h = refl
all_answered-cons ccid answered (x ∷ xs) h =
    let p : legs_of answered x ≡ true = ground arith in
    let q : all_answered answered xs ≡ true = ground arith in
    let k = legs_of-cons ccid answered x p in
    let r = all_answered-cons ccid answered xs q in ground arith

same_role-eq : (a b : StreamRole) → same_role a b ≡ true → a ≡ b
same_role-eq probe probe h = refl
same_role-eq agent agent h = refl
same_role-eq monitor monitor h = refl
same_role-eq keeper keeper h = refl
same_role-eq a b h = ground arith

started-same :
    (role r : StreamRole) (xs : List StreamRole)
    → same_role role r ≡ true
    → started role xs ≡ false
    → started r xs ≡ false
started-same role r xs h e = subst (λ x. started x xs ≡ false) (same_role-eq role r h) e

-- The rest of a start, behind the mark of its role.
with_token-Orderly :
    (ccid : Text) (role : StreamRole) (c : ProbeController) (tokens : StreamTokenStore)
    (x : Checked Text)
    → started role c.streams_started ≡ false
    → Orderly c
    → Orderly
        (with_token ccid role
          (record c { streams_started = role ∷ c.streams_started; tokens = tokens })
          x).0
with_token-Orderly ccid role c tokens (ok token) e h = record {
  one_bridge = let k = h.one_bridge in omega arith;
  both = h.both;
  one_start = λ r. let k = h.one_start r in ground (arith, started-same role r c.streams_started);
}
with_token-Orderly ccid role c tokens (raised error) e h = record {
  one_bridge = h.one_bridge;
  both = h.both;
  one_start = λ r. let k = h.one_start r in ground arith;
}

bridge_legs-Orderly :
    (a b : Option Text) (now : ℕ) (c : ProbeController)
    → Orderly c
    → Orderly (bridge_legs a b now c).0
unfolding bridge_legs transition
bridge_legs-Orderly none b now c h = h
bridge_legs-Orderly (some a) none now c h = h
bridge_legs-Orderly (some a) (some b) now c h =
    if-cases (λ (x : ProbeController × Next). Orderly x.0)
      (not (contains a c.answered && contains b c.answered)) _ _ (λ e. h)
      (λ e.
        if-cases (λ (x : ProbeController × Next). Orderly x.0) c.bridge_sent _ _
          (λ f. record { one_bridge = h.one_bridge; both = h.both; one_start = h.one_start })
          (λ f. record {
            one_bridge = let k = h.one_bridge in ground arith;
            both = let k = h.both in ground arith;
            one_start = λ r. let k = h.one_start r in omega arith;
          }))

abbrev is_plain : Command → Bool
is_plain (bridge a b) = false
is_plain (streaming_start ccid role token) = false
is_plain _ = true

plain-Orderly :
    (x : Command) (c : ProbeController) → is_plain x ≡ true → Orderly c → Orderly (send x c)
plain-Orderly (bridge a b) c e h = cc
plain-Orderly (streaming_start ccid role token) c e h = cc
plain-Orderly x c e h = record {
  one_bridge = let k = h.one_bridge in omega arith;
  both = h.both;
  one_start = λ r. let k = h.one_start r in omega arith;
}

on_initiated-Orderly :
    (payload : Fields) (ccid : Text) (now : ℕ) (c : ProbeController)
    → Orderly c
    → Orderly (on_initiated payload ccid now c).0
unfolding on_initiated transition
on_initiated-Orderly payload ccid now c h =
    let new = transition leg_b_identified now (record c { leg_b = some ccid }) in
    if-cases (λ (x : ProbeController × Next). Orderly x.0) _
      (send (answer ccid) new, waits awaits_answer) (c, finished)
      (λ e.
        plain-Orderly (answer ccid) new refl
          (record { one_bridge = h.one_bridge; both = h.both; one_start = h.one_start }))
      (λ e. h)

mark_bridged-Orderly : (now : ℕ) (c : ProbeController) → Orderly c → Orderly (mark_bridged now c)
unfolding mark_bridged transition
mark_bridged-Orderly now c h = h

Orderly-Rule : Rule (λ c n. Orderly c)
unfolding transition fail mark_media_ready mark_greeting_started arm_fixture_transport
    claim_fixture_transport mark_fixture_handoff_started persist_fixture_handoff_started
    mark_fixture_handoff_completed mark_fixture_handoff_failed start_stream webhook_is_new
Orderly-Rule = record {
  enter = λ s now c h. h;
  failed = λ category now c h. h;
  dialling = λ c h. plain-Orderly dial c refl h;
  dialled = λ leg c h. h;
  initiated = λ payload ccid now c h. on_initiated-Orderly payload ccid now c h;
  answering = λ ccid c h. record {
    one_bridge = h.one_bridge;
    both = all_answered-cons ccid c.answered c.commands h.both;
    one_start = h.one_start;
  };
  bridging = λ now c h. mark_bridged-Orderly now c h;
  legs = λ a b now c h. bridge_legs-Orderly a b now c h;
  stream = λ token ccid role now c e h.
      let x = issue token c.run_id ccid role now c.tokens in
      with_token-Orderly ccid role c x.0 x.1 e h;
  teardown = λ result c h. h;
  hanging = λ c h. h;
  hanging_up = λ leg c h. plain-Orderly (hangup leg) c refl h;
  new_hook = λ place event_id c h. either (λ (x : ProbeController × Bool). Orderly x.0) _ _ _ h h;
  media = λ channel receive_ns c h. h;
  greeting = λ now c h. h;
  arming = λ token now c h. h;
  claiming = λ c e h. h;
  start_handoff = λ now c h. h;
  persist = λ c h. h;
  complete = λ now c h. h;
  break_off = λ now c h. h;
}

-- Whatever webhooks come, in any order, with any answers to the commands, and whatever the sockets do in
-- between: a run of the probe asks for a bridge at most once, and only between two legs that have answered,
-- and it asks at most once for the stream of each role.
pub run-one_bridge :
    (config : BenchConfig) (run_id : Text) (now : ℕ) (steps : List Step)
    → let c = (run steps (new_world (new_controller config run_id now))).controller in
      (bridges c.commands ≤ 1)
      × (all_answered c.answered c.commands ≡ true)
      × ((r : StreamRole) → starts r c.commands ≤ 1)
run-one_bridge config run_id now steps =
    let h =
      run_kept Orderly-Rule steps (new_world (new_controller config run_id now))
        (new-Orderly config run_id now) in
    (let k = h.one_bridge in ground arith, h.both, λ r. let k = h.one_start r in ground arith)
