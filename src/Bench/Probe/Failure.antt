-- ===== src/Bench/Probe/Failure.antt =====
-- The failure and the states of a run of bench/acoustic_probe.py.
use telnyx_onset.Prelude.{
  ℕ, ◌+◌, ◌≡◌, refl, if-cases, Bool, true, false, not, ◌&&◌, ◌||◌, Option, none, some, List, [],
  ◌∷◌, ◌++◌, ◌==◌, if◌then◌else◌, arith, Text, codes,
}
use telnyx_onset.Json.{Fields}
use telnyx_onset.Bench.Tokens.{StreamRole, Checked, ok, raised, issue}
use telnyx_onset.Bench.Probe.{
  ProbeState, stimulus_started, leg_b_identified, legs_answered, bridged, number, seen, contains,
  failure_categories, category_of, first_of, is_none, Event, entered, gate_failure, legs_bridged,
  greeting_output_started, response_completed, response_failed, handoff_rows, BenchConfig,
  ProbeController, new_controller, transition, fail, mark_media_ready, mark_greeting_started,
  mark_fixture_handoff_started, persist_fixture_handoff_started, mark_fixture_handoff_completed,
  mark_fixture_handoff_failed,
}
use telnyx_onset.Bench.Probe.Calls.{
  Next, with_token, start_stream, bridge_legs, on_initiated, mark_bridged, webhook_is_new,
}
use telnyx_onset.Bench.Probe.Schedule.{Step, run, new_world}
use telnyx_onset.Bench.Probe.Rule.{Rule, run_kept, either}

abbrev is_failure : Event → ℕ
is_failure (gate_failure category at) = 1
is_failure _ = 0

-- How many rows of the log tell of a failure.
abbrev pub failure_rows : List Event → ℕ
failure_rows [] = 0
failure_rows (x ∷ xs) = is_failure x + failure_rows xs

abbrev pub distinct : List ProbeState → Bool
distinct [] = true
distinct (x ∷ xs) = not (seen x xs) && distinct xs

abbrev pub is_category : Option Text → Bool
is_category none = true
is_category (some category) = contains category failure_categories

failure_rows-append :
    (xs ys : List Event) → failure_rows (xs ++ ys) ≡ failure_rows xs + failure_rows ys
failure_rows-append [] ys = omega arith
failure_rows-append (x ∷ xs) ys = omega (arith, failure_rows-append xs ys)

seen-append :
    (s t : ProbeState) (xs : List ProbeState)
    → seen s (xs ++ t ∷ []) ≡ (seen s xs || (number t == number s))
seen-append s t [] = ground arith
seen-append s t (x ∷ xs) = let h = seen-append s t xs in ground arith

distinct-append :
    (s : ProbeState) (xs : List ProbeState)
    → seen s xs ≡ false
    → distinct xs ≡ true
    → distinct (xs ++ s ∷ []) ≡ true
distinct-append s [] e h = refl
distinct-append s (x ∷ xs) e h =
    let k = distinct-append s xs (ground arith) (ground arith) in
    let l = seen-append x s xs in ground arith

distinct-add :
    (t : Bool) (s : ProbeState) (xs : List ProbeState)
    → (t ≡ false → seen s xs ≡ false)
    → distinct xs ≡ true
    → distinct (if t then xs else xs ++ (s ∷ [])) ≡ true
distinct-add true s xs e h = h
distinct-add false s xs e h = distinct-append s xs (e refl) h

socket_error-known : contains (codes "socket_error") failure_categories ≡ true
unfolding failure_categories
socket_error-known = refl

category_of-is_category : (category : Text) → is_category (some (category_of category)) ≡ true
category_of-is_category category =
    if-cases (λ t. contains t failure_categories ≡ true) (contains category failure_categories) _ _
      (λ e. e) (λ e. socket_error-known)

-- The failure is a known category, the log has one row for it, and no state comes twice.
pub record Recorded (failure : Option Text) (events : List Event) (states : List ProbeState)
    : Type 0 where
  pub known : is_category failure ≡ true
  pub one_row : failure_rows events ≡ (if is_none failure then 0 else 1)
  pub once : distinct states ≡ true

abbrev pub IsRecorded : ProbeController → Type 0
IsRecorded c = Recorded c.failure c.events c.states

logged :
    (failure : Option Text) (events rows : List Event) (states : List ProbeState)
    → failure_rows rows ≡ 0
    → Recorded failure events states
    → Recorded failure (events ++ rows) states
logged failure events rows states e h = record {
  known = h.known;
  one_row = let k = h.one_row in omega (arith, failure_rows-append events rows);
  once = h.once;
}

enter-IsRecorded :
    (s : ProbeState) (now : ℕ) (c : ProbeController)
    → IsRecorded c
    → IsRecorded (transition s now c)
unfolding transition
enter-IsRecorded s now c h = record {
  known = h.known;
  one_row =
      either (λ e. failure_rows e ≡ (if is_none c.failure then 0 else 1)) (seen s c.states) _ _
        h.one_row (logged c.failure c.events (entered s now ∷ []) c.states (omega arith) h).one_row;
  once = distinct-add (seen s c.states) s c.states (λ e. e) h.once;
}

fail-IsRecorded :
    (category : Text) (now : ℕ) (c : ProbeController)
    → IsRecorded c
    → IsRecorded (fail category now c)
unfolding fail
fail-IsRecorded category now c h = go c.failure h
  where
    go :
        (f : Option Text)
        → Recorded f c.events c.states
        → Recorded
            (first_of f (category_of category))
            (if is_none f
              then c.events ++ (gate_failure (category_of category) now ∷ [])
              else c.events)
            c.states
    go none k = record {
      known = category_of-is_category category;
      one_row =
          let r = k.one_row in
          omega
            (arith, failure_rows-append c.events (gate_failure (category_of category) now ∷ []));
      once = k.once;
    }
    go (some f) k = k

mark_bridged-IsRecorded :
    (now : ℕ) (c : ProbeController) → IsRecorded c → IsRecorded (mark_bridged now c)
unfolding mark_bridged transition
mark_bridged-IsRecorded now c h =
    let t = transition bridged now c in
    let k = enter-IsRecorded bridged now c h in
    record {
      known = h.known;
      one_row =
          either (λ e. failure_rows e ≡ (if is_none c.failure then 0 else 1))
            (seen bridged c.states) _ _ h.one_row
            (logged c.failure t.events (legs_bridged now ∷ []) t.states (omega arith) k).one_row;
      once = k.once;
    }

bridge_legs-IsRecorded :
    (a b : Option Text) (now : ℕ) (c : ProbeController)
    → IsRecorded c
    → IsRecorded (bridge_legs a b now c).0
unfolding bridge_legs
bridge_legs-IsRecorded none b now c h = h
bridge_legs-IsRecorded (some a) none now c h = h
bridge_legs-IsRecorded (some a) (some b) now c h =
    let k = enter-IsRecorded legs_answered now c h in
    let M = λ (x : ProbeController × Next). IsRecorded x.0 in
    either M (not (contains a c.answered && contains b c.answered)) _ _ h
      (either M (transition legs_answered now c).bridge_sent _ _ k k)

with_token-IsRecorded :
    (ccid : Text) (role : StreamRole) (c : ProbeController) (x : Checked Text)
    → IsRecorded c
    → IsRecorded (with_token ccid role c x).0
with_token-IsRecorded ccid role c (ok token) h = h
with_token-IsRecorded ccid role c (raised e) h = h

start_handoff-IsRecorded :
    (now : ℕ) (c : ProbeController) → IsRecorded c → IsRecorded (mark_fixture_handoff_started now c)
unfolding mark_fixture_handoff_started
start_handoff-IsRecorded now c h = record {
  known = h.known;
  one_row = h.one_row;
  once = distinct-add _ stimulus_started c.states (λ e. ground arith) h.once;
}

persist-IsRecorded :
    (c : ProbeController) → IsRecorded c → IsRecorded (persist_fixture_handoff_started c)
unfolding persist_fixture_handoff_started
persist-IsRecorded c h =
    logged c.failure c.events
      (handoff_rows c.fixture_handoff_started_ns c.fixture_handoff_start_persisted) c.states
      (rows c.fixture_handoff_started_ns c.fixture_handoff_start_persisted) h
  where
    rows : (at : Option ℕ) (done : Bool) → failure_rows (handoff_rows at done) ≡ 0
    rows none done = refl
    rows (some at) true = refl
    rows (some at) false = omega arith

on_initiated-IsRecorded :
    (payload : Fields) (ccid : Text) (now : ℕ) (c : ProbeController)
    → IsRecorded c
    → IsRecorded (on_initiated payload ccid now c).0
unfolding on_initiated
on_initiated-IsRecorded payload ccid now c h =
    either (λ (x : ProbeController × Next). IsRecorded x.0) _ _ _
      (enter-IsRecorded leg_b_identified now (record c { leg_b = some ccid }) h) h

IsRecorded-Rule : Rule (λ c n. IsRecorded c)
unfolding mark_media_ready mark_greeting_started start_stream webhook_is_new
    mark_fixture_handoff_completed mark_fixture_handoff_failed
IsRecorded-Rule = record {
  enter = λ s now c h. enter-IsRecorded s now c h;
  failed = λ category now c h. fail-IsRecorded category now c h;
  dialling = λ c h. h;
  dialled = λ leg c h. h;
  initiated = λ payload ccid now c h. on_initiated-IsRecorded payload ccid now c h;
  answering = λ ccid c h. h;
  bridging = λ now c h. mark_bridged-IsRecorded now c h;
  legs = λ a b now c h. bridge_legs-IsRecorded a b now c h;
  stream = λ token ccid role now c e h.
      let x = issue token c.run_id ccid role now c.tokens in
      with_token-IsRecorded ccid role
        (record c { streams_started = role ∷ c.streams_started; tokens = x.0 }) x.1 h;
  teardown = λ result c h. h;
  hanging = λ c h. h;
  hanging_up = λ leg c h. h;
  new_hook =
      λ place event_id c h. either (λ (x : ProbeController × Bool). IsRecorded x.0) _ _ _ h h;
  media = λ channel receive_ns c h. h;
  greeting = λ now c h. record {
    known = h.known;
    one_row =
        either (λ e. failure_rows e ≡ (if is_none c.failure then 0 else 1))
          (is_none c.greeting_started_ns) _ _
          (logged c.failure c.events (greeting_output_started now ∷ []) c.states (omega arith)
            h).one_row
          h.one_row;
    once = h.once;
  };
  arming = λ token now c h. h;
  claiming = λ c e h. h;
  start_handoff = λ now c h. start_handoff-IsRecorded now c h;
  persist = λ c h. persist-IsRecorded c h;
  complete = λ now c h.
      let d = persist_fixture_handoff_started c in
      logged c.failure d.events (response_completed now ∷ []) c.states (omega arith)
        (persist-IsRecorded c h);
  break_off = λ now c h.
      let d = persist_fixture_handoff_started c in
      logged c.failure d.events (response_failed now ∷ []) c.states (omega arith)
        (persist-IsRecorded c h);
}

-- At every point of a run of the probe: if it failed, its failure is one of FAILURE_CATEGORIES, also where a
-- task named another; events.jsonl has exactly one row for it, and none if there is no failure; and no
-- state was entered twice.
pub run-IsRecorded :
    (config : BenchConfig) (run_id : Text) (now : ℕ) (steps : List Step)
    → IsRecorded (run steps (new_world (new_controller config run_id now))).controller
unfolding new_controller
run-IsRecorded config run_id now steps =
    run_kept IsRecorded-Rule steps (new_world (new_controller config run_id now))
      (record { known = refl; one_row = refl; once = refl })
