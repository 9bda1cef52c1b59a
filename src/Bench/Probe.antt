-- ===== src/Bench/Probe.antt =====
-- bench/acoustic_probe.py: the state of one run of the probe and the operations on it. The identifiers and
-- numbers compared by `hmac.compare_digest` are ASCII texts. A stretch between two awaits takes one reading
-- of the clock, also where the code reads it again for a row of events.jsonl. The manifest file is left out.
pub mod Calls
pub mod Schedule
pub mod Watch
pub mod Rule
pub mod Orderly
pub mod Failure
pub mod Playback
use telnyx_onset.Prelude.{
  ℕ, ◌+◌, ◌*◌, ◌≡◌, Bool, true, false, not, ◌||◌, ◌&&◌, Option, none, some, List, [], ◌∷◌, ◌++◌,
  max, ltb, ◌==◌, if◌then◌else◌, is_empty, Text, codes, text_eq,
}
use telnyx_onset.Bench.Tokens.{StreamRole, StreamTokenStore}

pub data ProbeState : Type 0 where
  dial_requested leg_a_identified leg_b_identified legs_answered bridged stream_authorized :
      ProbeState
  stream_connected media_format_validated agent_audio_observed agent_natural_stop_observed :
      ProbeState
  stimulus_started stimulus_completed post_stimulus_agent_audio_observed capture_completed :
      ProbeState

unfoldable pub number : ProbeState → ℕ
number dial_requested = 0
number leg_a_identified = 1
number leg_b_identified = 2
number legs_answered = 3
number bridged = 4
number stream_authorized = 5
number stream_connected = 6
number media_format_validated = 7
number agent_audio_observed = 8
number agent_natural_stop_observed = 9
number stimulus_started = 10
number stimulus_completed = 11
number post_stimulus_agent_audio_observed = 12
number capture_completed = 13

-- `state in states`.
abbrev pub seen : ProbeState → List ProbeState → Bool
seen s [] = false
seen s (x ∷ xs) = (number x == number s) || seen s xs

abbrev pub contains : Text → List Text → Bool
contains t [] = false
contains t (x ∷ xs) = text_eq x t || contains t xs

unfoldable pub failure_categories : List Text
failure_categories =
    codes "dial_failed"
    ∷ codes "leg_a_missing"
    ∷ codes "leg_b_missing"
    ∷ codes "answer_timeout"
    ∷ codes "bridge_failed"
    ∷ codes "stream_start_failed"
    ∷ codes "stream_auth_failed"
    ∷ codes "stream_call_id_mismatch"
    ∷ codes "media_format_mismatch"
    ∷ codes "track_missing"
    ∷ codes "track_ambiguous"
    ∷ codes "media_ordering_anomaly"
    ∷ codes "agent_audio_not_observed"
    ∷ codes "natural_stop_not_observed"
    ∷ codes "stimulus_send_failed"
    ∷ codes "stimulus_transport_pending"
    ∷ codes "fixture_match_missing"
    ∷ codes "fixture_match_ambiguous"
    ∷ codes "stimulus_overlap"
    ∷ codes "stimulus_boundary_ambiguous"
    ∷ codes "cross_channel_alignment_failed"
    ∷ codes "post_stimulus_response_not_observed"
    ∷ codes "capture_limit_reached"
    ∷ codes "socket_error"
    ∷ codes "call_hangup"
    ∷ codes "teardown_timeout"
    ∷ []

pub record BenchConfig : Type 0 where
  pub harness_number : Text
  pub agent_number : Text
  pub probe_receive_only : Bool
  pub call_seconds : ℕ

-- The rows of events.jsonl.
pub data Event : Type 0 where
  entered : ProbeState → ℕ → Event
  gate_failure : Text → ℕ → Event
  legs_bridged greeting_output_started response_completed response_failed : ℕ → Event
  first_active_chunk_handoff_started : ℕ → Event

-- What is asked of the call control interface.
pub data Command : Type 0 where
  dial : Command
  answer hangup : Text → Command
  bridge : Text → Text → Command
  streaming_start : Text → StreamRole → Text → Command

-- `commands` holds what was sent so far, newest first; `hangup_started` that there is a task of the hangups.
pub record ProbeController : Type 0 where
  pub config : BenchConfig
  pub run_id : Text
  pub tokens : StreamTokenStore
  pub leg_a : Option Text
  pub leg_b : Option Text
  pub answered : List Text
  pub streams_started : List StreamRole
  pub bridge_sent : Bool
  pub bridge_ready : Bool
  pub measurement_ready : Bool
  pub media_ready_ns : List (Text × ℕ)
  pub measurement_start_ns : Option ℕ
  pub greeting_started_ns : Option ℕ
  pub states : List ProbeState
  pub failure : Option Text
  pub seen_webhooks : List Text
  pub fixture_token : Option Text
  pub fixture_call_control_id : Option Text
  pub fixture_token_expires_ns : Option ℕ
  pub fixture_token_claimed : Bool
  pub fixture_transport_armed : Bool
  pub fixture_handoff_started_ns : Option ℕ
  pub fixture_handoff_completed_ns : Option ℕ
  pub fixture_handoff_failed : Bool
  pub fixture_handoff_start_persisted : Bool
  pub started_ns : ℕ
  pub last_transition_ns : ℕ
  pub teardown_result : Text
  pub hangup_started : Bool
  pub events : List Event
  pub commands : List Command

unfoldable pub new_controller : BenchConfig → Text → ℕ → ProbeController
new_controller config run_id now = record {
  config = config;
  run_id = run_id;
  tokens = record { maximum = 4; pending = [] };
  leg_a = none;
  leg_b = none;
  answered = [];
  streams_started = [];
  bridge_sent = false;
  bridge_ready = false;
  measurement_ready = false;
  media_ready_ns = [];
  measurement_start_ns = none;
  greeting_started_ns = none;
  states = [];
  failure = none;
  seen_webhooks = [];
  fixture_token = none;
  fixture_call_control_id = none;
  fixture_token_expires_ns = none;
  fixture_token_claimed = false;
  fixture_transport_armed = false;
  fixture_handoff_started_ns = none;
  fixture_handoff_completed_ns = none;
  fixture_handoff_failed = false;
  fixture_handoff_start_persisted = false;
  started_ns = now;
  last_transition_ns = now;
  teardown_result = codes "not_started";
  hangup_started = false;
  events = [];
  commands = [];
}

abbrev pub is_none {ℓ} : {A : Type ℓ} → Option A → Bool
is_none none = true
is_none (some _) = false

abbrev pub first_of {ℓ} : {A : Type ℓ} → Option A → A → Option A
first_of none new = some new
first_of (some old) new = some old

unfoldable pub transition : ProbeState → ℕ → ProbeController → ProbeController
transition s now c =
    let known = seen s c.states in
    record c {
      states = if known then c.states else c.states ++ (s ∷ []);
      last_transition_ns = if known then c.last_transition_ns else now;
      events = if known then c.events else c.events ++ (entered s now ∷ []);
    }

abbrev pub category_of : Text → Text
category_of category =
    if contains category failure_categories then category else codes "socket_error"

unfoldable pub fail : Text → ℕ → ProbeController → ProbeController
fail category now c = record c {
  failure = first_of c.failure (category_of category);
  events =
      if is_none c.failure
      then c.events ++ (gate_failure (category_of category) now ∷ [])
      else c.events;
}

abbrev pub setdefault : Text → ℕ → List (Text × ℕ) → List (Text × ℕ)
setdefault k v [] = (k, v) ∷ []
setdefault k v ((k', v') ∷ rest) = (k', v') ∷ (if text_eq k' k then rest else setdefault k v rest)

abbrev pub has_key : Text → List (Text × ℕ) → Bool
has_key k [] = false
has_key k ((k', v) ∷ rest) = text_eq k' k || has_key k rest

abbrev pub max_value : List (Text × ℕ) → ℕ
max_value [] = 0
max_value ((k, v) ∷ rest) = max v (max_value rest)

unfoldable pub mark_media_ready : Text → ℕ → ProbeController → ProbeController
mark_media_ready channel receive_ns c =
    let ready = setdefault channel receive_ns c.media_ready_ns in
    let both = has_key (codes "channel_a") ready && has_key (codes "channel_b") ready in
    record c {
      media_ready_ns = ready;
      measurement_start_ns = if both then some (max_value ready) else c.measurement_start_ns;
      measurement_ready = both || c.measurement_ready;
    }

unfoldable pub mark_greeting_started : ℕ → ProbeController → ProbeController
mark_greeting_started now c = record c {
  greeting_started_ns = first_of c.greeting_started_ns now;
  events =
      if is_none c.greeting_started_ns
      then c.events ++ (greeting_output_started now ∷ [])
      else c.events;
}

abbrev pub fixture_token_ttl_seconds : ℕ
fixture_token_ttl_seconds = 15

abbrev pub arm : Text → ℕ → ProbeController → ProbeController
arm token now c = record c {
  fixture_token = some token;
  fixture_call_control_id = c.leg_a;
  fixture_token_expires_ns = some (now + fixture_token_ttl_seconds * 1000000000);
  fixture_transport_armed = true;
}

-- `token` is what `secrets.token_urlsafe` returns. `none`: it raises ProbeProtocolError.
unfoldable pub arm_fixture_transport : Text → ℕ → ProbeController → Option ProbeController
arm_fixture_transport token now c =
    if is_none c.leg_a || not (is_none c.fixture_token) then none else some (arm token now c)

abbrev pub same_text : Option Text → Option Text → Bool
same_text (some a) (some b) = text_eq a b
same_text _ _ = false

abbrev pub expired : ℕ → Option ℕ → Bool
expired now none = true
expired now (some expires) = ltb expires now

abbrev pub spend : ProbeController → ProbeController
spend c = record c {
  fixture_token_claimed = true;
  fixture_token = none;
  fixture_call_control_id = none;
  fixture_token_expires_ns = none;
}

abbrev pub is_refused : Text → Text → ℕ → ProbeController → Bool
is_refused run_id token now c =
    c.fixture_token_claimed
    || expired now c.fixture_token_expires_ns
    || not (same_text c.leg_a c.fixture_call_control_id)
    || not (text_eq run_id c.run_id)
    || not (same_text (some token) c.fixture_token)

-- The lock around it has no await inside, so it is one stretch.
unfoldable pub claim_fixture_transport : Text → Text → ℕ → ProbeController → ProbeController × Bool
claim_fixture_transport run_id token now c =
    if is_refused run_id token now c then (c, false) else (spend c, true)

unfoldable pub mark_fixture_handoff_started : ℕ → ProbeController → ProbeController
mark_fixture_handoff_started now c =
    let known = not (is_none c.fixture_handoff_started_ns) || seen stimulus_started c.states in
    record c {
      fixture_handoff_started_ns = first_of c.fixture_handoff_started_ns now;
      states = if known then c.states else c.states ++ (stimulus_started ∷ []);
      last_transition_ns = if known then c.last_transition_ns else now;
    }

abbrev pub handoff_rows : Option ℕ → Bool → List Event
handoff_rows (some at) false =
    entered stimulus_started at ∷ first_active_chunk_handoff_started at ∷ []
handoff_rows _ _ = []

unfoldable pub persist_fixture_handoff_started : ProbeController → ProbeController
persist_fixture_handoff_started c = record c {
  fixture_handoff_start_persisted =
      not (is_none c.fixture_handoff_started_ns) || c.fixture_handoff_start_persisted;
  events = c.events ++ handoff_rows c.fixture_handoff_started_ns c.fixture_handoff_start_persisted;
}

unfoldable pub mark_fixture_handoff_completed : ℕ → ProbeController → ProbeController
unfolding persist_fixture_handoff_started
mark_fixture_handoff_completed now c =
    let d = persist_fixture_handoff_started c in
    record d {
      fixture_handoff_completed_ns = some now;
      events = d.events ++ (response_completed now ∷ []);
    }

unfoldable pub mark_fixture_handoff_failed : ℕ → ProbeController → ProbeController
unfolding persist_fixture_handoff_started
mark_fixture_handoff_failed now c =
    let d = persist_fixture_handoff_started c in
    record d { fixture_handoff_failed = true; events = d.events ++ (response_failed now ∷ []) }
