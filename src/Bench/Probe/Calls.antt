-- ===== src/Bench/Probe/Calls.antt =====
-- bench/acoustic_probe.py: the webhooks of a run and the commands that they lead to. Each function is a
-- stretch up to its next await; Schedule runs them in any order.
use telnyx_onset.Prelude.{
  ℕ, zero, suc, Bool, true, false, not, ◌||◌, ◌&&◌, Option, none, some, List, [], ◌∷◌, ◌++◌, leb,
  if◌then◌else◌, length, is_empty, Text, codes, text_eq,
}
use telnyx_onset.Json.{Json, object, text, Fields, empty_object, get, get_or, as_object, as_text}
use telnyx_onset.Bench.Tokens.{
  StreamRole, probe, agent, monitor, keeper, same_role, Checked, ok, raised, issue,
}
use telnyx_onset.Bench.Probe.{
  leg_a_identified, leg_b_identified, legs_answered, bridged, stream_authorized, capture_completed,
  seen, contains, Command, answer, hangup, bridge, streaming_start, legs_bridged, ProbeController,
  transition, fail,
}

-- What a coroutine waits for: the answer to a command, or those to all hangups.
pub data Task : Type 0 where
  awaits_dial awaits_answer awaits_bridge awaits_hangups : Task
  awaits_stream : StreamRole → Task

pub data Next : Type 0 where
  finished raises : Next
  waits : Task → Next

-- How an await ends: with a value (that of `dial` is the new leg), with an exception, or out of time.
pub data Reply : Type 0 where
  replied : Text → Reply
  refused timed_out : Reply

abbrev pub started : StreamRole → List StreamRole → Bool
started role [] = false
started role (x ∷ xs) = same_role x role || started role xs

abbrev pub send : Command → ProbeController → ProbeController
send command c = record c { commands = command ∷ c.commands }

-- A leg that is true in Python.
abbrev pub present : Option Text → Option Text
present none = none
present (some []) = none
present (some (x ∷ xs)) = some (x ∷ xs)

abbrev pub is_leg : Text → Option Text → Bool
is_leg id none = false
is_leg id (some leg) = text_eq leg id

abbrev pub with_token : Text → StreamRole → ProbeController → Checked Text → ProbeController × Next
with_token ccid role c (ok token) =
    (send (streaming_start ccid role token) c, waits (awaits_stream role))
with_token ccid role c (raised e) = (c, raises)

-- The role is marked as started, and the command is sent if a token is to be had.
unfoldable pub start_stream :
    Text → Text → StreamRole → ℕ → ProbeController → ProbeController × Next
start_stream token ccid role now c =
    let (tokens, issued) = issue token c.run_id ccid role now c.tokens in
    with_token ccid role (record c { streams_started = role ∷ c.streams_started; tokens = tokens })
      issued

unfoldable pub start_keeper : Option Text → Text → ℕ → ProbeController → ProbeController × Next
unfolding start_stream
start_keeper none token now c = (c, finished)
start_keeper (some a) token now c =
    if c.config.probe_receive_only && not (started keeper c.streams_started)
    then start_stream token a keeper now c
    else (c, finished)

unfoldable pub start_monitor : Option Text → Text → ℕ → ProbeController → ProbeController × Next
unfolding start_stream start_keeper
start_monitor none token now c = start_keeper (present c.leg_a) token now c
start_monitor (some b) token now c =
    if c.config.probe_receive_only && not (started monitor c.streams_started)
    then start_stream token b monitor now c
    else start_keeper (present c.leg_a) token now c

unfoldable pub start_probe : Option Text → Text → ℕ → ProbeController → ProbeController × Next
unfolding start_stream start_monitor
start_probe none token now c = start_monitor (present c.leg_b) token now c
start_probe (some a) token now c =
    if started probe c.streams_started
    then start_monitor (present c.leg_b) token now c
    else start_stream token a probe now c

-- Both legs, when they are known.
unfoldable pub bridge_legs :
    Option Text → Option Text → ℕ → ProbeController → ProbeController × Next
unfolding transition
bridge_legs (some a) (some b) now c =
    let t = transition legs_answered now c in
    if not (contains a c.answered && contains b c.answered)
    then (c, finished)
    else if t.bridge_sent
    then (t, finished)
    else (send (bridge a b) (record t { bridge_sent = true }), waits awaits_bridge)
bridge_legs (some a) none now c = (c, finished)
bridge_legs none b now c = (c, finished)

unfoldable pub on_initiated : Fields → Text → ℕ → ProbeController → ProbeController × Next
unfolding transition
on_initiated payload ccid now c =
    let is_text = λ (key value : Text). is_leg value (as_text (get key payload)) in
    let new = transition leg_b_identified now (record c { leg_b = some ccid }) in
    let other : Bool = elim c.leg_b [ none ↦ false | some b ↦ not (text_eq b ccid) ] in
    if is_text (codes "direction") (codes "incoming")
      && is_text (codes "from") c.config.harness_number
      && is_text (codes "to") c.config.agent_number
      && not other
    then (send (answer ccid) new, waits awaits_answer)
    else (c, finished)

unfoldable pub on_answered : Text → Text → ℕ → ProbeController → ProbeController × Next
unfolding start_stream bridge_legs
on_answered token ccid now c =
    let d = record c { answered = ccid ∷ c.answered } in
    if is_leg ccid c.leg_b && not (started agent c.streams_started)
    then start_stream token ccid agent now d
    else bridge_legs (present c.leg_a) (present c.leg_b) now d

unfoldable pub mark_bridged : ℕ → ProbeController → ProbeController
unfolding transition
mark_bridged now c =
    let known = seen bridged c.states in
    let t = transition bridged now c in
    record t {
      bridge_ready = if known then c.bridge_ready else true;
      events = if known then c.events else t.events ++ (legs_bridged now ∷ []);
    }

unfoldable pub on_bridged : Text → ℕ → ProbeController → ProbeController × Next
unfolding mark_bridged start_probe
on_bridged token now c = start_probe (present c.leg_a) token now (mark_bridged now c)

abbrev pub caller_of : Fields → Text
caller_of payload = elim (as_text (get (codes "call_control_id") payload)) [
  | none ↦ []
  | some t ↦ t
]

unfoldable pub dispatch : Text → Text → Fields → ℕ → ProbeController → ProbeController × Next
unfolding on_initiated on_answered on_bridged fail
dispatch token event_type payload now c =
    let ccid = caller_of payload in
    let ours = is_leg ccid c.leg_a || is_leg ccid c.leg_b in
    if text_eq event_type (codes "call.initiated")
    then on_initiated payload ccid now c
    else if text_eq event_type (codes "call.answered") && ours
    then on_answered token ccid now c
    else if text_eq event_type (codes "call.bridged") && ours
    then on_bridged token now c
    else if text_eq event_type (codes "call.hangup")
        && ours
        && not (seen capture_completed c.states)
    then (fail (codes "call_hangup") now c, finished)
    else (c, finished)

-- What follows the start of a stream in the coroutine that made it.
unfoldable pub after_stream : StreamRole → Text → ℕ → ProbeController → ProbeController × Next
unfolding bridge_legs start_monitor start_keeper
after_stream agent token now c = bridge_legs (present c.leg_a) (present c.leg_b) now c
after_stream probe token now c = start_monitor (present c.leg_b) token now c
after_stream monitor token now c = start_keeper (present c.leg_a) token now c
after_stream keeper token now c = (c, finished)

abbrev pub is_reply : Reply → Bool
is_reply (replied _) = true
is_reply _ = false

abbrev pub torn_down : Reply → ℕ → ProbeController → ProbeController
torn_down (replied _) now c = record c { teardown_result = codes "both_legs_hung_up" }
torn_down refused now c = record c { teardown_result = codes "hangup_failed" }
torn_down timed_out now c =
    fail (codes "teardown_timeout") now (record c { teardown_result = codes "teardown_timeout" })

unfoldable pub resume : Reply → Text → ℕ → Task → ProbeController → ProbeController × Next
unfolding transition fail after_stream
resume (replied leg) token now awaits_dial c =
    (transition leg_a_identified now (record c { leg_a = some leg }), finished)
resume _ token now awaits_dial c = (fail (codes "dial_failed") now c, finished)
resume reply token now awaits_answer c = (c, if is_reply reply then finished else raises)
resume reply token now awaits_bridge c =
    if is_reply reply then (c, finished) else (fail (codes "bridge_failed") now c, raises)
resume reply token now (awaits_stream role) c =
    if is_reply reply
    then after_stream role token now (transition stream_authorized now c)
    else (fail (codes "stream_start_failed") now c, raises)
resume reply token now awaits_hangups c = (torn_down reply now c, finished)

abbrev pub hangup_of : Option Text → List Command
hangup_of none = []
hangup_of (some leg) = hangup leg ∷ []

-- The task of the hangups is made at most once; it ends at once when no leg is known.
unfoldable pub hangup_both : ProbeController → ProbeController × Next
hangup_both c =
    let asked = hangup_of (present c.leg_b) ++ hangup_of (present c.leg_a) in
    if c.hangup_started then (c, finished) else elim asked [
      | [] ↦ (
        record c { hangup_started = true; teardown_result = codes "no_identified_legs" },
        finished,
      )
      | x ∷ xs ↦ (
        record c { hangup_started = true; commands = (x ∷ xs) ++ c.commands },
        waits awaits_hangups,
      )
    ]

-- `set.pop` takes any element: the one at a place.
abbrev pub without : ℕ → List Text → List Text
without i [] = []
without zero (x ∷ xs) = xs
without (suc i) (x ∷ xs) = x ∷ without i xs

unfoldable pub webhook_is_new : ℕ → Text → ProbeController → ProbeController × Bool
webhook_is_new place event_id c =
    let kept =
      if leb 1024 (length c.seen_webhooks)
      then without place c.seen_webhooks
      else c.seen_webhooks in
    if is_empty event_id || contains event_id c.seen_webhooks
    then (c, false)
    else (record c { seen_webhooks = event_id ∷ kept }, true)

infixl 5 ◌>>=◌
abbrev ◌>>=◌ {ℓ κ} : {A : Type ℓ} {B : Type κ} → Option A → (A → Option B) → Option B
none >>= f = none
some a >>= f = f a

-- The id, the type and the payload in the parsed body; `none` where the answer is 200 with nothing done.
unfoldable pub parse_hook : Json → Option (Text × Text × Fields)
parse_hook body = do
  fields ← as_object body
  hook ← as_object (get_or (object empty_object) (codes "data") fields)
  event_id ← as_text (get_or (text []) (codes "id") hook)
  event_type ← as_text (get_or (text []) (codes "event_type") hook)
  payload ← as_object (get_or (object empty_object) (codes "payload") hook)
  some (event_id, event_type, payload)
