-- ===== src/Server/Socket.antt =====
-- onset/server.py: the media sockets of all calls. A socket's route is a task of the event loop: each
-- function below is a stretch of one route up to its next await, and `run` runs the stretches of all
-- routes and the webhooks in any order.
use telnyx_onset.Prelude.{
  ℕ, zero, suc, Bool, true, false, not, ◌||◌, ◌&&◌, Option, none, some, List, [], ◌∷◌, ◌++◌,
  if◌then◌else◌, length, is_empty, Text, text_eq,
}
use telnyx_onset.Audio.{Bytes}
use telnyx_onset.Limits.{try_acquire, release}
use telnyx_onset.Agent.{Agent, handle_audio, submit_speak_ended, submit_hangup}
use telnyx_onset.Agent.Others.{Other, other}
use telnyx_onset.Media.Inbound.{InboundEvent, connected, start, media, mark, stop, dtmf, ignore}
use telnyx_onset.Server.{
  App, Webhook, dispatch, hang_up, send_command, set_key, remove_key, get_key,
  parse_speak_generation,
}

-- Where a route stands: in `receive_text`, in the hangup of a rejected call, in the `finally` waiting for
-- the run task, there waiting for the media stream to close, or behind the release of the slot.
pub data Phase : Type 0 where
  reading rejecting winding_down closing done : Phase

-- The local variables of a route. `number` tells the sockets apart; `media` that there is a stream.
pub record Route : Type 0 where
  pub number : ℕ
  pub expected_ccid : Text
  pub agent : Option Agent
  pub media : Bool
  pub call_control_id : Text
  pub acquired : Bool
  pub phase : Phase

-- What a stretch takes from outside: the agent that the constructor builds, if it does not raise, and
-- what `handle_audio` and `int` read.
pub record Outside : Type 0 where
  pub built : Option Agent
  pub profile : Option (Bytes → Bool)
  pub detect : Bytes → Bool
  pub now : ℕ
  pub digit : ℕ → Option ℕ

-- The end of the `finally`.
unfoldable pub finish : App → Route → App × Route
unfolding release
finish app r = (
  if r.acquired then record app { limiter = release app.limiter } else app,
  record r { phase = done },
)

unfoldable pub close_media : App → Route → App × Route
unfolding finish
close_media app r = if r.media then (app, record r { phase = closing }) else finish app r

-- The start of the `finally`.
unfoldable pub leave_loop : App → Route → App × Route
unfolding close_media submit_hangup
leave_loop app r = elim r.agent [
  | none ↦ close_media app r
  | some a ↦ (app, record r { agent = some (submit_hangup a); phase = winding_down })
]

-- Behind the wait for the run task.
unfoldable pub drop_agent : App → Route → App × Route
unfolding close_media
drop_agent app r = close_media (record app { agents = remove_key r.call_control_id app.agents }) r

-- Behind the acquired slot: the media stream and the agent.
unfoldable pub open_call : Option Agent → App → Route → App × Route
unfolding leave_loop
open_call none app r = leave_loop app (record r { media = true })
open_call (some a) app r = (
  record app { agents = set_key r.call_control_id r.number app.agents },
  record r { media = true; agent = some a },
)

abbrev pub claim : App → App
claim app = record app {
  benchmark_call_claimed = app.settings.has_benchmark_profile || app.benchmark_call_claimed;
}

abbrev pub reject : Text → App → Route → App × Route
reject id app r = (send_command (hang_up id) app, record r { phase = rejecting })

-- A `start` event on a socket that has no agent yet.
unfoldable pub on_start : Outside → Text → App → Route → App × Route
unfolding leave_loop open_call try_acquire
on_start out call_control_id app r =
    let (limiter, acquired) = try_acquire app.limiter in
    let named = record r { call_control_id = call_control_id } in
    let taken = claim (record app { limiter = limiter }) in
    if not (text_eq call_control_id r.expected_ccid)
    then leave_loop app r
    else if app.settings.has_benchmark_profile && app.benchmark_call_claimed
    then reject r.call_control_id app r
    else if not acquired
    then reject call_control_id app named
    else open_call out.built taken (record named { acquired = true })

abbrev pub with_agent : (Agent → Agent) → App → Route → App × Route
with_agent f app r = elim r.agent [
  | none ↦ (app, r)
  | some a ↦ (app, record r { agent = some (f a) })
]

abbrev pub is_none {ℓ} : {A : Type ℓ} → Option A → Bool
is_none none = true
is_none (some _) = false

unfoldable pub on_event : Outside → InboundEvent → App → Route → App × Route
unfolding on_start leave_loop handle_audio submit_speak_ended parse_speak_generation
on_event out (start id from_number stream_id) app r =
    if is_none r.agent then on_start out id app r else (app, r)
on_event out (media pcm16) app r =
    with_agent (λ a. handle_audio out.profile out.detect out.now pcm16 a) app r
on_event out (mark name) app r =
    with_agent (λ a. submit_speak_ended (parse_speak_generation out.digit name) a) app r
on_event out stop app r = leave_loop app r
on_event out (connected version) app r = (app, r)
on_event out (dtmf digit) app r = (app, r)
on_event out (ignore reason) app r = (app, r)

-- The stretches of one route: the loop receives an event, or ends by a disconnection or by another
-- exception, also one of `decode`; an await of a hangup, of the run task or of the media stream is over; or, between two of
-- these, a task of the agent works.
pub data Step : Type 0 where
  receives : Outside → InboundEvent → Step
  breaks hung_up run_ended media_closed : Step
  works : Other → Step

abbrev pub at_phase : Phase → Step → App → Route → App × Route
at_phase reading (receives out e) app r = on_event out e app r
at_phase reading breaks app r = leave_loop app r
at_phase rejecting hung_up app r = leave_loop app r
at_phase winding_down run_ended app r = drop_agent app r
at_phase closing media_closed app r = finish app r
at_phase _ _ app r = (app, r)

unfoldable pub step : Step → App → Route → App × Route
unfolding on_event leave_loop drop_agent finish other
step (works o) app r = with_agent (other o) app r
step s app r = at_phase r.phase s app r

-- A step of the route at a place in the list of all routes.
unfoldable pub step_at : ℕ → Step → App → List Route → App × List Route
unfolding step
step_at n s app [] = (app, [])
step_at zero s app (r ∷ rs) = let (app', r') = step s app r in (app', r' ∷ rs)
step_at (suc n) s app (r ∷ rs) = let (app', rs') = step_at n s app rs in (app', r ∷ rs')

-- A socket that presents a token, up to `receive_text`; without a known token no route stays.
unfoldable pub connect : Text → App → List Route → App × List Route
connect token app rs = elim (if is_empty token then none else get_key token app.stream_tokens) [
  | none ↦ (app, rs)
  | some id ↦ (
    record app { stream_tokens = remove_key token app.stream_tokens },
    rs
        ++ (record {
          number = length rs;
          expected_ccid = id;
          agent = none;
          media = false;
          call_control_id = [];
          acquired = false;
          phase = reading;
        }
            ∷ []),
  )
]

pub data Action : Type 0 where
  hook : Text → Bool → Webhook → Action
  connects : Text → Action
  steps : ℕ → Step → Action

unfoldable pub apply : Action → App → List Route → App × List Route
unfolding dispatch connect step_at
apply (hook token accepted w) app rs = (dispatch token accepted w app, rs)
apply (connects token) app rs = connect token app rs
apply (steps n s) app rs = step_at n s app rs

unfoldable pub run : List Action → App → List Route → App × List Route
unfolding apply
run [] app rs = (app, rs)
run (x ∷ xs) app rs = let (app', rs') = apply x app rs in run xs app' rs'
