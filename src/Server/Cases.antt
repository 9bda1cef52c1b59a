-- ===== src/Server/Cases.antt =====
-- The ways that the stretches of onset/server.py's media sockets go.
use telnyx_onset.Prelude.{
  ◌≡◌, refl, sym, Bool, true, false, not, ◌&&◌, if◌then◌else◌, Text, text_eq, if-cases,
}
use telnyx_onset.Agent.{Agent}
use telnyx_onset.Agent.Others.{other}
use telnyx_onset.Limits.{try_acquire}
use telnyx_onset.Server.{App}
use telnyx_onset.Media.Inbound.{InboundEvent}
use telnyx_onset.Server.Socket.{
  Route, Phase, reading, rejecting, winding_down, closing, done, Outside, finish, leave_loop,
  drop_agent, open_call, on_start, claim, reject, on_event, with_agent, Step, receives, breaks,
  hung_up, run_ended, media_closed, works, at_phase, step,
}

not-false : (b : Bool) → not b ≡ false → b ≡ true
not-false true e = refl
not-false false e = sym e

-- The ways that a start event goes.
pub on_start-cases :
    (P : App × Route → Type 0) (out : Outside) (id : Text) (app : App) (r : Route)
    → P (leave_loop app r)
    → P (reject r.call_control_id app r)
    → P (reject id app (record r { call_control_id = id }))
    → (text_eq id r.expected_ccid ≡ true
        → (try_acquire app.limiter).1 ≡ true
        → P (
            open_call out.built
              (claim (record app { limiter = (try_acquire app.limiter).0 }))
              (record r { call_control_id = id; acquired = true })))
    → P (on_start out id app r)
unfolding on_start
on_start-cases P out id app r left second full taken =
    let named = record r { call_control_id = id } in
    let held_slot = try_acquire app.limiter in
    let opened =
      open_call out.built (claim (record app { limiter = held_slot.0 }))
        (record named { acquired = true }) in
    let benchmark = app.settings.has_benchmark_profile && app.benchmark_call_claimed in
    let inner = if not held_slot.1 then reject id app named else opened in
    let middle = if benchmark then reject r.call_control_id app r else inner in
    if-cases P (not (text_eq id r.expected_ccid)) (leave_loop app r) middle (λ t. left)
      (λ m.
        if-cases P benchmark (reject r.call_control_id app r) inner (λ t. second)
          (λ b.
            if-cases P (not held_slot.1) (reject id app named) opened (λ t. full)
              (λ f. taken (not-false (text_eq id r.expected_ccid) m) (not-false held_slot.1 f))))

abbrev pub is_done : Phase → Bool
is_done done = true
is_done _ = false

-- What holds of a route that stays, hears an event, leaves its loop, drops its agent, ends, or whose agent
-- works, holds behind every step.
module _ (P : App × Route → Type 0) (app : App) (r : Route) (stay : P (app, r))
    (hears : (out : Outside) (e : InboundEvent) → r.phase ≡ reading → P (on_event out e app r))
    (leaves : is_done r.phase ≡ false → P (leave_loop app r))
    (drops : r.phase ≡ winding_down → P (drop_agent app r))
    (ends : r.phase ≡ closing → P (finish app r))
    (worked : (f : Agent → Agent) → P (with_agent f app r)) where
  at_phase-cases : (p : Phase) (s : Step) → r.phase ≡ p → P (at_phase p s app r)
  at_phase-cases reading (receives out e) q = hears out e q
  at_phase-cases reading breaks q = leaves (rw q refl)
  at_phase-cases reading hung_up q = stay
  at_phase-cases reading run_ended q = stay
  at_phase-cases reading media_closed q = stay
  at_phase-cases reading (works o) q = stay
  at_phase-cases rejecting (receives out e) q = stay
  at_phase-cases rejecting breaks q = stay
  at_phase-cases rejecting hung_up q = leaves (rw q refl)
  at_phase-cases rejecting run_ended q = stay
  at_phase-cases rejecting media_closed q = stay
  at_phase-cases rejecting (works o) q = stay
  at_phase-cases winding_down (receives out e) q = stay
  at_phase-cases winding_down breaks q = stay
  at_phase-cases winding_down hung_up q = stay
  at_phase-cases winding_down run_ended q = drops q
  at_phase-cases winding_down media_closed q = stay
  at_phase-cases winding_down (works o) q = stay
  at_phase-cases closing (receives out e) q = stay
  at_phase-cases closing breaks q = stay
  at_phase-cases closing hung_up q = stay
  at_phase-cases closing run_ended q = stay
  at_phase-cases closing media_closed q = ends q
  at_phase-cases closing (works o) q = stay
  at_phase-cases done (receives out e) q = stay
  at_phase-cases done breaks q = stay
  at_phase-cases done hung_up q = stay
  at_phase-cases done run_ended q = stay
  at_phase-cases done media_closed q = stay
  at_phase-cases done (works o) q = stay

  pub step-cases : (s : Step) → P (step s app r)
  unfolding step
  step-cases (works o) = worked (other o)
  step-cases (receives out e) = at_phase-cases r.phase (receives out e) refl
  step-cases breaks = at_phase-cases r.phase breaks refl
  step-cases hung_up = at_phase-cases r.phase hung_up refl
  step-cases run_ended = at_phase-cases r.phase run_ended refl
  step-cases media_closed = at_phase-cases r.phase media_closed refl
