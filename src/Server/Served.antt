-- ===== src/Server/Served.antt =====
-- What a stretch of a media socket of onset/server.py does to the call that it serves.
use telnyx_onset.Prelude.{
  ◌≡◌, refl, sym, subst, ◌⊎◌, inl, inr, Bool, true, false, ◌||◌, Option, none, some, List, [], ◌∷◌,
  arith, Text, text_eq, if-cases, Option-cases,
}
use telnyx_onset.Agent.{Agent, submit_hangup}
use telnyx_onset.Limits.{try_acquire, release}
use telnyx_onset.Server.{App, Command, answer, hang_up, start_streaming, remove_key}
use telnyx_onset.Server.Cases.{on_start-cases, step-cases}
use telnyx_onset.Media.Inbound.{InboundEvent, connected, start, media, mark, stop, dtmf, ignore}
use telnyx_onset.Server.Socket.{
  Route, winding_down, closing, done, Outside, finish, close_media, leave_loop, drop_agent,
  open_call, on_start, claim, on_event, with_agent, is_none, Step, step,
}

-- Whether a stream was asked for, for a call.
abbrev pub asked : Text → List Command → Bool
asked id [] = false
asked id (start_streaming x url ∷ cs) = text_eq x id || asked id cs
asked id (answer x ∷ cs) = asked id cs
asked id (hang_up x ∷ cs) = asked id cs

-- An agent works for the call of the route's token only.
abbrev pub right_call : Route → Bool
right_call r = is_none r.agent || text_eq r.call_control_id r.expected_ccid

pub record Goes (app : App) (r : Route) (x : App × Route) : Type 0 where
  pub tokens : x.0.stream_tokens ≡ app.stream_tokens
  pub expected : x.1.expected_ccid ≡ r.expected_ccid
  pub kept : (id : Text) → asked id app.commands ≡ true → asked id x.0.commands ≡ true
  pub right : right_call x.1 ≡ true

stays : (app : App) (r : Route) → right_call r ≡ true → Goes app r (app, r)
stays app r h = record { tokens = refl; expected = refl; kept = λ id e. e; right = h }

finish-Goes : (app : App) (r : Route) → right_call r ≡ true → Goes app r (finish app r)
unfolding finish
finish-Goes app r h =
    if-cases (λ x. Goes app r (x, record r { phase = done })) r.acquired
      (record app { limiter = release app.limiter }) app
      (λ t. record { tokens = refl; expected = refl; kept = λ id e. e; right = h })
      (λ t. record { tokens = refl; expected = refl; kept = λ id e. e; right = h })

close_media-Goes : (app : App) (r : Route) → right_call r ≡ true → Goes app r (close_media app r)
unfolding close_media
close_media-Goes app r h =
    if-cases (Goes app r) r.media (app, record r { phase = closing }) (finish app r)
      (λ t. record { tokens = refl; expected = refl; kept = λ id e. e; right = h })
      (λ t. finish-Goes app r h)

leave_loop-Goes : (app : App) (r : Route) → right_call r ≡ true → Goes app r (leave_loop app r)
unfolding leave_loop
leave_loop-Goes app r h = go (Option-cases r.agent)
  where
    out : Option Agent → App × Route
    out o = elim o [
      | none ↦ close_media app r
      | some a ↦ (app, record r { agent = some (submit_hangup a); phase = winding_down })
    ]

    go : (r.agent ≡ none) ⊎ ((a : Agent) × (r.agent ≡ some a)) → Goes app r (out r.agent)
    go (inl e) = subst (λ o. Goes app r (out o)) (sym e) (close_media-Goes app r h)
    go (inr (a, e)) =
        subst (λ o. Goes app r (out o)) (sym e)
          (record { tokens = refl; expected = refl; kept = λ id e. e; right = ground arith })

with_agent-Goes :
    (f : Agent → Agent) (app : App) (r : Route)
    → right_call r ≡ true
    → Goes app r (with_agent f app r)
with_agent-Goes f app r h = go (Option-cases r.agent)
  where
    out : Option Agent → App × Route
    out o = elim o [ none ↦ (app, r) | some a ↦ (app, record r { agent = some (f a) }) ]

    go : (r.agent ≡ none) ⊎ ((a : Agent) × (r.agent ≡ some a)) → Goes app r (out r.agent)
    go (inl e) = subst (λ o. Goes app r (out o)) (sym e) (stays app r h)
    go (inr (a, e)) =
        subst (λ o. Goes app r (out o)) (sym e)
          (record { tokens = refl; expected = refl; kept = λ id e. e; right = ground arith })

drop_agent-Goes : (app : App) (r : Route) → right_call r ≡ true → Goes app r (drop_agent app r)
unfolding drop_agent
drop_agent-Goes app r h =
    let b = record app { agents = remove_key r.call_control_id app.agents } in
    let g = close_media-Goes b r h in
    record { tokens = g.tokens; expected = g.expected; kept = g.kept; right = g.right }

open_call-Goes :
    (built : Option Agent) (app : App) (r : Route)
    → text_eq r.call_control_id r.expected_ccid ≡ true
    → Goes app r (open_call built app r)
unfolding open_call
open_call-Goes none app r e =
    let b = record r { media = true } in
    let g = leave_loop-Goes app b (let q : right_call b ≡ true = ground arith in q) in
    record { tokens = g.tokens; expected = g.expected; kept = g.kept; right = g.right }
open_call-Goes (some a) app r e = record {
  tokens = refl;
  expected = refl;
  kept = λ id e. e;
  right = e;
}

on_start-Goes :
    (out : Outside) (id : Text) (app : App) (r : Route)
    → r.agent ≡ none
    → Goes app r (on_start out id app r)
on_start-Goes out id app r n =
    let idle : is_none r.agent ≡ true = rw n refl in
    on_start-cases (Goes app r) out id app r (leave_loop-Goes app r (ground arith))
      (record { tokens = refl; expected = refl; kept = λ id e. e; right = ground arith })
      (record { tokens = refl; expected = refl; kept = λ id e. e; right = ground arith })
      (λ m t.
        let g =
          open_call-Goes out.built (claim (record app { limiter = (try_acquire app.limiter).0 }))
            (record r { call_control_id = id; acquired = true }) m in
        record { tokens = g.tokens; expected = g.expected; kept = g.kept; right = g.right })

is_none→none : (o : Option Agent) → is_none o ≡ true → o ≡ none
is_none→none none e = refl
is_none→none (some a) e = cc

on_event-Goes :
    (out : Outside) (e : InboundEvent) (app : App) (r : Route)
    → right_call r ≡ true
    → Goes app r (on_event out e app r)
unfolding on_event
on_event-Goes out (start id from_number stream_id) app r h =
    if-cases (Goes app r) (is_none r.agent) (on_start out id app r) (app, r)
      (λ t. on_start-Goes out id app r (is_none→none r.agent t)) (λ t. stays app r h)
on_event-Goes out (media pcm16) app r h = with_agent-Goes _ app r h
on_event-Goes out (mark name) app r h = with_agent-Goes _ app r h
on_event-Goes out stop app r h = leave_loop-Goes app r h
on_event-Goes out (connected version) app r h = stays app r h
on_event-Goes out (dtmf digit) app r h = stays app r h
on_event-Goes out (ignore reason) app r h = stays app r h

pub step-Goes : (x : Step) (app : App) (r : Route) → right_call r ≡ true → Goes app r (step x app r)
step-Goes x app r h =
    step-cases (Goes app r) app r (stays app r h) (λ out e q. on_event-Goes out e app r h)
      (λ e. leave_loop-Goes app r h) (λ q. drop_agent-Goes app r h) (λ q. finish-Goes app r h)
      (λ f. with_agent-Goes f app r h) x
