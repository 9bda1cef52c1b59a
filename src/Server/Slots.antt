-- ===== src/Server/Slots.antt =====
-- The slots of the limiter that the media sockets of onset/server.py hold.
use telnyx_onset.Prelude.{
  ℕ, zero, suc, ◌+◌, ◌≤◌, ◌≡◌, ◌≢◌, ◌⊎◌, refl, sym, ap, ◌∙◌, subst, inl, inr, Bool, true, false,
  not, ◌&&◌, Option, none, some, Option-cases, List, [], ◌∷◌, ◌++◌, if◌then◌else◌, All, All-append,
  arith, length, Text, if-cases, is_empty,
}
use telnyx_onset.Agent.{Agent, submit_hangup}
use telnyx_onset.Limits.{CallLimiter, try_acquire, release, new_limiter}
use telnyx_onset.Limits.Calls.{WithinCap}
use telnyx_onset.Server.{
  App, Settings, Webhook, new_app, dispatch, on_initiated, on_answered, mint_stream_url, get_key,
  remove_key,
}
use telnyx_onset.Server.Cases.{is_done, on_start-cases, step-cases}
use telnyx_onset.Media.Inbound.{InboundEvent, connected, start, media, mark, stop, dtmf, ignore}
use telnyx_onset.Server.Socket.{
  Route, Phase, reading, winding_down, closing, done, Outside, finish, close_media, leave_loop,
  drop_agent, open_call, on_start, claim, on_event, with_agent, is_none, Step, step, step_at,
  connect, Action, hook, connects, steps, run,
}

abbrev pub held : Route → ℕ
held r = if r.acquired then 1 else 0

-- A slot is given back on the way to `done`.
abbrev pub slot : Route → ℕ
slot r = elim r.phase [ done ↦ 0 | _ ↦ held r ]

abbrev pub slots : List Route → ℕ
slots [] = 0
slots (r ∷ rs) = slot r + slots rs

abbrev is_reading : Phase → Bool
is_reading reading = true
is_reading _ = false

-- A route that still waits for its start event holds no slot.
abbrev fresh : Route → Bool
fresh r = not (is_reading r.phase && is_none r.agent && r.acquired)

module _ (m : ℕ) where
  abbrev Limited : App → Type 0
  Limited app = app.limiter.max_concurrent ≡ m

  -- The slots of the others are `n`.
  record Tally (n : ℕ) (app : App) (r : Route) : Type 0 where
    active : app.limiter.active ≡ n + slot r
    cap : WithinCap app.limiter
    limit : Limited app
    is_fresh : fresh r ≡ true

  record Held (n : ℕ) (app : App) (r : Route) : Type 0 where
    active : app.limiter.active ≡ n + held r
    cap : WithinCap app.limiter
    limit : Limited app

  finish-Tally :
      (n : ℕ) (app : App) (r : Route) → Held n app r → Tally n (finish app r).0 (finish app r).1
  unfolding finish release
  finish-Tally n app r h = let a = h.active in let c = h.cap in let l = h.limit in ground arith

  close_media-Tally :
      (n : ℕ) (app : App) (r : Route)
      → Held n app r
      → Tally n (close_media app r).0 (close_media app r).1
  unfolding close_media
  close_media-Tally n app r h = go r.media
    where
      go :
          (m : Bool)
          → let x = (if m then (app, record r { phase = closing }) else finish app r) in
            Tally n x.0 x.1
      go true = record { active = h.active; cap = h.cap; limit = h.limit; is_fresh = refl }
      go false = finish-Tally n app r h

  leave_loop-Tally :
      (n : ℕ) (app : App) (r : Route)
      → Held n app r
      → Tally n (leave_loop app r).0 (leave_loop app r).1
  unfolding leave_loop
  leave_loop-Tally n app r h = go r.agent
    where
      go :
          (o : Option Agent)
          → let x : App × Route = (elim o [
            | none ↦ close_media app r
            | some a ↦ (app, record r { agent = some (submit_hangup a); phase = winding_down })
          ]) in
            Tally n x.0 x.1
      go none = close_media-Tally n app r h
      go (some a) = record { active = h.active; cap = h.cap; limit = h.limit; is_fresh = refl }

  drop_agent-Tally :
      (n : ℕ) (app : App) (r : Route)
      → Held n app r
      → Tally n (drop_agent app r).0 (drop_agent app r).1
  unfolding drop_agent
  drop_agent-Tally n app r h =
      close_media-Tally n _ r (record { active = h.active; cap = h.cap; limit = h.limit })

  open_call-Tally :
      (n : ℕ) (built : Option Agent) (app : App) (r : Route)
      → r.phase ≡ reading
      → Held n app r
      → Tally n (open_call built app r).0 (open_call built app r).1
  unfolding open_call
  open_call-Tally n none app r e h =
      leave_loop-Tally n app (record r { media = true })
        (record { active = h.active; cap = h.cap; limit = h.limit })
  open_call-Tally n (some a) app r e h =
      let active = h.active in
      record { active = rw e active; cap = h.cap; limit = h.limit; is_fresh = rw e refl }

  try_acquire-Held :
      (n : ℕ) (app : App) (r : Route)
      → r.acquired ≡ false
      → Held n app r
      → (try_acquire app.limiter).1 ≡ true
      → Held n (record app { limiter = (try_acquire app.limiter).0 }) (record r { acquired = true })
  unfolding try_acquire
  try_acquire-Held n app r e h t =
      let a = h.active in let c = h.cap in let l = h.limit in ground arith

  -- The route may change in what no slot depends on.
  keep-Tally :
      (n : ℕ) (app b : App) (r r' : Route)
      → b.limiter ≡ app.limiter
      → slot r' ≡ slot r
      → fresh r' ≡ true
      → Tally n app r
      → Tally n b r'
  keep-Tally n app b r r' l s f h = record {
    active = ap (λ (x : CallLimiter). x.active) l ∙ h.active ∙ ap (λ x. n + x) (sym s);
    cap = subst WithinCap (sym l) h.cap;
    limit = ap (λ (x : CallLimiter). x.max_concurrent) l ∙ h.limit;
    is_fresh = f;
  }

  on_start-Tally :
      (n : ℕ) (out : Outside) (id : Text) (app : App) (r : Route)
      → r.phase ≡ reading
      → r.acquired ≡ false
      → Held n app r
      → Tally n (on_start out id app r).0 (on_start out id app r).1
  on_start-Tally n out id app r p q h =
      on_start-cases (λ x. Tally n x.0 x.1) out id app r (leave_loop-Tally n app r h)
        (record { active = h.active; cap = h.cap; limit = h.limit; is_fresh = refl })
        (record { active = h.active; cap = h.cap; limit = h.limit; is_fresh = refl })
        (λ m t.
          let k = try_acquire-Held n app r q h t in
          open_call-Tally n out.built (claim (record app { limiter = (try_acquire app.limiter).0 }))
            (record r { call_control_id = id; acquired = true }) p
            (record { active = k.active; cap = k.cap; limit = k.limit }))

  with_agent-Tally :
      (n : ℕ) (f : Agent → Agent) (app : App) (r : Route)
      → Tally n app r
      → Tally n (with_agent f app r).0 (with_agent f app r).1
  with_agent-Tally n f app r h = go (Option-cases r.agent)
    where
      go :
          (r.agent ≡ none) ⊎ ((a : Agent) × (r.agent ≡ some a))
          → Tally n (with_agent f app r).0 (with_agent f app r).1
      go (inl e) =
          subst
            (λ o.
              let x : App × Route = (elim o [
                | none ↦ (app, r)
                | some a ↦ (app, record r { agent = some (f a) })
              ]) in
              Tally n x.0 x.1)
            (sym e) h
      go (inr (a, e)) =
          subst
            (λ o.
              let x : App × Route = (elim o [
                | none ↦ (app, r)
                | some a ↦ (app, record r { agent = some (f a) })
              ]) in
              Tally n x.0 x.1)
            (sym e)
            (keep-Tally n app app r (record r { agent = some (f a) }) refl refl (ground arith) h)

  held-Tally : (n : ℕ) (app : App) (r : Route) → slot r ≡ held r → Tally n app r → Held n app r
  held-Tally n app r e h = record {
    active = h.active ∙ ap (λ x. n + x) e;
    cap = h.cap;
    limit = h.limit;
  }

  on_event-Tally :
      (n : ℕ) (out : Outside) (e : InboundEvent) (app : App) (r : Route)
      → r.phase ≡ reading
      → Tally n app r
      → Held n app r
      → Tally n (on_event out e app r).0 (on_event out e app r).1
  unfolding on_event
  on_event-Tally n out (start id from_number stream_id) app r p h k =
      if-cases (λ (x : App × Route). Tally n x.0 x.1) (is_none r.agent) (on_start out id app r)
        (app, r) (λ t. let f = h.is_fresh in on_start-Tally n out id app r p (ground arith) k)
        (λ t. h)
  on_event-Tally n out (media pcm16) app r p h k = with_agent-Tally n _ app r h
  on_event-Tally n out (mark name) app r p h k = with_agent-Tally n _ app r h
  on_event-Tally n out stop app r p h k = leave_loop-Tally n app r k
  on_event-Tally n out (connected version) app r p h k = h
  on_event-Tally n out (dtmf digit) app r p h k = h
  on_event-Tally n out (ignore reason) app r p h k = h

  slot-open : (r : Route) → is_done r.phase ≡ false → slot r ≡ held r
  slot-open r e = ground arith

  step-Tally :
      (n : ℕ) (x : Step) (app : App) (r : Route)
      → Tally n app r
      → Tally n (step x app r).0 (step x app r).1
  step-Tally n x app r h =
      let given = λ (e : is_done r.phase ≡ false). held-Tally n app r (slot-open r e) h in
      step-cases (λ y. Tally n y.0 y.1) app r h
        (λ out e q. on_event-Tally n out e app r q h (given (rw q refl)))
        (λ e. leave_loop-Tally n app r (given e))
        (λ q. drop_agent-Tally n app r (given (rw q refl)))
        (λ q. finish-Tally n app r (given (rw q refl))) (λ f. with_agent-Tally n f app r h) x

  -- The limiter counts the slots of these routes and `n` more.
  record Sum (n : ℕ) (app : App) (rs : List Route) : Type 0 where
    active : app.limiter.active ≡ n + slots rs
    cap : WithinCap app.limiter
    limit : Limited app
    all_fresh : All (λ r. fresh r ≡ true) rs

  step_at-Sum :
      (i : ℕ) (x : Step) (n : ℕ) (app : App) (rs : List Route)
      → Sum n app rs
      → Sum n (step_at i x app rs).0 (step_at i x app rs).1
  unfolding step_at
  step_at-Sum i x n app [] h = h
  step_at-Sum zero x n app (r ∷ rs) h =
      let t = step-Tally (n + slots rs) x app r (record {
        active = (let a = h.active in omega arith);
        cap = h.cap;
        limit = h.limit;
        is_fresh = h.all_fresh.0;
      }) in
      record {
        active = (let a = t.active in omega arith);
        cap = t.cap;
        limit = t.limit;
        all_fresh = (t.is_fresh, h.all_fresh.1);
      }
  step_at-Sum (suc i) x n app (r ∷ rs) h =
      let t = step_at-Sum i x (n + slot r) app rs (record {
        active = (let a = h.active in omega arith);
        cap = h.cap;
        limit = h.limit;
        all_fresh = h.all_fresh.1;
      }) in
      record {
        active = (let a = t.active in omega arith);
        cap = t.cap;
        limit = t.limit;
        all_fresh = (h.all_fresh.0, t.all_fresh);
      }

  with_limiter :
      (n : ℕ) (app b : App) (rs : List Route) → b.limiter ≡ app.limiter → Sum n app rs → Sum n b rs
  with_limiter n app b rs l h = record {
    active = ap (λ (x : CallLimiter). x.active) l ∙ h.active;
    cap = subst WithinCap (sym l) h.cap;
    limit = ap (λ (x : CallLimiter). x.max_concurrent) l ∙ h.limit;
    all_fresh = h.all_fresh;
  }

  slots-snoc : (rs : List Route) (r : Route) → slots (rs ++ (r ∷ [])) ≡ slots rs + slot r
  slots-snoc [] r = omega arith
  slots-snoc (x ∷ rs) r = omega (arith, slots-snoc rs r)

  dispatch-limiter :
      (token : Text) (ok : Bool) (w : Webhook) (app : App)
      → (dispatch token ok w app).limiter ≡ app.limiter
  unfolding dispatch on_initiated on_answered mint_stream_url
  dispatch-limiter token ok w app = ground arith

  connect-Sum :
      (n : ℕ) (token : Text) (app : App) (rs : List Route)
      → Sum n app rs
      → Sum n (connect token app rs).0 (connect token app rs).1
  unfolding connect
  connect-Sum n token app rs h =
      go (if is_empty token then none else get_key token app.stream_tokens)
    where
      opened : Text → Route
      opened id = record {
        number = length rs;
        expected_ccid = id;
        agent = none;
        media = false;
        call_control_id = [];
        acquired = false;
        phase = reading;
      }

      go :
          (o : Option Text)
          → let x : App × List Route = (elim o [
            | none ↦ (app, rs)
            | some id ↦ (
              record app { stream_tokens = remove_key token app.stream_tokens },
              rs ++ (opened id ∷ []),
            )
          ]) in
            Sum n x.0 x.1
      go none = h
      go (some id) = record {
        active = (let a = h.active in omega (arith, slots-snoc rs (opened id)));
        cap = h.cap;
        limit = h.limit;
        all_fresh = All-append (λ r. fresh r ≡ true) rs (opened id ∷ []) h.all_fresh (refl, tt);
      }

  run-Sum :
      (xs : List Action) (app : App) (rs : List Route)
      → Sum 0 app rs
      → Sum 0 (run xs app rs).0 (run xs app rs).1
  unfolding run
  run-Sum [] app rs h = h
  run-Sum (hook token ok w ∷ xs) app rs h =
      run-Sum xs (dispatch token ok w app) rs
        (with_limiter 0 app (dispatch token ok w app) rs (dispatch-limiter token ok w app) h)
  run-Sum (connects token ∷ xs) app rs h =
      run-Sum xs (connect token app rs).0 (connect token app rs).1 (connect-Sum 0 token app rs h)
  run-Sum (steps i x ∷ xs) app rs h =
      run-Sum xs (step_at i x app rs).0 (step_at i x app rs).1 (step_at-Sum i x 0 app rs h)

-- In any interleaving of webhooks, media sockets and agents on a new server, the limiter counts exactly
-- the sockets that took a slot and have not come to their end, however each of them ends; with a cap
-- that is not 0 there are never more of them than the cap.
pub run-slots :
    (settings : Settings) (xs : List Action)
    → let (app, rs) = run xs (new_app settings) [] in
      (app.limiter.active ≡ slots rs)
      × (settings.max_concurrent_calls ≢ 0 → slots rs ≤ settings.max_concurrent_calls)
unfolding new_app new_limiter
run-slots settings xs =
    let m = settings.max_concurrent_calls in
    let h =
      run-Sum m xs (new_app settings) []
        (record { active = refl; cap = λ n. omega arith; limit = refl; all_fresh = tt }) in
    let a = h.active in let c = h.cap in let l = h.limit in (omega arith, λ n. ground arith)
