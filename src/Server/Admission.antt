-- ===== src/Server/Admission.antt =====
-- The tokens that admit media sockets to onset/server.py, over a whole run.
use telnyx_onset.Prelude.{
  ℕ, zero, suc, ◌+◌, ◌≤◌, ◌≡◌, refl, sym, subst, ◌⊎◌, inl, inr, Bool, true, false, not, ◌||◌,
  Option, none, some, List, [], ◌∷◌, ◌++◌, if◌then◌else◌, All, All-append, All-map, arith, length,
  Text, text_eq, text_eq→eq, text_eq_refl, codes, is_empty, if-cases, Bool-cases, Option-cases,
}
use telnyx_onset.Server.{
  App, Settings, Webhook, Command, answer, hang_up, start_streaming, new_app, dispatch,
  on_initiated, on_answered, mint_stream_url, drop_oldest, set_key, remove_key, get_key,
  send_command, matches_connection, is_ours,
}
use telnyx_onset.Server.Socket.{
  Route, reading, is_none, Step, step, step_at, connect, Action, hook, connects, steps, run,
}
use telnyx_onset.Server.Served.{asked, right_call, step-Goes}

abbrev Known : List Command → Text × Text → Type 0
Known cs (token, id) = asked id cs ≡ true

abbrev Admitted : List Command → Route → Type 0
Admitted cs r = (asked r.expected_ccid cs ≡ true) × (right_call r ≡ true)

record Granted (app : App) (rs : List Route) : Type 0 where
  tokens : All (Known app.commands) app.stream_tokens
  few : length app.stream_tokens ≤ 257
  routes : All (Admitted app.commands) rs

-- Routes and tokens stay granted when the commands only grow.
Admitted-still :
    (cs ds : List Command)
    → ((id : Text) → asked id cs ≡ true → asked id ds ≡ true)
    → (rs : List Route) → All (Admitted cs) rs
    → All (Admitted ds) rs
Admitted-still cs ds k rs h =
    All-map (Admitted cs) (Admitted ds) rs (λ r (a, b). (k r.expected_ccid a, b)) h

Known-still :
    (cs ds : List Command)
    → ((id : Text) → asked id cs ≡ true → asked id ds ≡ true)
    → (ts : List (Text × Text)) → All (Known cs) ts
    → All (Known ds) ts
Known-still cs ds k ts h = All-map (Known cs) (Known ds) ts (λ t a. k t.1 a) h

-- What a step of one of the routes leaves.
record Moved (app : App) (x : App × List Route) : Type 0 where
  tokens : x.0.stream_tokens ≡ app.stream_tokens
  kept : (id : Text) → asked id app.commands ≡ true → asked id x.0.commands ≡ true
  routes : All (Admitted x.0.commands) x.1

step_at-Moved :
    (i : ℕ) (x : Step) (app : App) (rs : List Route)
    → All (Admitted app.commands) rs
    → Moved app (step_at i x app rs)
unfolding step_at
step_at-Moved i x app [] h = record { tokens = refl; kept = λ id e. e; routes = tt }
step_at-Moved zero x app (r ∷ rs) ((a, q), hs) =
    let g = step-Goes x app r q in
    let y = step x app r in
    record {
      tokens = g.tokens;
      kept = g.kept;
      routes = (
        (
          subst (λ id. asked id y.0.commands ≡ true) (sym g.expected) (g.kept r.expected_ccid a),
          g.right,
        ),
        Admitted-still app.commands y.0.commands g.kept rs hs,
      );
    }
step_at-Moved (suc i) x app (r ∷ rs) ((a, q), hs) =
    let g = step_at-Moved i x app rs hs in
    record { tokens = g.tokens; kept = g.kept; routes = ((g.kept r.expected_ccid a, q), g.routes) }

step_at-Granted :
    (i : ℕ) (x : Step) (app : App) (rs : List Route)
    → Granted app rs
    → Granted (step_at i x app rs).0 (step_at i x app rs).1
step_at-Granted i x app rs h =
    let g = step_at-Moved i x app rs h.routes in
    let b = (step_at i x app rs).0 in
    record {
      tokens =
          subst (λ ts. All (Known b.commands) ts) (sym g.tokens)
            (Known-still app.commands b.commands g.kept app.stream_tokens h.tokens);
      few = subst (λ ts. length ts ≤ 257) (sym g.tokens) h.few;
      routes = g.routes;
    }

module _ (P : Text × Text → Type 0) where
  set_key-All :
      (k v : Text) (ts : List (Text × Text))
      → P (k, v)
      → ((j : Text) → P (j, v))
      → All P ts
      → All P (set_key k v ts)
  set_key-All k v [] p q h = (p, tt)
  set_key-All k v ((j, w) ∷ ts) p q (h, hs) =
      if-cases (All P) (text_eq j k) ((j, v) ∷ ts) ((j, w) ∷ set_key k v ts) (λ t. (q j, hs))
        (λ t. (h, set_key-All k v ts p q hs))

  remove_key-All : (k : Text) (ts : List (Text × Text)) → All P ts → All P (remove_key k ts)
  remove_key-All k [] h = tt
  remove_key-All k ((j, w) ∷ ts) (h, hs) =
      let rest = remove_key-All k ts hs in
      if-cases (All P) (text_eq j k) (remove_key k ts) ((j, w) ∷ remove_key k ts) (λ t. rest)
        (λ t. (h, rest))

  drop_oldest-All : (ts : List (Text × Text)) → All P ts → All P (drop_oldest ts)
  unfolding drop_oldest
  drop_oldest-All [] h = tt
  drop_oldest-All (x ∷ ts) (h, hs) = let rest = drop_oldest-All ts hs in ground arith

length-set_key : (k v : Text) (ts : List (Text × Text)) → length (set_key k v ts) ≤ length ts + 1
length-set_key k v [] = omega arith
length-set_key k v ((j, w) ∷ ts) = let h = length-set_key k v ts in ground arith

length-remove_key : (k : Text) (ts : List (Text × Text)) → length (remove_key k ts) ≤ length ts
length-remove_key k [] = omega arith
length-remove_key k ((j, w) ∷ ts) = let h = length-remove_key k ts in ground arith

length-drop_oldest : (ts : List (Text × Text)) → length (drop_oldest ts) ≤ 256
unfolding drop_oldest
length-drop_oldest [] = omega arith
length-drop_oldest (x ∷ ts) = let h = length-drop_oldest ts in ground arith

answered-Granted :
    (token : Text) (ok : Bool) (w : Webhook) (app : App) (rs : List Route)
    → Granted app rs
    → Granted (on_answered token ok w app) rs
unfolding on_answered mint_stream_url
answered-Granted token ok w app rs h =
    let id = w.call_control_id in
    let minted = (mint_stream_url token id app).0 in
    let asked_app = send_command (start_streaming id (mint_stream_url token id app).1) minted in
    let given : asked id asked_app.commands ≡ true = rw (text_eq_refl id) refl in
    let grown : (x : Text) → asked x app.commands ≡ true → asked x asked_app.commands ≡ true =
      λ x e. ground arith in
    let all_tokens =
      set_key-All (Known asked_app.commands) token id (drop_oldest app.stream_tokens) given
        (λ j. given)
        (drop_oldest-All (Known asked_app.commands) app.stream_tokens
          (Known-still app.commands asked_app.commands grown app.stream_tokens h.tokens)) in
    let few : length asked_app.stream_tokens ≤ 257 = omega (
      arith,
      length-set_key token id (drop_oldest app.stream_tokens),
      length-drop_oldest app.stream_tokens,
    ) in
    let routes = Admitted-still app.commands asked_app.commands grown rs h.routes in
    let hung = send_command (hang_up id) asked_app in
    if-cases (λ a. Granted a rs)
      (not (matches_connection app.settings w) || is_empty app.settings.media_stream_url) app
      (if ok then asked_app else hung) (λ t. h)
      (λ t.
        if-cases (λ a. Granted a rs) ok asked_app hung
          (λ t. record { tokens = all_tokens; few = few; routes = routes })
          (λ t. record { tokens = all_tokens; few = few; routes = routes }))

initiated-Granted :
    (w : Webhook) (app : App) (rs : List Route) → Granted app rs → Granted (on_initiated w app) rs
unfolding on_initiated
initiated-Granted w app rs h =
    if-cases (λ a. Granted a rs) (is_ours app.settings w)
      (send_command (answer w.call_control_id) app) app
      (λ t. record { tokens = h.tokens; few = h.few; routes = h.routes }) (λ t. h)

dispatch-Granted :
    (token : Text) (ok : Bool) (w : Webhook) (app : App) (rs : List Route)
    → Granted app rs
    → Granted (dispatch token ok w app) rs
unfolding dispatch
dispatch-Granted token ok w app rs h =
    let answered = text_eq w.event_type (codes "call.answered") in
    if-cases (λ a. Granted a rs) (text_eq w.event_type (codes "call.initiated"))
      (on_initiated w app) (if answered then on_answered token ok w app else app)
      (λ t. initiated-Granted w app rs h)
      (λ t.
        if-cases (λ a. Granted a rs) answered (on_answered token ok w app) app
          (λ t. answered-Granted token ok w app rs h) (λ t. h))

get_key-All :
    (P : Text × Text → Type 0) (k : Text) (ts : List (Text × Text)) {v : Text}
    → get_key k ts ≡ some v
    → All P ts
    → (j : Text) × P (j, v)
get_key-All P k [] e h = absurd cc
get_key-All P k ((j, w) ∷ ts) {v} e (h, hs) = elim (Bool-cases (text_eq j k)) [
  | inl t ↦ (let q : w ≡ v = ground arith in (j, subst (λ x. P (j, x)) q h))
  | inr f ↦ get_key-All P k ts (let q : get_key k ts ≡ some v = ground arith in q) hs
]

connect-Granted :
    (token : Text) (app : App) (rs : List Route)
    → Granted app rs
    → Granted (connect token app rs).0 (connect token app rs).1
unfolding connect
connect-Granted token app rs h =
    if-cases Out (is_empty token) none (get_key token app.stream_tokens) (λ t. nothing none refl)
      (λ t. found (Option-cases (get_key token app.stream_tokens)))
  where
    opened : Text → Route
    opened id = record {
      number = length rs;
      expected_ccid = id;
      agent = none;
      media = false;
      call_control_id = [];
      acquired = false;
      phase = reading;
    }

    Out : Option Text → Type 0
    Out o =
        let x : App × List Route = (elim o [
          | none ↦ (app, rs)
          | some id ↦ (
            record app { stream_tokens = remove_key token app.stream_tokens },
            rs ++ (opened id ∷ []),
          )
        ]) in
        Granted x.0 x.1

    nothing : (o : Option Text) → o ≡ none → Out o
    nothing o e = subst Out (sym e) h

    found :
        (get_key token app.stream_tokens ≡ none)
          ⊎ ((id : Text) × (get_key token app.stream_tokens ≡ some id))
        → Out (get_key token app.stream_tokens)
    found (inl e) = nothing _ e
    found (inr (id, e)) = subst Out (sym e) (record {
      tokens = remove_key-All (Known app.commands) token app.stream_tokens h.tokens;
      few = (let a = h.few in omega (arith, length-remove_key token app.stream_tokens));
      routes =
          All-append (Admitted app.commands) rs (opened id ∷ []) h.routes
            (((get_key-All (Known app.commands) token app.stream_tokens e h.tokens).1, refl), tt);
    })

run-Granted :
    (xs : List Action) (app : App) (rs : List Route)
    → Granted app rs
    → Granted (run xs app rs).0 (run xs app rs).1
unfolding run
run-Granted [] app rs h = h
run-Granted (hook token ok w ∷ xs) app rs h =
    run-Granted xs (dispatch token ok w app) rs (dispatch-Granted token ok w app rs h)
run-Granted (connects token ∷ xs) app rs h =
    run-Granted xs (connect token app rs).0 (connect token app rs).1
      (connect-Granted token app rs h)
run-Granted (steps i x ∷ xs) app rs h =
    run-Granted xs (step_at i x app rs).0 (step_at i x app rs).1 (step_at-Granted i x app rs h)

-- A media socket serves only a call for which this server has asked for a stream: in any interleaving of
-- webhooks, media sockets and agents on a new server, each socket with an agent works for such a call.
-- And there are never more than 257 tokens that wait for their socket.
pub run-admits :
    (settings : Settings) (xs : List Action)
    → let (app, rs) = run xs (new_app settings) [] in
      All (λ r. (is_none r.agent || asked r.call_control_id app.commands) ≡ true) rs
      × (length app.stream_tokens ≤ 257)
unfolding new_app
run-admits settings xs =
    let h =
      run-Granted xs (new_app settings) []
        (record { tokens = tt; few = omega arith; routes = tt }) in
    let (app, rs) = run xs (new_app settings) [] in
    (
      All-map (Admitted app.commands)
          (λ r. (is_none r.agent || asked r.call_control_id app.commands) ≡ true) rs
          (λ r (a, q). served app.commands r a q) h.routes,
      h.few,
    )
  where
    served :
        (cs : List Command) (r : Route)
        → asked r.expected_ccid cs ≡ true
        → right_call r ≡ true
        → (is_none r.agent || asked r.call_control_id cs) ≡ true
    served cs r a q = elim (Bool-cases (text_eq r.call_control_id r.expected_ccid)) [
      | inl e ↦
          (let same : asked r.call_control_id cs ≡ true =
              subst (λ id. asked id cs ≡ true)
                (sym (text_eq→eq r.call_control_id r.expected_ccid e)) a in
            ground arith)
      | inr e ↦ ground arith
    ]
