-- ===== src/Bench/Tokens/Once.antt =====
-- The stream tokens of bench/media_capture.py.
use telnyx_onset.Prelude.{
  ℕ, zero, suc, ◌+◌, ◌≤◌, ◌≡◌, refl, ap, ◌∙◌, subst, ◌⊎◌, inl, inr, Bool, true, false, Option, none,
  some, List, [], ◌∷◌, arith, if◌then◌else◌, Bool-cases, Option-cases, Text, text_eq,
}
use telnyx_onset.Bench.Tokens.{
  ok, raised, stream_auth_failed, StreamRole, StreamAuthorization, StreamTokenStore, unexpired,
  remove_expired, matches, match_index, pop, consume,
}

-- How often a token is pending.
abbrev pub times : Text → List StreamAuthorization → ℕ
times t [] = 0
times t (x ∷ xs) = (if text_eq x.token t then 1 else 0) + times t xs

times-unexpired :
    (t : Text) (now : ℕ) (xs : List StreamAuthorization) → times t (unexpired now xs) ≤ times t xs
unfolding unexpired
times-unexpired t now [] = omega arith
times-unexpired t now (x ∷ xs) = let rest = times-unexpired t now xs in ground arith

unmatched :
    (t run : Text) (role : StreamRole) (i : ℕ) (xs : List StreamAuthorization)
    → times t xs ≡ 0
    → match_index (matches t run role) i none xs ≡ none
unfolding match_index
unmatched t run role i [] h = refl
unmatched t run role i (x ∷ xs) h =
    let no : matches t run role x ≡ false = ground arith in
    let z : times t xs ≡ 0 = ground arith in
    ap (λ b. match_index (matches t run role) (i + 1) (if b then some i else none) xs) no
    ∙ unmatched t run role (i + 1) xs z

-- An index at which an element stands that passes the test, with what `pop` gives there.
abbrev At : (StreamAuthorization → Bool) → ℕ → List StreamAuthorization → Type 0
At test i xs =
    (x : StreamAuthorization) × (ys : List StreamAuthorization) × (pop i xs ≡ some (x, ys))
    × (test x ≡ true)

At-later :
    (test : StreamAuthorization → Bool) (j : ℕ) (y : StreamAuthorization)
    (xs : List StreamAuthorization)
    → At test j xs
    → At test (suc j) (y ∷ xs)
unfolding pop
At-later test j y xs (x, ys, p, q) = (x, y ∷ ys, ground arith, q)

found-At :
    (test : StreamAuthorization → Bool) (k : ℕ) (found : Option ℕ) (xs : List StreamAuthorization)
    (i : ℕ)
    → match_index test k found xs ≡ some i
    → (found ≡ some i) ⊎ ((j : ℕ) × (i ≡ k + j) × At test j xs)
unfolding match_index pop
found-At test k found [] i h = inl h
found-At test k found (x ∷ xs) i h = elim (Bool-cases (test x)) [
  | inl e ↦
      let h' =
        subst (λ b. match_index test (k + 1) (if b then some k else found) xs ≡ some i) e h in
      elim (found-At test (k + 1) (some k) xs i h') [
        | inl q ↦ inr (0, ground arith, (x, xs, refl, e))
        | inr (j, q, r) ↦ inr (suc j, omega arith, At-later test j x xs r)
      ]
  | inr e ↦
      let h' =
        subst (λ b. match_index test (k + 1) (if b then some k else found) xs ≡ some i) e h in
      elim (found-At test (k + 1) found xs i h') [
        | inl q ↦ inl q
        | inr (j, q, r) ↦ inr (suc j, omega arith, At-later test j x xs r)
      ]
]

times-pop :
    (t : Text) (i : ℕ) (xs : List StreamAuthorization) (x : StreamAuthorization)
    (ys : List StreamAuthorization)
    → pop i xs ≡ some (x, ys)
    → times t xs ≡ (if text_eq x.token t then 1 else 0) + times t ys
unfolding pop
times-pop t i [] x ys h = ground arith
times-pop t zero (z ∷ zs) x ys h = ground arith
times-pop t (suc i) (z ∷ zs) x ys h = elim (Option-cases (pop i zs)) [
  | inl e ↦ ground arith
  | inr ((y, rest), e) ↦ let k = times-pop t i zs y rest e in ground arith
]

spent :
    (t run : Text) (role : StreamRole) (now : ℕ) (s : StreamTokenStore) (x : StreamAuthorization)
    → times t s.pending ≤ 1
    → (consume t run role now s).1 ≡ ok x
    → times t (consume t run role now s).0.pending ≡ 0
unfolding consume remove_expired
spent t run role now s x h e =
    let u = times-unexpired t now s.pending in
    elim (Option-cases (match_index (matches t run role) 0 none (unexpired now s.pending))) [
      | inl m ↦ ground arith
      | inr (i, m) ↦ elim (found-At (matches t run role) 0 none (unexpired now s.pending) i m) [
        | inl q ↦ ground arith
        | inr (j, q, (y, ys, p, r)) ↦
            let p' : pop i (unexpired now s.pending) ≡ some (y, ys) =
              subst (λ n. pop n (unexpired now s.pending) ≡ some (y, ys))
                (let z : j ≡ i = omega arith in z) p in
            let k = times-pop t i (unexpired now s.pending) y ys p' in
            let w : text_eq y.token t ≡ true = ground arith in
            let v : times t ys ≡ 0 = ground arith in ground arith
      ]
    ]

refused :
    (t run : Text) (role : StreamRole) (now : ℕ) (s : StreamTokenStore)
    → times t s.pending ≡ 0
    → (consume t run role now s).1 ≡ raised stream_auth_failed
unfolding consume remove_expired
refused t run role now s h =
    let u = times-unexpired t now s.pending in
    let m = unmatched t run role 0 (unexpired now s.pending) (omega arith) in ground arith

-- A stream token works once: if a token is pending at most once and is consumed, then presenting it
-- again is refused, whatever run, role and time it is presented with.
pub consume_twice :
    (t run run' : Text) (role role' : StreamRole) (now now' : ℕ) (s : StreamTokenStore)
    (x : StreamAuthorization)
    → times t s.pending ≤ 1
    → (consume t run role now s).1 ≡ ok x
    → (consume t run' role' now' (consume t run role now s).0).1 ≡ raised stream_auth_failed
consume_twice t run run' role role' now now' s x h e =
    refused t run' role' now' (consume t run role now s).0 (spent t run role now s x h e)
