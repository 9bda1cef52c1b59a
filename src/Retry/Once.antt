-- ===== src/Retry/Once.antt =====
-- A retried stream of onset/retry.py delivers one attempt.
use native.Mathlib.Nat.{pow-succ'}
use native.Mathlib.Numerals.{add-one}
use native.Mathlib.Decide.{ℕ_discrete}
use telnyx_onset.Prelude.{
  ℕ, zero, suc, ◌+◌, ◌*◌, ◌^◌, ◌≤◌, ◌<◌, ◌≡◌, refl, ap, ◌∙◌, subst, ◌⊎◌, inl, inr, Bool, true, not,
  ◌||◌, List, [], ◌∷◌, ◌++◌, arith, leb, Bool-cases, is_empty,
}
use telnyx_onset.Retry.{
  Ending, finished, failed, cancelled, Attempt, Run, attempts_from, retry_stream,
}

module _ {ℓ} {T E : Type ℓ} where
  abbrev pub Silent : Attempt T E → Type ℓ
  Silent a = (a.items ≡ []) × ((e : E) × (a.ending ≡ failed e))

abbrev pub sum : List ℕ → ℕ
sum [] = 0
sum (x ∷ xs) = x + sum xs

module _ {ℓ} {T E : Type ℓ} (f : ℕ → Attempt T E) (c : ℕ → Bool) (most b : ℕ) where
  -- What a run whose first attempt has the number `first` has done when it ends: `last` is the number
  -- of its last attempt.
  pub record Delivered (first : ℕ) (r : Run T E) : Type ℓ where
    pub last : ℕ
    pub first_le : first ≤ last
    pub bounded : last ≤ most
    pub before : (j : ℕ) → first ≤ j → j < last → Silent (f j)
    pub items : r.yielded ≡ (f last).items
    pub ended :
        ((r.ending ≡ (f last).ending) × (sum r.slept + b * 2 ^ first ≡ b * 2 ^ last))
        ⊎ ((r.ending ≡ cancelled) × Silent (f last) × (c last ≡ true))

  silent :
      {first : ℕ} (x : E)
      → (f first).ending ≡ failed x
      → is_empty (f first).items ≡ true
      → Silent (f first)
  silent x q h = (ground arith, (x, q))

  before_cons :
      (first last : ℕ)
      → Silent (f first)
      → ((j : ℕ) → first + 1 ≤ j → j < last → Silent (f j))
      → (j : ℕ) → first ≤ j
      → j < last
      → Silent (f j)
  before_cons first last s h j p r = elim (ℕ_discrete first j) [
    | yes e ↦ subst (λ k. Silent (f k)) e s
    | no n ↦ h j (omega arith) r
  ]

  -- The delay doubles: all delays so far make up the next one but for the first.
  doubled :
      (first last slept : ℕ)
      → slept + b * 2 ^ (first + 1) ≡ b * 2 ^ last
      → b * 2 ^ first + slept + b * 2 ^ first ≡ b * 2 ^ last
  doubled first last slept h =
      let e : 2 ^ (first + 1) ≡ 2 * 2 ^ first = simp add-one (pow-succ' 2 first) in
      let e' : b * 2 ^ (first + 1) ≡ b * (2 * 2 ^ first) = ap (λ k. b * k) e in omega arith

  -- The run ends with this round, whose ending it passes on.
  last_round :
      (first : ℕ) (r : Run T E)
      → first ≤ most
      → r.yielded ≡ (f first).items
      → ((r.ending ≡ (f first).ending) × (r.slept ≡ []))
        ⊎ ((r.ending ≡ cancelled) × Silent (f first) × (c first ≡ true))
      → Delivered first r
  last_round first r le items ending = record {
    last = first;
    first_le = omega arith;
    bounded = le;
    before = λ j p q. absurd (omega arith);
    items = items;
    ended = elim ending [ inl e ↦ inl (e.0, ground (arith, e.1)) | inr e ↦ inr e ];
  }

  -- The run goes on behind a silent round.
  next_round :
      (first : ℕ) (rest r : Run T E)
      → Silent (f first)
      → r.yielded ≡ (f first).items ++ rest.yielded
      → r.slept ≡ b * 2 ^ first ∷ rest.slept
      → r.ending ≡ rest.ending
      → Delivered (first + 1) rest
      → Delivered first r
  next_round first rest r s y sl en d = record {
    last = d.last;
    first_le = omega (arith, d.first_le);
    bounded = d.bounded;
    before = before_cons first d.last s d.before;
    items = ground (arith, y, s.0, d.items);
    ended = elim d.ended [
      | inl e ↦ inl (en ∙ e.0, ground (arith, sl, doubled first d.last (sum rest.slept) e.1))
      | inr e ↦ inr (en ∙ e.0, e.1, e.2)
    ];
  }

  -- One round of the loop, on how its stream ends.
  round_lem :
      (rounds first : ℕ) (ending : Ending E)
      → first ≤ most
      → (f first).ending ≡ ending
      → (first < most → Delivered (first + 1) (attempts_from f c most b rounds (first + 1)))
      → Delivered first (attempts_from f c most b (suc rounds) first)
  unfolding attempts_from
  round_lem rounds first finished le q rec =
      last_round first _ le (ground arith) (inl (ground arith, ground arith))
  round_lem rounds first cancelled le q rec =
      last_round first _ le (ground arith) (inl (ground arith, ground arith))
  round_lem rounds first (failed x) le q rec =
      elim (Bool-cases (not (is_empty (f first).items) || leb most first)) [
        | inl t ↦ last_round first _ le (ground arith) (inl (ground arith, ground arith))
        | inr t ↦ elim (Bool-cases (c first)) [
          | inl u ↦
              last_round first _ le (ground arith)
                (inr (ground arith, silent x q (ground arith), u))
          | inr u ↦
              next_round first (attempts_from f c most b rounds (first + 1)) _
                (silent x q (ground arith)) (ground arith) (ground arith) (ground arith)
                (rec (ground arith))
        ]
      ]

  attempts_from-Delivered :
      (rounds first : ℕ)
      → first + suc rounds ≡ most + 1
      → Delivered first (attempts_from f c most b (suc rounds) first)
  attempts_from-Delivered zero first e =
      round_lem zero first (f first).ending (omega arith) refl (λ h. absurd (omega arith))
  attempts_from-Delivered (suc rounds) first e =
      round_lem (suc rounds) first (f first).ending (omega arith) refl
        (λ h. attempts_from-Delivered rounds (first + 1) (omega arith))

  -- A retried stream delivers the items of one attempt, number `last`, among the `most + 1` that it
  -- may make: every earlier attempt failed before its first item. It ends as that attempt ends,
  -- after delays that double from `backoff_s`, so running out of attempts is never taken for a
  -- finished stream; or a cancellation falls into the delay behind that attempt, which then yielded
  -- nothing.
  pub retry_stream-Delivered : Delivered 0 (retry_stream f c most b)
  unfolding retry_stream
  retry_stream-Delivered = rw add-one (attempts_from-Delivered most 0 (omega arith))
