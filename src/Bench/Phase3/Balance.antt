-- ===== src/Bench/Phase3/Balance.antt =====
-- The order of the conditions of bench/phase3.py.
use telnyx_onset.Prelude.{
  ℕ, zero, suc, ◌+◌, ◌*◌, ◌/◌, ◌%◌, ◌≡◌, ◌≢◌, refl, sym, ap, ap₂, ◌∙◌, Bool, true, false, some,
  List, [], ◌∷◌, ◌++◌, arith, if◌then◌else◌, length, replicate, length-append, length-replicate,
}
use native.Mathlib.Nat.{div-add-mod'}
use telnyx_onset.Types.{BenchmarkMode, onset_fd_vad, onset_fd_transcript}
use telnyx_onset.Bench.Phase3.{conditions_block, blocks, balanced_condition_order}

-- How often a condition stands in an order, for a Boolean test of the condition.
abbrev pub count : (BenchmarkMode → Bool) → List BenchmarkMode → ℕ
count f [] = 0
count f (x ∷ xs) = (if f x then 1 else 0) + count f xs

abbrev pub is_vad : BenchmarkMode → Bool
is_vad onset_fd_vad = true
is_vad _ = false

abbrev pub is_transcript : BenchmarkMode → Bool
is_transcript onset_fd_transcript = true
is_transcript _ = false

count-append :
    (f : BenchmarkMode → Bool) (xs ys : List BenchmarkMode)
    → count f (xs ++ ys) ≡ count f xs + count f ys
count-append f [] ys = omega arith
count-append f (x ∷ xs) ys = let h = count-append f xs ys in ground arith

count-replicate :
    (f : BenchmarkMode → Bool) (n : ℕ) (x : BenchmarkMode)
    → count f (replicate n x) ≡ n * (if f x then 1 else 0)
count-replicate f zero x = ground arith
count-replicate f (suc n) x = let h = count-replicate f n x in ground arith

count-all : (xs : List BenchmarkMode) → count (λ x. true) xs ≡ length xs
count-all [] = refl
count-all (x ∷ xs) = let h = count-all xs in omega arith

block-vad : (n : ℕ) → count is_vad (conditions_block n) ≡ n
unfolding conditions_block
block-vad n =
    let a = count-append is_vad (replicate n onset_fd_vad) (replicate n onset_fd_transcript) in
    let b = count-replicate is_vad n onset_fd_vad in
    let c = count-replicate is_vad n onset_fd_transcript in omega arith

block-transcript : (n : ℕ) → count is_transcript (conditions_block n) ≡ n
unfolding conditions_block
block-transcript n =
    let a =
      count-append is_transcript (replicate n onset_fd_vad) (replicate n onset_fd_transcript) in
    let b = count-replicate is_transcript n onset_fd_vad in
    let c = count-replicate is_transcript n onset_fd_transcript in omega arith

length-block : (n : ℕ) → length (conditions_block n) ≡ n + n
unfolding conditions_block
length-block n =
    let a = length-append (replicate n onset_fd_vad) (replicate n onset_fd_transcript) in
    let b = length-replicate n onset_fd_vad in
    let c = length-replicate n onset_fd_transcript in omega arith

module _ {R : Type 0} (random : ℕ → R) (shuffle : R → List BenchmarkMode → R × List BenchmarkMode)
    (keeps : (f : BenchmarkMode → Bool) (r : R) (xs : List BenchmarkMode)
      → count f (shuffle r xs).1 ≡ count f xs) where
  count-blocks :
      (f : BenchmarkMode → Bool) (n per : ℕ) (r : R)
      → count f (blocks random shuffle n per r) ≡ n * count f (conditions_block per)
  unfolding blocks
  count-blocks f zero per r = ground arith
  count-blocks f (suc n) per r =
      let r' = (shuffle r (conditions_block per)).0 in
      let block = (shuffle r (conditions_block per)).1 in
      let total = count f (conditions_block per) in
      let rest = count-blocks f n per r' in
      let k : count f block ≡ total = keeps f r (conditions_block per) in
      let a = count-append f block (blocks random shuffle n per r') in
      let e : suc n * total ≡ total + n * total = ground arith in
      a ∙ (ap₂ (λ x y. x + y) k rest ∙ sym e)

  given-balanced :
      (seed attempts per : ℕ) (order : List BenchmarkMode)
      → balanced_condition_order random shuffle seed attempts per ≡ some order
      → (count is_vad order ≡ attempts)
        × (count is_transcript order ≡ attempts)
        × (length order ≡ attempts + attempts)
  unfolding balanced_condition_order
  given-balanced seed attempts per order h =
      let e : attempts / per * per ≡ attempts =
        (let d = div-add-mod' attempts per in ground arith) in
      let o : order ≡ blocks random shuffle (attempts / per) per (random seed) = ground arith in
      let n = attempts / per in
      let r = random seed in
      (
        ap (count is_vad) o ∙ count-blocks is_vad n per r ∙ ap (λ x. n * x) (block-vad per) ∙ e,
        ap (count is_transcript) o
            ∙ count-blocks is_transcript n per r
            ∙ ap (λ x. n * x) (block-transcript per)
            ∙ e,
        ap length o
            ∙ sym (count-all (blocks random shuffle n per r))
            ∙ count-blocks (λ x. true) n per r
            ∙ ap (λ x. n * x) (count-all (conditions_block per) ∙ length-block per)
            ∙ (let m : n * (per + per) ≡ n * per + n * per = ground arith in
                m ∙ ap₂ (λ x y. x + y) e e),
      )

  -- The primary conditions are balanced: if the number of attempts is a positive multiple of that of
  -- the blocks and the shuffle loses and repeats nothing, an order is given, and it holds each of the two
  -- conditions as often as it was asked for, and no other.
  pub balanced_condition_order-balanced :
      (seed attempts per : ℕ)
      → attempts ≢ 0
      → per ≢ 0
      → attempts % per ≡ 0
      → (order : List BenchmarkMode) × (balanced_condition_order random shuffle seed attempts per
          ≡ some order)
        × (count is_vad order ≡ attempts)
        × (count is_transcript order ≡ attempts)
        × (length order ≡ attempts + attempts)
  unfolding balanced_condition_order
  balanced_condition_order-balanced seed attempts per n p m =
      let order = blocks random shuffle (attempts / per) per (random seed) in
      let e : balanced_condition_order random shuffle seed attempts per ≡ some order =
        ground arith in
      let (vad, transcript, all) = given-balanced seed attempts per order e in
      (order, e, vad, transcript, all)
