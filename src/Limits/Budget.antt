-- ===== src/Limits/Budget.antt =====
-- The token budget of onset/limits.py over all the charges of a call.
use telnyx_onset.Prelude.{
  ◌+◌, ◌*◌, ◌≤◌, ◌≡◌, refl, ◌≢◌, ◌↔◌, true, List, [], ◌∷◌, arith, Text, length, concat,
  length-append,
}
use telnyx_onset.Limits.{TokenBudget, chars_per_token, exhausted, record_text, record_all}

chars-record_all :
    (b : TokenBudget) (ts : List Text)
    → ((record_all b ts).chars ≡ b.chars + length (concat ts))
      × ((record_all b ts).max_tokens ≡ b.max_tokens)
unfolding record_all
chars-record_all b [] = (omega arith, refl)
chars-record_all b (t ∷ ts) =
    ground (arith, chars-record_all (record_text b t) ts, length-append t (concat ts))

exhausted_iff :
    (b : TokenBudget) → (exhausted b ≡ true) ↔ ((b.max_tokens ≢ 0) × (4 * b.max_tokens ≤ b.chars))
unfolding exhausted
exhausted_iff b = ground arith

-- A budget is exhausted after a list of charges exactly when its limit is not 0 and the characters
-- of all charges, with those before, come to four for each token. So the division into separate
-- charges does not matter.
pub exhausted-record_all_iff :
    (b : TokenBudget) (ts : List Text)
    → (exhausted (record_all b ts) ≡ true)
      ↔ ((b.max_tokens ≢ 0) × (chars_per_token * b.max_tokens ≤ b.chars + length (concat ts)))
exhausted-record_all_iff b ts =
    ground (arith, exhausted_iff (record_all b ts), chars-record_all b ts)

-- Once exhausted, a budget stays so under every further charge.
pub exhausted-record_all :
    (b : TokenBudget) (ts : List Text) → exhausted b ≡ true → exhausted (record_all b ts) ≡ true
exhausted-record_all b ts h =
    ground (arith, exhausted_iff b, exhausted_iff (record_all b ts), chars-record_all b ts)
