-- ===== src/Limits.antt =====
-- onset/limits.py: the cap on concurrent calls and the token budget of one call.
pub mod Calls
pub mod Budget
use telnyx_onset.Prelude.{
  ℕ, ◌+◌, ◌-◌, ◌/◌, Text, Bool, true, false, ◌&&◌, List, [], ◌∷◌, ltb, leb, length, max,
  if◌then◌else◌,
}

abbrev pub chars_per_token : ℕ
chars_per_token = 4

pub record CallLimiter : Type 0 where
  pub max_concurrent : ℕ
  pub active : ℕ

unfoldable pub new_limiter : ℕ → CallLimiter
new_limiter m = record { max_concurrent = m; active = 0 }

unfoldable pub at_capacity : CallLimiter → Bool
at_capacity l = ltb 0 l.max_concurrent && leb l.max_concurrent l.active

unfoldable pub try_acquire : CallLimiter → CallLimiter × Bool
unfolding at_capacity
try_acquire l = if at_capacity l then (l, false) else (record l { active = l.active + 1 }, true)

-- `max(0, active - 1)`: the subtraction of ℕ stops at 0 by itself.
unfoldable pub release : CallLimiter → CallLimiter
release l = record l { active = l.active - 1 }

pub record TokenBudget : Type 0 where
  pub max_tokens : ℕ
  pub chars : ℕ

unfoldable pub new_budget : ℕ → TokenBudget
new_budget m = record { max_tokens = m; chars = 0 }

unfoldable pub used : TokenBudget → ℕ
used b = b.chars / chars_per_token

unfoldable pub enabled : TokenBudget → Bool
enabled b = ltb 0 b.max_tokens

unfoldable pub exhausted : TokenBudget → Bool
unfolding used enabled
exhausted b = enabled b && leb b.max_tokens (used b)

unfoldable pub record_text : TokenBudget → Text → TokenBudget
record_text b text = record b { chars = b.chars + length text }

-- The charges of one call in order.
unfoldable pub record_all : TokenBudget → List Text → TokenBudget
unfolding record_text
record_all b [] = b
record_all b (t ∷ ts) = record_all (record_text b t) ts
