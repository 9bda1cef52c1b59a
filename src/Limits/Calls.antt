-- ===== src/Limits/Calls.antt =====
-- The concurrency cap of onset/limits.py over a history of calls.
use telnyx_onset.Prelude.{ℕ, ◌≤◌, ◌<◌, ◌≡◌, refl, ◌≢◌, ◌⊎◌, true, false, List, [], ◌∷◌, arith}
use telnyx_onset.Limits.{CallLimiter, new_limiter, try_acquire, release}

-- One use of the limiter: a call asks for a slot, or a call that holds one ends.
pub data LimiterOp : Type 0 where
  acquire free : LimiterOp

abbrev pub apply : CallLimiter → LimiterOp → CallLimiter
apply l acquire = (try_acquire l).0
apply l free = release l

abbrev pub run : CallLimiter → List LimiterOp → CallLimiter
run l [] = l
run l (op ∷ ops) = run (apply l op) ops

-- A cap of 0 disables the limit.
abbrev pub WithinCap : CallLimiter → Type 0
WithinCap l = l.max_concurrent ≢ 0 → l.active ≤ l.max_concurrent

apply-WithinCap : (l : CallLimiter) (op : LimiterOp) → WithinCap l → WithinCap (apply l op)
unfolding try_acquire release
apply-WithinCap l acquire h = ground arith
apply-WithinCap l free h = ground arith

max-apply : (l : CallLimiter) (op : LimiterOp) → (apply l op).max_concurrent ≡ l.max_concurrent
unfolding try_acquire release
max-apply l acquire = ground arith
max-apply l free = refl

run-WithinCap :
    (l : CallLimiter) (ops : List LimiterOp)
    → WithinCap l
    → WithinCap (run l ops) × ((run l ops).max_concurrent ≡ l.max_concurrent)
run-WithinCap l [] h = (h, refl)
run-WithinCap l (op ∷ ops) h =
    ground (arith, run-WithinCap (apply l op) ops (apply-WithinCap l op h), max-apply l op)

-- After any history of requests and releases on a new limiter with a cap that is not 0, the active
-- calls do not exceed the cap, and the cap is still the configured one.
pub active-run-le :
    (m : ℕ) (ops : List LimiterOp)
    → m ≢ 0
    → ((run (new_limiter m) ops).active ≤ m) × ((run (new_limiter m) ops).max_concurrent ≡ m)
unfolding new_limiter
active-run-le m ops h = ground (arith, run-WithinCap (new_limiter m) ops)

-- A slot is granted exactly when the cap is 0 or not reached. A grant followed by its release
-- restores the limiter, and a refusal leaves it as it was.
pub try_acquire_lem :
    (l : CallLimiter)
    → (((try_acquire l).1 ≡ true)
        × ((l.max_concurrent ≡ 0) ⊎ (l.active < l.max_concurrent))
        × (release (try_acquire l).0 ≡ l))
      ⊎ (((try_acquire l).1 ≡ false)
          × (l.max_concurrent ≢ 0)
          × (l.max_concurrent ≤ l.active)
          × ((try_acquire l).0 ≡ l))
unfolding try_acquire release
try_acquire_lem l = ground arith
