-- ===== src/Retry.antt =====
-- onset/retry.py: a stream that is opened anew while it has produced nothing. A delay is counted in
-- the unit of `backoff_s`.
pub mod Once
use telnyx_onset.Prelude.{
  ℕ, zero, suc, ◌+◌, ◌*◌, ◌^◌, Bool, true, false, not, ◌||◌, List, [], ◌∷◌, ◌++◌, leb, is_empty,
  if◌then◌else◌,
}

-- How an attempt, or the whole generator, ends. A cancellation is no `Exception`.
pub data Ending {ℓ} (E : Type ℓ) : Type ℓ where
  finished : Ending E
  failed : E → Ending E
  cancelled : Ending E

-- What one opened stream yields, and how it ends.
pub record Attempt {ℓ} (T E : Type ℓ) : Type ℓ where
  pub items : List T
  pub ending : Ending E

pub record Run {ℓ} (T E : Type ℓ) : Type ℓ where
  pub yielded : List T
  pub slept : List ℕ
  pub ending : Ending E

-- The factory gives the stream of each attempt; `sleep_cancelled` says of the delay behind an attempt
-- whether a cancellation falls into it.
module _ {ℓ} {T E : Type ℓ} (stream_factory : ℕ → Attempt T E) (sleep_cancelled : ℕ → Bool)
    (max_retries backoff_s : ℕ) where
  -- The part of a round behind the stream, before the delay is over.
  abbrev pub delay : ℕ → ℕ
  delay attempt = backoff_s * 2 ^ attempt

  -- The rounds left of `for attempt in range(max_retries + 1)`.
  unfoldable pub attempts_from : ℕ → ℕ → Run T E
  attempts_from zero attempt = record { yielded = []; slept = []; ending = finished }
  attempts_from (suc rounds) attempt =
      let rest = attempts_from rounds (attempt + 1) in
      let items = (stream_factory attempt).items in
      elim ((stream_factory attempt).ending) [
        | finished ↦ record { yielded = items; slept = []; ending = finished }
        | cancelled ↦ record { yielded = items; slept = []; ending = cancelled }
        | failed e ↦
            if not (is_empty items) || leb max_retries attempt
            then record { yielded = items; slept = []; ending = failed e }
            else if sleep_cancelled attempt
            then record { yielded = items; slept = delay attempt ∷ []; ending = cancelled }
            else record {
              yielded = items ++ rest.yielded;
              slept = delay attempt ∷ rest.slept;
              ending = rest.ending;
            }
      ]

  unfoldable pub retry_stream : Run T E
  unfolding attempts_from
  retry_stream = attempts_from (max_retries + 1) 0
