-- ===== src/BargeIn.antt =====
-- onset/barge_in.py: whether the agent speaks, and its interruption.
use telnyx_onset.Prelude.{◌≡◌, Bool, true, false, arith, if◌then◌else◌}

pub record BargeInHandler : Type 0 where
  pub agent_is_speaking : Bool
  pub barged_in : Bool

unfoldable pub new_barge_in : BargeInHandler
new_barge_in = record { agent_is_speaking = false; barged_in = false }

-- Reading the property clears it.
unfoldable pub was_interrupted : BargeInHandler → BargeInHandler × Bool
was_interrupted h = (record h { barged_in = false }, h.barged_in)

-- `stop_playback` changes what it closes over. An exception of it is logged and goes no further, so
-- its effect is the state that it leaves.
unfoldable pub handle_barge_in {ℓ} :
    {S : Type ℓ} → (S → S) → BargeInHandler → S → BargeInHandler × S
handle_barge_in stop_playback h s =
    if h.agent_is_speaking
    then (record h { barged_in = true; agent_is_speaking = false }, stop_playback s)
    else (h, s)

-- Interrupted twice in a row, a speaking agent stops its playback once, one reader of
-- `was_interrupted` is told of it, and the next reader is not.
pub handle_barge_in_twice {ℓ} :
    {S : Type ℓ} (stop : S → S) (h : BargeInHandler) (s : S)
    → h.agent_is_speaking ≡ true
    → let (h1, s1) = handle_barge_in stop h s in
      let (h2, s2) = handle_barge_in stop h1 s1 in
      (s2 ≡ stop s)
      × (h2.agent_is_speaking ≡ false)
      × ((was_interrupted h2).1 ≡ true)
      × ((was_interrupted (was_interrupted h2).0).1 ≡ false)
unfolding handle_barge_in was_interrupted
handle_barge_in_twice stop h s e = ground arith
