-- ===== src/Stt/Reconnect.antt =====
-- The attempts of onset/stt.py to open its socket anew.
use telnyx_onset.Prelude.{
  ℕ, zero, suc, ◌+◌, ◌<◌, ◌≡◌, refl, Bool, true, false, not, ◌&&◌, List, [], ◌∷◌, arith,
  if◌then◌else◌, length, is_empty, All, Text,
}
use telnyx_onset.Json.{Json}
use telnyx_onset.Stt.{Session, gave_up, receive_loop, transcripts}

-- A turn in which nothing is heard and that is not cancelled.
abbrev pub silent : Session → Bool
silent s = is_empty s.messages && not s.is_cancelled

-- The waits that are left: the next attempts up to the last one.
abbrev pub waits_from : ℕ → ℕ → List ℕ
waits_from attempt zero = []
waits_from attempt (suc n) = (attempt + 1) ∷ waits_from (attempt + 1) n

quiet_turn :
    (b : Bool) (s : Session) → silent s ≡ true → is_empty (if b then s.messages else []) ≡ true
quiet_turn true s e = ground arith
quiet_turn false s e = refl

-- A socket that has gone silent for good is given up: after the attempts that are left, each a longer
-- wait than the one before, the loop ends and calls `on_error`, whether the sockets in between open or
-- not, and nothing more is heard. It needs one turn more than it has attempts.
pub receive_loop-gave_up :
    (str : Json → Text) (left attempt : ℕ) (is_open : Bool) (sessions : List Session)
    → All (λ s. silent s ≡ true) sessions
    → left < length sessions
    → receive_loop str (attempt + left) attempt is_open sessions
      ≡ record { heard = []; waits = waits_from attempt left; progress = gave_up }
unfolding receive_loop transcripts
receive_loop-gave_up str left attempt is_open [] h n = absurd (omega arith)
receive_loop-gave_up str zero attempt is_open (s ∷ later) (e, h) n =
    let q = quiet_turn is_open s e in ground arith
receive_loop-gave_up str (suc left) attempt is_open (s ∷ later) (e, h) n =
    let q = quiet_turn is_open s e in
    let ih = receive_loop-gave_up str left (attempt + 1) s.reopens later h (omega arith) in
    ground arith
