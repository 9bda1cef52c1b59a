-- ===== src/Prelude/Decimal.antt =====
-- Decimal numerals, as Python's `str` writes a natural number.
use Prim.Native.Nat.{ℕ, zero, suc, ◌+◌, ◌*◌, ◌/◌, ◌%◌}
use mathlib.Core.Bool.{Bool, true, false, ◌&&◌}
use mathlib.Core.Option.{Option, none, some}
use mathlib.Core.List.{List, [], ◌∷◌, ◌++◌}
use telnyx_onset.Prelude.Tests.{ltb, ◌==◌, if◌then◌else◌}
use telnyx_onset.Prelude.Strings.{strip}

-- The number has fewer digits than its value and one, so `n + 1` is fuel enough.
unfoldable pub digits : ℕ → ℕ → List ℕ
digits zero n = []
digits (suc fuel) n =
    let front = digits fuel (n / 10) in
    if ltb n 10 then (b'0' + n) ∷ [] else front ++ ((b'0' + n % 10) ∷ [])

unfoldable pub decimal : ℕ → List ℕ
unfolding digits
decimal n = digits (n + 1) n

-- The digits of a number with what they come to; an underscore may stand between two of them. The flag
-- tells that a digit comes before.
unfoldable pub read_digits : (ℕ → Option ℕ) → List ℕ → Bool → ℕ → Option ℕ
read_digits digit [] after value = if after then some value else none
read_digits digit (c ∷ cs) after value = elim (digit c) [
  | some d ↦ read_digits digit cs true (value * 10 + d)
  | none ↦ if (c == b'_') && after then read_digits digit cs false value else none
]

-- More digits than this are a ValueError.
abbrev pub max_str_digits : ℕ
max_str_digits = 4300

abbrev pub count_digits : (ℕ → Option ℕ) → List ℕ → ℕ
count_digits digit [] = 0
count_digits digit (c ∷ cs) =
    let n = count_digits digit cs in elim (digit c) [ none ↦ n | some d ↦ n + 1 ]

abbrev pub unsigned : (ℕ → Option ℕ) → List ℕ → Option ℕ
unsigned digit cs =
    if ltb max_str_digits (count_digits digit cs) then none else read_digits digit cs false 0

-- Python's `int` of a text, for the natural numbers: `none` stands for the ValueError and for a negative
-- number. `digit` gives the value of a decimal digit of Unicode.
unfoldable pub int_of : (ℕ → Option ℕ) → List ℕ → Option ℕ
unfolding read_digits strip
int_of digit text = elim (strip text) [
  | [] ↦ none
  | c ∷ cs ↦
      if c == b'+'
      then unsigned digit cs
      else if c == b'-'
      then (elim (unsigned digit cs) [ none ↦ none | some n ↦ if n == 0 then some 0 else none ])
      else unsigned digit (c ∷ cs)
]
