-- ===== src/Server/Marks.antt =====
-- The names of mark fences: onset/agent.py writes them and onset/server.py reads them.
use telnyx_onset.Prelude.{
  ℕ, zero, suc, ◌+◌, ◌*◌, ◌/◌, ◌%◌, ◌≤◌, ◌<◌, ◌≡◌, refl, sym, ap, ◌∙◌, subst, inl, inr, Bool, true,
  false, Option, some, [], ◌∷◌, ◌++◌, append-nil, append_assoc, All, All-append, arith, ltb, length,
  Text, Bool-cases, is_space, lstrip, rstrip, strip, digits, decimal, read_digits, count_digits,
  max_str_digits, unsigned, int_of,
}
use telnyx_onset.Agent.Response.{mark_name}
use telnyx_onset.Server.{parse_speak_generation}

-- The digits of ASCII, as code points.
abbrev IsDigit : ℕ → Type 0
IsDigit c = (b'0' ≤ c) × (c < b'0' + 10)

digits-IsDigit : (f n : ℕ) → n < f → All IsDigit (digits f n)
unfolding digits
digits-IsDigit zero n h = tt
digits-IsDigit (suc f) n h = elim (Bool-cases (ltb n 10)) [
  | inl e ↦ rw e ((omega arith, ground arith), tt)
  | inr e ↦ rw e (
      All-append IsDigit (digits f (n / 10)) ((b'0' + n % 10) ∷ [])
        (digits-IsDigit f (n / 10) (ground arith)) ((omega arith, omega arith), tt))
]

digit-solid : (c : ℕ) → IsDigit c → is_space c ≡ false
unfolding is_space
digit-solid c (a, b) = ground arith

abbrev Solid : ℕ → Type 0
Solid c = is_space c ≡ false

rstrip-Solid : (s : Text) → All Solid s → rstrip s ≡ s
unfolding rstrip
rstrip-Solid [] h = refl
rstrip-Solid (c ∷ []) (h, _) = rw h refl
rstrip-Solid (c ∷ d ∷ s) (h, hs) = rw (rstrip-Solid (d ∷ s) hs) refl

lstrip-Solid : (s : Text) → All Solid s → lstrip s ≡ s
unfolding lstrip
lstrip-Solid [] h = refl
lstrip-Solid (c ∷ s) (h, hs) = rw h refl

strip-Solid : (s : Text) → All Solid s → strip s ≡ s
unfolding strip
strip-Solid s h = ap rstrip (lstrip-Solid s h) ∙ rstrip-Solid s h

All-Solid : (s : Text) → All IsDigit s → All Solid s
All-Solid [] h = tt
All-Solid (c ∷ s) (h, hs) = (digit-solid c h, All-Solid s hs)

-- A first character that is a digit.
first_digit : (f n : ℕ) → n < f → (c : ℕ) × (cs : Text) × (digits f n ≡ c ∷ cs)
unfolding digits
first_digit zero n h = absurd (omega arith)
first_digit (suc f) n h = elim (Bool-cases (ltb n 10)) [
  | inl e ↦ (b'0' + n, [], rw e refl)
  | inr e ↦
      (let (c, cs, q) = first_digit f (n / 10) (ground arith) in
        (c, cs ++ ((b'0' + n % 10) ∷ []), rw (e, q) refl))
]

module _ (digit : ℕ → Option ℕ) (ascii : (d : ℕ) → d < 10 → digit (b'0' + d) ≡ some d) where
  read_one :
      (d v : ℕ) (rest : Text) (after : Bool)
      → d < 10
      → read_digits digit ((b'0' + d) ∷ rest) after v ≡ read_digits digit rest true (v * 10 + d)
  unfolding read_digits
  read_one d v rest after h = rw (ascii d h, read_digits) refl

  read_digits-digits :
      (f n v : ℕ) (rest : Text) (after : Bool)
      → n < f
      → (w : ℕ) × (read_digits digit (digits f n ++ rest) after v
          ≡ read_digits digit rest true (v * w + n))
  unfolding digits
  read_digits-digits zero n v rest after h = absurd (omega arith)
  read_digits-digits (suc f) n v rest after h = elim (Bool-cases (ltb n 10)) [
    | inl e ↦ (10, rw e (read_one n v rest after (ground arith)))
    | inr e ↦
        (let last = b'0' + n % 10 in
          let (w, q) = read_digits-digits f (n / 10) v (last ∷ rest) after (ground arith) in
          let assoc = append_assoc (digits f (n / 10)) (last ∷ []) rest in
          let total : (v * w + n / 10) * 10 + n % 10 ≡ v * (w * 10) + n = grind arith in
          (
            w * 10,
            rw e (
                ap (λ s. read_digits digit s after v) assoc
                ∙ q
                ∙ read_one (n % 10) (v * w + n / 10) rest true (omega arith)
                ∙ ap (read_digits digit rest true) total),
          ))
  ]

  count_digits-le-length : (s : Text) → count_digits digit s ≤ length s
  count_digits-le-length [] = omega arith
  count_digits-le-length (c ∷ s) = let h = count_digits-le-length s in ground arith

  unsigned-decimal :
      (n : ℕ) → length (decimal n) ≤ max_str_digits → unsigned digit (decimal n) ≡ some n
  unfolding decimal read_digits
  unsigned-decimal n h =
      let (w, q) = read_digits-digits (n + 1) n 0 [] false (omega arith) in
      let few = count_digits-le-length (decimal n) in
      let total : 0 * w + n ≡ n = grind arith in
      let read : read_digits digit (decimal n) false 0 ≡ some n =
        ap (λ s. read_digits digit s false 0) (sym (append-nil (decimal n))) ∙ q ∙ ap some total in
      ground arith

  -- `int` without the trimming, at a text that starts with a digit.
  int_of-digit :
      (s : Text) (c : ℕ) (cs : Text)
      → All IsDigit s
      → s ≡ c ∷ cs
      → int_of digit s ≡ unsigned digit s
  unfolding int_of
  int_of-digit s c cs h e =
      let trimmed = strip-Solid s (All-Solid s h) in
      let d : IsDigit c = (subst (All IsDigit) e h).0 in rw (int_of, trimmed, e) (ground arith)

  -- `int` reads back what `str` writes, up to the digits that `int` takes.
  int_of-decimal : (n : ℕ) → length (decimal n) ≤ max_str_digits → int_of digit (decimal n) ≡ some n
  unfolding decimal
  int_of-decimal n h =
      let (c, cs, e) = first_digit (n + 1) n (omega arith) in
      int_of-digit (decimal n) c cs (digits-IsDigit (n + 1) n (omega arith)) e
      ∙ unsigned-decimal n h

  -- The name of the mark of a speak is read back as its generation, if `int` knows the ASCII digits and
  -- the generation has no more digits than `int` takes.
  pub parse_speak_generation-mark_name :
      (n : ℕ)
      → length (decimal n) ≤ max_str_digits
      → parse_speak_generation digit (mark_name n) ≡ some n
  unfolding parse_speak_generation mark_name
  parse_speak_generation-mark_name n h = int_of-decimal n h
