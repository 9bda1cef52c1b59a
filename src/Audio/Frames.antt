-- ===== src/Audio/Frames.antt =====
-- The frames of `frame_pcm16` in onset/audio.py.
use telnyx_onset.Prelude.{
  ℕ, zero, suc, ◌-◌, ◌≤◌, ◌<◌, ◌≡◌, refl, ap, ◌≢◌, some, List, [], ◌∷◌, ◌++◌, append-nil,
  append_assoc, arith, length, take, drop, replicate, concat, All, length-append, take-append-drop,
  length-take, length-drop, length-replicate,
}
use native.Mathlib.Decide.{dec_le}
use telnyx_onset.Audio.{Bytes, pad, frames_from, frame_pcm16}

-- Frames of the right size, which make up the input and silence that fills less than one frame.
pub record Framed (n : ℕ) (pcm : Bytes) (frames : List Bytes) : Type 0 where
  pub sized : All (λ f. length f ≡ n) frames
  pub padding : ℕ
  pub short : padding < n
  pub whole : concat frames ≡ pcm ++ replicate padding 0

pub frames_from-nil : (fuel n : ℕ) → frames_from fuel n [] ≡ []
unfolding frames_from
frames_from-nil zero n = refl
frames_from-nil (suc fuel) n = refl

pub drop_all {ℓ} : {A : Type ℓ} (n : ℕ) (xs : List A) → length xs ≤ n → drop n xs ≡ []
drop_all zero [] h = refl
drop_all zero (x ∷ xs) h = absurd (omega arith)
drop_all (suc n) [] h = refl
drop_all (suc n) (x ∷ xs) h = drop_all n xs (omega arith)

pub take_all {ℓ} : {A : Type ℓ} (n : ℕ) (xs : List A) → length xs ≤ n → take n xs ≡ xs
take_all zero [] h = refl
take_all zero (x ∷ xs) h = absurd (omega arith)
take_all (suc n) [] h = refl
take_all (suc n) (x ∷ xs) h = ap (◌∷◌ x) (take_all n xs (omega arith))

pub pad-take : (n : ℕ) (l : Bytes) → n ≤ length l → pad n (take n l) ≡ take n l
unfolding pad
pad-take n l h = ground (arith, length-take n l)

pub pad-short :
    (n : ℕ) (l : Bytes) → length l < n → pad n (take n l) ≡ l ++ replicate (n - length l) 0
unfolding pad
pad-short n l h = rw (take_all n l (omega arith)) (ground arith)

-- One round of the loop: a whole frame in front of the others, or the last frame filled up.
Framed-whole :
    (n : ℕ) (l : Bytes) (frames : List Bytes)
    → n ≤ length l
    → Framed n (drop n l) frames
    → Framed n l (pad n (take n l) ∷ frames)
Framed-whole n l frames h ih = record {
  sized = (rw (pad-take n l h) (omega (arith, length-take n l)), ih.sized);
  padding = ih.padding;
  short = ih.short;
  whole = rw (
    pad-take n l h,
    ih.whole,
    ← append_assoc (take n l) (drop n l) (replicate ih.padding 0),
    take-append-drop n l,
  );
}

Framed-last : (n : ℕ) (l : Bytes) → l ≢ [] → length l < n → Framed n l (pad n (take n l) ∷ [])
Framed-last n l ne h = record {
  sized = (
    rw (pad-short n l h) (
        omega (
          arith,
          length-append l (replicate (n - length l) 0),
          length-replicate {0} {A = ℕ} (n - length l) 0,
        )),
    tt,
  );
  padding = n - length l;
  short = nonempty l ne h;
  whole = rw (pad-short n l h) (append-nil (l ++ replicate (n - length l) 0));
}
  where
    nonempty : (l : Bytes) → l ≢ [] → length l < n → n - length l < n
    nonempty [] ne h = absurd (ne refl)
    nonempty (x ∷ l) ne h = omega arith

frames_from-Framed :
    (fuel n : ℕ) (pcm : Bytes) → n ≢ 0 → length pcm ≤ fuel → Framed n pcm (frames_from fuel n pcm)
unfolding frames_from
frames_from-Framed zero n [] h le = record {
  sized = tt;
  padding = 0;
  short = omega arith;
  whole = refl;
}
frames_from-Framed zero n (x ∷ xs) h le = absurd (omega arith)
frames_from-Framed (suc fuel) n [] h le = record {
  sized = tt;
  padding = 0;
  short = omega arith;
  whole = refl;
}
frames_from-Framed (suc fuel) n (x ∷ xs) h le = elim (dec_le n (length (x ∷ xs))) [
  | yes p ↦
      Framed-whole n (x ∷ xs) (frames_from fuel n (drop n (x ∷ xs))) p
        (frames_from-Framed fuel n (drop n (x ∷ xs)) h (omega (arith, length-drop n (x ∷ xs))))
  | no p ↦
      rw (drop_all n (x ∷ xs) (omega arith), frames_from-nil fuel n)
        (Framed-last n (x ∷ xs) (λ e. cc) (omega arith))
]

-- Slicing succeeds for every frame size but 0, into frames of exactly that size; in order they are
-- the input followed by silence that does not fill a frame.
pub frame_pcm16-Framed :
    (pcm : Bytes) (n : ℕ)
    → n ≢ 0
    → (frames : List Bytes) × (frame_pcm16 pcm n ≡ some frames) × Framed n pcm frames
unfolding frame_pcm16
frame_pcm16-Framed pcm n h = (
  frames_from (length pcm) n pcm,
  ground arith,
  frames_from-Framed (length pcm) n pcm h (omega arith),
)
