-- ===== src/Audio/Stream.antt =====
-- Streamed frames in onset/audio.py against sliced ones.
use telnyx_onset.Prelude.{
  ℕ, zero, suc, ◌-◌, ◌≤◌, ◌<◌, ◌≡◌, refl, sym, ap, ap₂, ◌∙◌, ◌≢◌, List, [], ◌∷◌, ◌++◌, append-nil,
  append_assoc, arith, le→leb, lt→leb, length, take, drop, replicate, concat, length-append,
  length-drop, take-append, drop-append,
}
use native.Mathlib.Decide.{dec_le}
use telnyx_onset.Audio.Frames.{pad-take, pad-short, frames_from-nil, drop_all}
use telnyx_onset.Audio.{
  Bytes, frames_from, frame_pcm16, Pcm16Reframer, carve, push, flush, tail_frame, reframe_all,
  stream_mp3_frames,
}

-- Enough fuel is as good as any other.
carve_fuel :
    (f g n : ℕ) (b : Bytes) → n ≢ 0 → length b ≤ f → length b ≤ g → carve f n b ≡ carve g n b
unfolding carve
carve_fuel zero zero n b h p q = refl
carve_fuel zero (suc g) n [] h p q = ground arith
carve_fuel zero (suc g) n (x ∷ b) h p q = absurd (omega arith)
carve_fuel (suc f) zero n [] h p q = ground arith
carve_fuel (suc f) zero n (x ∷ b) h p q = absurd (omega arith)
carve_fuel (suc f) (suc g) n b h p q = ground (arith, carve_fuel f g n (drop n b), length-drop n b)

frames_fuel :
    (f g n : ℕ) (b : Bytes)
    → n ≢ 0
    → length b ≤ f
    → length b ≤ g
    → frames_from f n b ≡ frames_from g n b
unfolding frames_from
frames_fuel zero zero n b h p q = refl
frames_fuel zero (suc g) n [] h p q = refl
frames_fuel zero (suc g) n (x ∷ b) h p q = absurd (omega arith)
frames_fuel (suc f) zero n [] h p q = refl
frames_fuel (suc f) zero n (x ∷ b) h p q = absurd (omega arith)
frames_fuel (suc f) (suc g) n b h p q =
    ground (arith, frames_fuel f g n (drop n b), length-drop n b)

abbrev all_frames : ℕ → Bytes → List Bytes
all_frames n b = frames_from (length b) n b

all_frames-take :
    (n : ℕ) (l : Bytes) → n ≢ 0 → n ≤ length l → all_frames n l ≡ take n l ∷ all_frames n (drop n l)
unfolding frames_from
all_frames-take n [] h q = absurd (omega arith)
all_frames-take n (x ∷ xs) h q = rw (pad-take n (x ∷ xs) q) (
    ap (◌∷◌ (take n (x ∷ xs))) (
      frames_fuel (length xs) (length (drop n (x ∷ xs))) n (drop n (x ∷ xs)) h
        (omega (arith, length-drop n (x ∷ xs))) (omega arith)))

all_frames-whole :
    (n : ℕ) (b more : Bytes)
    → n ≢ 0
    → n ≤ length b
    → all_frames n (b ++ more) ≡ take n b ∷ all_frames n (drop n b ++ more)
all_frames-whole n b more h q =
    all_frames-take n (b ++ more) h (omega (arith, length-append b more))
    ∙ ap₂ (λ t d. t ∷ all_frames n d) (take-append n b more q) (drop-append n b more q)

-- What is carved off does not change the frames of the whole.
carve-frames :
    (f n : ℕ) (b more : Bytes)
    → n ≢ 0
    → length b ≤ f
    → (carve f n b).0 ++ all_frames n ((carve f n b).1 ++ more) ≡ all_frames n (b ++ more)
unfolding carve
carve-frames zero n b more h p = refl
carve-frames (suc f) n b more h p = elim (dec_le n (length b)) [
  | yes q ↦
      rw
        (le→leb n (length b) q, carve-frames f n (drop n b) more h (omega (arith, length-drop n b)))
        (sym (all_frames-whole n b more h q))
  | no q ↦ rw (lt→leb n (length b) (omega arith)) refl
]

length-carve : (f n : ℕ) (b : Bytes) → n ≢ 0 → length b ≤ f → length (carve f n b).1 < n
unfolding carve
length-carve zero n b h p = omega arith
length-carve (suc f) n b h p = ground (arith, length-carve f n (drop n b), length-drop n b)

all_frames-short :
    (n : ℕ) (l : Bytes)
    → l ≢ []
    → length l < n
    → all_frames n l ≡ (l ++ replicate (n - length l) 0) ∷ []
unfolding frames_from
all_frames-short n [] ne h = absurd (ne refl)
all_frames-short n (x ∷ xs) ne h =
    rw (pad-short n (x ∷ xs) h, drop_all n (x ∷ xs) (omega arith), frames_from-nil (length xs) n)

flush-frames :
    (r : Pcm16Reframer) (n : ℕ)
    → r.frame_bytes ≡ n
    → length r.buf < n
    → tail_frame (flush r).1 ≡ all_frames n r.buf
unfolding flush frames_from
flush-frames r n e h = ground (arith, all_frames-short n r.buf)

reframe_all-frames :
    (r : Pcm16Reframer) (chunks : List Bytes)
    → r.frame_bytes ≢ 0
    → length r.buf < r.frame_bytes
    → reframe_all r chunks ≡ all_frames r.frame_bytes (r.buf ++ concat chunks)
unfolding reframe_all
reframe_all-frames r [] ne h =
    flush-frames r r.frame_bytes refl h ∙ ap (all_frames r.frame_bytes) (sym (append-nil r.buf))
reframe_all-frames r (c ∷ chunks) ne h =
    let b = r.buf ++ c in
    ap (λ t. (push r c).1 ++ t)
      (reframe_all-frames (push r c).0 chunks ne
        (length-carve (length b) r.frame_bytes b ne (omega arith)))
    ∙ carve-frames (length b) r.frame_bytes b (concat chunks) ne (omega arith)
    ∙ ap (all_frames r.frame_bytes) (append_assoc r.buf c (concat chunks))

-- Decoded chunks of any sizes, streamed through the reframer, give the frames that slicing their
-- concatenation gives; both raise for the frame size 0.
pub stream_mp3_frames-eq-frame_pcm16 :
    (decoded : List Bytes) (n : ℕ) → stream_mp3_frames decoded n ≡ frame_pcm16 (concat decoded) n
unfolding stream_mp3_frames frame_pcm16
stream_mp3_frames-eq-frame_pcm16 decoded n =
    ground (arith, reframe_all-frames (record { frame_bytes = n; buf = [] }) decoded)
