-- ===== src/Audio/Source.antt =====
-- The byte source of onset/audio.py.
use telnyx_onset.Prelude.{
  ℕ, zero, suc, ◌+◌, ◌≤◌, ◌<◌, ◌≡◌, refl, sym, ap, ◌∙◌, ◌≢◌, ◌↔◌, ◌⊎◌, inl, inr, Bool, true, false,
  ◌||◌, Option, none, some, List, [], ◌∷◌, ◌++◌, append-nil, append_assoc, arith, if◌then◌else◌,
  length, length-take, leb, leb→le, leb→lt, Bool-cases, take, drop, length-append, take-append,
  drop-append,
}
use telnyx_onset.Audio.Frames.{drop_all}
use telnyx_onset.Audio.{Bytes, QueueStreamSource, fill, take_bytes, read}

-- The bytes that the queue holds before its end mark.
abbrev pub queued : List (Option Bytes) → Bytes
queued [] = []
queued (none ∷ feed) = []
queued (some item ∷ feed) = item ++ queued feed

-- All bytes that are still to be read.
abbrev pub remaining : QueueStreamSource → Bytes
remaining s = s.buf ++ (if s.eof then [] else queued s.feed)

fill-remaining :
    (n : ℕ) (feed : List (Option Bytes)) (buf : Bytes) (eof : Bool) (s : QueueStreamSource)
    → fill n feed buf eof ≡ some s
    → (remaining s ≡ buf ++ (if eof then [] else queued feed))
      × ((n ≤ length s.buf) ⊎ (s.eof ≡ true))
unfolding fill
fill-remaining n [] buf eof s h = ground arith
fill-remaining n (none ∷ feed) buf eof s h = ground (arith, fill-remaining n feed buf true s)
fill-remaining n (some item ∷ feed) buf eof s h =
    ground (arith, fill-remaining n feed (buf ++ item) eof s, append_assoc buf item (queued feed))

take-fill :
    (n : ℕ) (s : QueueStreamSource)
    → (n ≤ length s.buf) ⊎ (s.eof ≡ true)
    → (take n s.buf ≡ take n (remaining s))
      × (drop n s.buf ++ (if s.eof then [] else queued s.feed) ≡ drop n (remaining s))
take-fill n s (inl h) = (sym (take-append n s.buf _ h), sym (drop-append n s.buf _ h))
take-fill n s (inr e) = rw (e, append-nil) (refl, append-nil (drop n s.buf))

take-nil : (n : ℕ) → (take {A = ℕ} n [] ≡ []) × (drop {A = ℕ} n [] ≡ [])
take-nil zero = (refl, refl)
take-nil (suc n) = (refl, refl)

take_bytes-take :
    (n : ℕ) (s : QueueStreamSource)
    → ((take_bytes n s).1 ≡ take n s.buf)
      × (remaining (take_bytes n s).0 ≡ drop n s.buf ++ (if s.eof then [] else queued s.feed))
unfolding take_bytes
take_bytes-take n s = ground (arith, take-nil n)

-- Whether the queue holds the mark of the stream's end.
abbrev pub has_end : List (Option Bytes) → Bool
has_end [] = false
has_end (none ∷ feed) = true
has_end (some item ∷ feed) = has_end feed

-- The loop knows of an end only from the mark of it.
fill-eof :
    (n : ℕ) (feed : List (Option Bytes)) (buf : Bytes) (eof : Bool) (s : QueueStreamSource)
    → fill n feed buf eof ≡ some s
    → s.eof ≡ true
    → (eof || has_end feed) ≡ true
unfolding fill
fill-eof n [] buf eof s h e = ground arith
fill-eof n (none ∷ feed) buf eof s h e = ground arith
fill-eof n (some item ∷ feed) buf eof s h e = ground (arith, fill-eof n feed (buf ++ item) eof s)

take_bytes-eof : (n : ℕ) (s : QueueStreamSource) → (take_bytes n s).0.eof ≡ s.eof
unfolding take_bytes
take_bytes-eof n s = ground arith

length-take_bytes :
    (n : ℕ) (s : QueueStreamSource) → n ≤ length s.buf → length (take_bytes n s).1 ≡ n
length-take_bytes n s h = ap length (take_bytes-take n s).0 ∙ length-take n s.buf ∙ omega arith

-- What is taken of a buffer on which the loop stopped is whole, or it is all that was left.
take_bytes-short :
    (n : ℕ) (s : QueueStreamSource)
    → (n ≤ length s.buf) ⊎ (s.eof ≡ true)
    → (length (take_bytes n s).1 ≡ n)
      ⊎ (((take_bytes n s).0.eof ≡ true) × (remaining (take_bytes n s).0 ≡ []))
take_bytes-short n s (inl h) = inl (length-take_bytes n s h)
take_bytes-short n s (inr e) = elim (Bool-cases (leb n (length s.buf))) [
  | inl q ↦ inl (length-take_bytes n s (leb→le n (length s.buf) q))
  | inr q ↦ inr (
    take_bytes-eof n s ∙ e,
    (take_bytes-take n s).1
        ∙ ap (λ b. drop n s.buf ++ (if b then [] else queued s.feed)) e
        ∙ append-nil (drop n s.buf)
        ∙ drop_all n s.buf (let l = leb→lt n (length s.buf) q in omega arith),
  )
]

-- A read that returns takes the next bytes in order, as many as asked for if there are so many left,
-- and leaves the others. It returns fewer only at the end of the stream: the mark of the end was met
-- before or stands in the queue, and nothing is left behind it.
pub read-remaining :
    (n : ℕ) (s : QueueStreamSource) {s' : QueueStreamSource} {out : Bytes}
    → read n s ≡ some (s', out)
    → (out ≡ take n (remaining s))
      × (remaining s' ≡ drop n (remaining s))
      × ((length out ≡ n)
          ⊎ (((s.eof || has_end s.feed) ≡ true) × (s'.eof ≡ true) × (remaining s' ≡ [])))
unfolding read
read-remaining n s {s'} {out} h = go (fill n s.feed s.buf s.eof) refl
  where
    go :
        (o : Option QueueStreamSource)
        → fill n s.feed s.buf s.eof ≡ o
        → (out ≡ take n (remaining s))
          × (remaining s' ≡ drop n (remaining s))
          × ((length out ≡ n)
              ⊎ (((s.eof || has_end s.feed) ≡ true) × (s'.eof ≡ true) × (remaining s' ≡ [])))
    go none e = ground (arith, h, e)
    go (some t) e = ground (
      arith,
      h,
      e,
      take_bytes-take n t,
      take_bytes-eof n t,
      fill-remaining n s.feed s.buf s.eof t,
      fill-eof n s.feed s.buf s.eof t e,
      take-fill n t,
      take_bytes-short n t,
    )

-- The loop that goes on waiting holds too few bytes with all that is queued, and has met no end.
abbrev Starved : ℕ → List (Option Bytes) → Bytes → Bool → Type 0
Starved n feed buf eof =
    (eof ≡ false) × (has_end feed ≡ false) × (length buf + length (queued feed) < n)

fill-ended : (n : ℕ) (feed : List (Option Bytes)) (buf : Bytes) → fill n feed buf true ≢ none
unfolding fill
fill-ended n [] buf h = ground arith
fill-ended n (none ∷ feed) buf h = ground arith
fill-ended n (some item ∷ feed) buf h = ground arith

fill_blocks :
    (n : ℕ) (feed : List (Option Bytes)) (buf : Bytes) (eof : Bool)
    → (fill n feed buf eof ≡ none) ↔ Starved n feed buf eof
unfolding fill
fill_blocks n [] buf eof = ground arith
fill_blocks n (none ∷ feed) buf eof = ground (arith, fill-ended n feed buf)
fill_blocks n (some item ∷ feed) buf eof = ground (
  arith,
  fill_blocks n feed (buf ++ item) eof,
  length-append buf item,
  length-append item (queued feed),
)

-- A read blocks exactly when the end was not met, is not queued, and the bytes left are fewer than
-- asked for.
pub read_blocks :
    (n : ℕ) (s : QueueStreamSource)
    → (read n s ≡ none) ↔ ((s.eof ≡ false) × (has_end s.feed ≡ false) × (length (remaining s) < n))
unfolding read
read_blocks n s =
    ground (arith, fill_blocks n s.feed s.buf s.eof, length-append s.buf (queued s.feed))
