-- ===== src/Bench/Capture/Order.antt =====
-- The sequencing of a media channel in bench/media_capture.py.
use telnyx_onset.Prelude.{
  ℕ, ◌+◌, ◌≤◌, ◌<◌, ◌≡◌, refl, sym, ap, ◌∙◌, subst, false, Option, none, some, List, [], ◌∷◌, arith,
  All, All-map, Text, text_eq_refl,
}
use telnyx_onset.Bench.Capture.{
  MediaFrame, media, OrderingCounts, OrderingTracker, new_tracker, identity, was_seen, lookup,
  count_sequence, count_chunk, count_timestamp, count_track, observe_sequence, observe_track,
  observe_frame, unresolved,
}

-- The next media frame of a healthy stream.
abbrev pub Follows : MediaFrame → MediaFrame → Type 0
Follows f g =
    (g.track ≡ f.track)
    × (g.sequence_number ≡ f.sequence_number + 1)
    × (g.chunk ≡ f.chunk + 1)
    × (f.timestamp ≤ g.timestamp)

abbrev pub InOrder : MediaFrame → List MediaFrame → Type 0
InOrder f [] = Unit
InOrder f (g ∷ gs) = Follows f g × InOrder g gs

abbrev pub observe_all : List MediaFrame → OrderingTracker → OrderingTracker
observe_all [] t = t
observe_all (f ∷ fs) t = observe_all fs (observe_frame (media f) t)

-- What the tracker knows after a frame of a stream without faults.
record After (f : MediaFrame) (t : OrderingTracker) : Type 0 where
  pub clear : unresolved t ≡ false
  pub sequence : t.last_sequence ≡ some f.sequence_number
  pub track : lookup f.track t.last ≡ some (f.chunk, f.timestamp)
  pub seen : All (λ x. x.1.0 ≤ f.sequence_number) t.seen

unseen :
    (f : MediaFrame) (n : ℕ) (xs : List (Text × (ℕ × (ℕ × ℕ))))
    → n < f.sequence_number
    → All (λ x. x.1.0 ≤ n) xs
    → was_seen (identity f) xs ≡ false
unseen f n [] l h = refl
unseen f n ((t, (s, (c, u))) ∷ xs) l (h, hs) = let rest = unseen f n xs l hs in ground arith

abbrev next : MediaFrame → OrderingTracker → OrderingTracker
next g t = record t {
  last_sequence = some g.sequence_number;
  last = (g.track, (g.chunk, g.timestamp)) ∷ t.last;
  seen = identity g ∷ t.seen;
}

count_sequence-next :
    (n m : ℕ) (last : Option ℕ) (c : OrderingCounts)
    → last ≡ some n
    → m ≡ n + 1
    → count_sequence last m c ≡ c
count_sequence-next n m none c e h = ground arith
count_sequence-next n m (some l) c e h = ground arith

count_track-next :
    (f g : MediaFrame) (last : Option (ℕ × ℕ)) (c : OrderingCounts)
    → last ≡ some (f.chunk, f.timestamp)
    → Follows f g
    → count_track last g c ≡ c
count_track-next f g none c e h = ground arith
count_track-next f g (some (chunk, timestamp)) c e (k, s, d, u) =
    let p : count_chunk chunk g.chunk c ≡ c = ground arith in
    let q : count_timestamp timestamp g.timestamp c ≡ c = ground arith in
    ap (count_timestamp timestamp g.timestamp) p ∙ q

observe_frame-next :
    (f g : MediaFrame) (t : OrderingTracker)
    → Follows f g
    → After f t
    → observe_frame (media g) t ≡ next g t
unfolding observe_frame observe_sequence observe_track
observe_frame-next f g t (k, s, c, u) a =
    let w = unseen g f.sequence_number t.seen (omega arith) a.seen in
    let p =
      count_sequence-next f.sequence_number g.sequence_number t.last_sequence t.counts a.sequence
        s in
    let track = subst (λ x. lookup x t.last ≡ some (f.chunk, f.timestamp)) (sym k) a.track in
    let q = count_track-next f g (lookup g.track t.last) t.counts track (k, s, c, u) in ground arith

next-After : (f g : MediaFrame) (t : OrderingTracker) → Follows f g → After f t → After g (next g t)
unfolding unresolved
next-After f g t (k, s, c, u) a = record {
  clear = a.clear;
  sequence = refl;
  track = let e = text_eq_refl g.track in ground arith;
  seen = (
    omega arith,
    All-map (λ x. x.1.0 ≤ f.sequence_number) (λ x. x.1.0 ≤ g.sequence_number) t.seen
        (λ x h. omega arith) a.seen,
  );
}

run-After :
    (f : MediaFrame) (fs : List MediaFrame) (t : OrderingTracker)
    → InOrder f fs
    → After f t
    → unresolved (observe_all fs t) ≡ false
run-After f [] t h a = a.clear
run-After f (g ∷ gs) t (h, hs) a =
    run-After g gs (observe_frame (media g) t) hs
      (subst (After g) (sym (observe_frame-next f g t h a)) (next-After f g t h a))

-- A channel whose media frames come in order on one track, with sequence numbers and chunks one after
-- another and time stamps that never fall, is never reported as unresolved.
pub observe_all-InOrder :
    (f : MediaFrame) (fs : List MediaFrame)
    → InOrder f fs
    → unresolved (observe_all (f ∷ fs) new_tracker) ≡ false
unfolding observe_frame observe_sequence observe_track unresolved new_tracker
observe_all-InOrder f fs h = run-After f fs (observe_frame (media f) new_tracker) h (record {
  clear = refl;
  sequence = refl;
  track = (let e = text_eq_refl f.track in ground arith);
  seen = (omega arith, tt);
})
