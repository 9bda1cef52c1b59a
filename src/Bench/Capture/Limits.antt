-- ===== src/Bench/Capture/Limits.antt =====
-- The hard limits of bench/media_capture.py.
use telnyx_onset.Prelude.{
  ℕ, ◌+◌, ◌≤◌, ◌<◌, ◌≡◌, refl, sym, ap, ◌∙◌, subst, inl, inr, Bool, true, false, Option, none, some,
  List, [], ◌∷◌, ◌++◌, map, append-nil, append_assoc, arith, ltb, leb, if◌then◌else◌, ltb→le,
  leb→lt, Bool-cases, length, length-append, Text, text_eq, text_eq→eq, text_eq_refl,
}
use telnyx_onset.Audio.{Bytes}
use telnyx_onset.Bench.Capture.{
  MediaFrame, media, BoundedCapture, empty_capture, new_capture, observe_frame, lookup, extend,
  append_to, append,
}

-- The bytes of the frames of a track, in the order of the frames.
abbrev pub pcm_of : Text → List MediaFrame → Bytes
pcm_of k [] = []
pcm_of k (f ∷ fs) = let rest = pcm_of k fs in if text_eq f.track k then f.pcm16 ++ rest else rest

pcm_of-append :
    (k : Text) (fs : List MediaFrame) (f : MediaFrame)
    → pcm_of k (fs ++ (f ∷ [])) ≡ pcm_of k fs ++ (if text_eq f.track k then f.pcm16 else [])
pcm_of-append k [] f = elim (Bool-cases (text_eq f.track k)) [
  | inl e ↦ let z = append-nil f.pcm16 in ground arith
  | inr e ↦ ground arith
]
pcm_of-append k (g ∷ gs) f =
    let h = pcm_of-append k gs f in
    elim (Bool-cases (text_eq g.track k)) [
      | inl e ↦
          let z = append_assoc g.pcm16 (pcm_of k gs) (if text_eq f.track k then f.pcm16 else []) in
          ground arith
      | inr e ↦ ground arith
    ]

-- A track that the capture has keeps some PCM, within the limit.
abbrev pub Slot : ℕ → Bytes → Option Bytes → Type 0
Slot limit pcm none = Unit
Slot limit pcm (some v) = (v ≡ pcm) × (length v ≤ limit)

-- Every track holds the PCM of its frames and no more than the limit, and the rows are within theirs.
pub record Fits (c : BoundedCapture) : Type 0 where
  pub slots : (k : Text) → Slot c.maximum (pcm_of k c.frames) (lookup k c.tracks)
  pub rows : length c.frames ≤ c.max_rows

extended : Bool → Bytes → Option Bytes → Option Bytes
extended b pcm none = none
extended b pcm (some v) = some (if b then v ++ pcm else v)

text_eq_trans : (a b c : Text) → text_eq a b ≡ true → text_eq a c ≡ text_eq b c
text_eq_trans a b c e = ap (λ x. text_eq x c) (text_eq→eq a b e)

extended-false : (pcm : Bytes) (o : Option Bytes) → extended false pcm o ≡ o
unfolding extended
extended-false pcm none = refl
extended-false pcm (some v) = refl

text_eq-other : (a b c : Text) → text_eq a b ≡ false → text_eq a c ≡ true → text_eq b c ≡ false
text_eq-other a b c n e = elim (Bool-cases (text_eq b c)) [
  | inl f ↦
      let q : text_eq a b ≡ true =
        subst (λ x. text_eq a x ≡ true) (text_eq→eq a c e ∙ sym (text_eq→eq b c f))
          (text_eq_refl a) in
      absurd (ground arith)
  | inr f ↦ f
]

lookup-extend :
    (k j : Text) (pcm : Bytes) (m : List (Text × Bytes))
    → lookup j (extend k pcm m) ≡ extended (text_eq k j) pcm (lookup j m)
unfolding extended
lookup-extend k j pcm [] = refl
lookup-extend k j pcm ((k', v) ∷ rest) =
    let h = lookup-extend k j pcm rest in
    elim (Bool-cases (text_eq k' k)) [
      | inl e ↦
          let t = text_eq_trans k' k j e in
          let f = extended-false pcm (lookup j rest) in
          elim (Bool-cases (text_eq k' j)) [ inl q ↦ ground arith | inr q ↦ ground arith ]
      | inr e ↦ elim (Bool-cases (text_eq k' j)) [
        | inl q ↦ let o = text_eq-other k' k j e q in ground arith
        | inr q ↦ ground arith
      ]
    ]

Slot-extended :
    (limit : ℕ) (k j : Text) (fs : List MediaFrame) (f : MediaFrame) (target : Bytes)
    (o : Option Bytes)
    → (text_eq k j ≡ true → o ≡ some target)
    → f.track ≡ k
    → length target + length f.pcm16 ≤ limit
    → Slot limit (pcm_of j fs) o
    → Slot limit (pcm_of j (fs ++ (f ∷ []))) (extended (text_eq k j) f.pcm16 o)
unfolding extended
Slot-extended limit k j fs f target none hit track room h = tt
Slot-extended limit k j fs f target (some v) hit track room (e, l) =
    let a = pcm_of-append j fs f in
    let n = length-append v f.pcm16 in
    let same : text_eq f.track j ≡ text_eq k j = ap (λ x. text_eq x j) track in
    let z = append-nil (pcm_of j fs) in
    elim (Bool-cases (text_eq k j)) [
      | inl q ↦ let w = hit q in (ground arith, ground arith)
      | inr q ↦ (ground arith, ground arith)
    ]

append_to-Fits :
    (o : Option Bytes) (f : MediaFrame) (c : BoundedCapture)
    → lookup f.track c.tracks ≡ o
    → length c.frames < c.max_rows
    → Fits c
    → Fits (append_to o f c).0
append_to-Fits none f c e r h = h
append_to-Fits (some target) f c e r h =
    elim (Bool-cases (ltb c.maximum (length target + length f.pcm16))) [
      | inl q ↦ let w : (append_to (some target) f c).0 ≡ c = ground arith in subst Fits (sym w) h
      | inr q ↦
          let room : length target + length f.pcm16 ≤ c.maximum =
            ltb→le c.maximum (length target + length f.pcm16) q in
          let w : (append_to (some target) f c).0 ≡ record c {
            tracks = extend f.track f.pcm16 c.tracks;
            frames = c.frames ++ (f ∷ []);
            ordering = observe_frame (media f) c.ordering;
          } =
            ground arith in
          subst Fits (sym w) (record {
            slots = λ k.
                subst (Slot c.maximum (pcm_of k (c.frames ++ (f ∷ []))))
                  (sym (lookup-extend f.track k f.pcm16 c.tracks))
                  (Slot-extended c.maximum f.track k c.frames f target (lookup k c.tracks)
                    (λ q. subst (λ j. lookup j c.tracks ≡ some target) (text_eq→eq f.track k q) e)
                    refl room (h.slots k));
            rows = let n = length-append c.frames (f ∷ []) in omega arith;
          })
    ]

append-Fits : (f : MediaFrame) (c : BoundedCapture) → Fits c → Fits (append f c).0
unfolding append
append-Fits f c h = elim (Bool-cases (leb c.max_rows (length c.frames))) [
  | inl q ↦ let w : (append f c).0 ≡ c = ground arith in subst Fits (sym w) h
  | inr q ↦
      let r : length c.frames < c.max_rows = leb→lt c.max_rows (length c.frames) q in
      let w : append f c ≡ append_to (lookup f.track c.tracks) f c = ground arith in
      subst (λ x. Fits x.0) (sym w) (append_to-Fits (lookup f.track c.tracks) f c refl r h)
]

-- The frames of a call, one after another, with the errors raised dropped.
abbrev pub append_all : List MediaFrame → BoundedCapture → BoundedCapture
append_all [] c = c
append_all (f ∷ fs) c = append_all fs (append f c).0

append_all-Fits : (fs : List MediaFrame) (c : BoundedCapture) → Fits c → Fits (append_all fs c)
append_all-Fits [] c h = h
append_all-Fits (f ∷ fs) c h = append_all-Fits fs (append f c).0 (append-Fits f c h)

nothing : (limit : ℕ) → Slot limit [] (some [])
nothing limit = (refl, omega arith)

empty-Slot :
    (limit : ℕ) (names : List Text) (k : Text) → Slot limit [] (lookup k (map (λ t. (t, [])) names))
empty-Slot limit [] k = tt
empty-Slot limit (n ∷ ns) k = elim (Bool-cases (text_eq n k)) [
  | inl e ↦
      let w : lookup k (map (λ t. (t, [])) (n ∷ ns)) ≡ some [] = ground arith in
      subst (Slot limit []) (sym w) (nothing limit)
  | inr e ↦
      let w : lookup k (map (λ t. (t, [])) (n ∷ ns)) ≡ lookup k (map (λ t. (t, [])) ns) =
        ground arith in
      subst (Slot limit []) (sym w) (empty-Slot limit ns k)
]

-- Whatever frames are appended to a capture that could be opened, refused ones among them, it stays
-- within its limits, and every track that it has holds the PCM of the frames it took for the track, in
-- their order.
pub append_all-bounded :
    (max_bytes max_rows : ℕ) (tracks : List Text) (fs : List MediaFrame) {c : BoundedCapture}
    → new_capture max_bytes max_rows tracks ≡ some c
    → Fits (append_all fs c)
unfolding new_capture empty_capture
append_all-bounded max_bytes max_rows tracks fs {c} opened =
    let e : empty_capture max_bytes max_rows tracks ≡ c = ground arith in
    append_all-Fits fs c
      (subst Fits e (record { slots = empty-Slot max_bytes tracks; rows = omega arith }))
