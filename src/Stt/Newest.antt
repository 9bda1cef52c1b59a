-- ===== src/Stt/Newest.antt =====
-- The frames that the queue of onset/stt.py keeps.
use telnyx_onset.Prelude.{
  ℕ, zero, suc, ◌+◌, ◌-◌, ◌≤◌, ◌<◌, ◌≡◌, ◌≢◌, refl, sym, ap, ◌∙◌, subst, inl, inr, false, List, [],
  ◌∷◌, ◌++◌, append-nil, append_assoc, arith, leb, Bool-cases, length, drop, drop-append,
  length-drop, leb→le, leb→lt,
}
use telnyx_onset.Audio.{Bytes}
use telnyx_onset.Stt.{SttClient, new_client, put_nowait, drop_first, feed}

abbrev pub feed_all : List Bytes → SttClient → SttClient
feed_all [] s = s
feed_all (f ∷ fs) s = feed_all fs (feed f s)

-- The newest frames, `k` at most.
abbrev pub newest : ℕ → List Bytes → List Bytes
newest k fs = drop (length fs - k) fs

-- An open client with room for `k` frames that was given `fs`.
record Keeps (k : ℕ) (fs : List Bytes) (s : SttClient) : Type 0 where
  size : s.feed_max_frames ≡ k
  is_open : s.closed ≡ false
  queue : s.send_queue ≡ newest k fs

drop_first-drop : (n : ℕ) (fs : List Bytes) → drop_first (drop n fs) ≡ drop (suc n) fs
drop_first-drop zero [] = refl
drop_first-drop zero (f ∷ fs) = refl
drop_first-drop (suc n) [] = refl
drop_first-drop (suc n) (f ∷ fs) = drop_first-drop n fs

length-snoc : (fs : List Bytes) (f : Bytes) → length (fs ++ (f ∷ [])) ≡ length fs + 1
length-snoc [] f = omega arith
length-snoc (x ∷ fs) f = omega (arith, length-snoc fs f)

-- A full queue gives up its oldest frame.
newest-full :
    (k : ℕ) (fs : List Bytes) (f : Bytes)
    → k ≢ 0
    → k ≤ length fs
    → newest k (fs ++ (f ∷ [])) ≡ drop_first (newest k fs) ++ (f ∷ [])
newest-full k fs f ne h =
    let n = length-snoc fs f in
    let e : length (fs ++ (f ∷ [])) - k ≡ suc (length fs - k) = omega arith in
    ap (λ i. drop i (fs ++ (f ∷ []))) e
    ∙ drop-append (suc (length fs - k)) fs (f ∷ []) (omega arith)
    ∙ ap (λ q. q ++ (f ∷ [])) (sym (drop_first-drop (length fs - k) fs))

newest-room :
    (k : ℕ) (fs : List Bytes) (f : Bytes)
    → length fs < k
    → newest k (fs ++ (f ∷ [])) ≡ newest k fs ++ (f ∷ [])
newest-room k fs f h =
    let n = length-snoc fs f in
    let e : length (fs ++ (f ∷ [])) - k ≡ 0 = omega arith in
    let e' : length fs - k ≡ 0 = omega arith in
    ap (λ i. drop i (fs ++ (f ∷ []))) e ∙ ap (λ i. drop i fs ++ (f ∷ [])) (sym e')

length-drop_first : (q : List Bytes) → length (drop_first q) ≡ length q - 1
length-drop_first [] = omega arith
length-drop_first (x ∷ q) = omega arith

feed_full :
    (f : Bytes) (s : SttClient)
    → s.closed ≡ false
    → s.feed_max_frames ≢ 0
    → length s.send_queue ≡ s.feed_max_frames
    → feed f s ≡ record s { send_queue = drop_first s.send_queue ++ (f ∷ []) }
unfolding feed put_nowait
feed_full f s c n e = let d = length-drop_first s.send_queue in ground arith

feed_room :
    (f : Bytes) (s : SttClient)
    → s.closed ≡ false
    → length s.send_queue < s.feed_max_frames
    → feed f s ≡ record s { send_queue = s.send_queue ++ (f ∷ []) }
unfolding feed put_nowait
feed_room f s c e = ground arith

feed-Keeps :
    (k : ℕ) (fs : List Bytes) (f : Bytes) (s : SttClient)
    → k ≢ 0
    → Keeps k fs s
    → Keeps k (fs ++ (f ∷ [])) (feed f s)
feed-Keeps k fs f s ne h =
    let m = length-drop (length fs - k) fs in
    let q : length s.send_queue ≡ length (newest k fs) = ap length h.queue in
    let b = h.size in
    elim (Bool-cases (leb k (length fs))) [
      | inl e ↦
          (let le = leb→le k (length fs) e in
            let step = feed_full f s h.is_open (λ z. ne (sym b ∙ z)) (omega arith) in
            subst (Keeps k (fs ++ (f ∷ []))) (sym step) (record {
              size = b;
              is_open = h.is_open;
              queue = ap (λ x. drop_first x ++ (f ∷ [])) h.queue ∙ sym (newest-full k fs f ne le);
            }))
      | inr e ↦
          (let lt = leb→lt k (length fs) e in
            let step = feed_room f s h.is_open (omega arith) in
            subst (Keeps k (fs ++ (f ∷ []))) (sym step) (record {
              size = b;
              is_open = h.is_open;
              queue = ap (λ x. x ++ (f ∷ [])) h.queue ∙ sym (newest-room k fs f lt);
            }))
    ]

feed_all-Keeps :
    (k : ℕ) (done fs : List Bytes) (s : SttClient)
    → k ≢ 0
    → Keeps k done s
    → Keeps k (done ++ fs) (feed_all fs s)
feed_all-Keeps k done [] s ne h = subst (λ x. Keeps k x s) (sym (append-nil done)) h
feed_all-Keeps k done (f ∷ fs) s ne h =
    subst (λ x. Keeps k x (feed_all fs (feed f s))) (append_assoc done (f ∷ []) fs)
      (feed_all-Keeps k (done ++ (f ∷ [])) fs (feed f s) ne (feed-Keeps k done f s ne h))

-- While the socket takes nothing, the queue holds the newest of the frames fed to an open client, in
-- their order: all of them, or as many as it has room for, if its size is not 0.
pub feed_all-newest :
    (k : ℕ) (fs : List Bytes) → k ≢ 0 → (feed_all fs (new_client k)).send_queue ≡ newest k fs
unfolding new_client
feed_all-newest k fs ne =
    (feed_all-Keeps k [] fs (new_client k) ne
      (record { size = refl; is_open = refl; queue = none_yet (0 - k) })).queue
  where
    none_yet : (n : ℕ) → ◌≡◌ {A = List Bytes} [] (drop n [])
    none_yet zero = refl
    none_yet (suc n) = refl
