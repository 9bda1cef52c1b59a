-- ===== src/Media/Producer.antt =====
-- One utterance through onset/media.py: its producer, the queue and the pacer, in any interleaving.
use telnyx_onset.Prelude.{
  ℕ, ◌≡◌, refl, sym, ap, ◌∙◌, subst, inl, inr, true, false, ◌&&◌, List, [], ◌∷◌, ◌++◌, append-nil,
  append_assoc, arith, ◌==◌, if◌then◌else◌, Bool-cases, is_empty,
}
use telnyx_onset.Audio.{Bytes}
use telnyx_onset.Media.{
  ItemKind, audio, mark, QueueItem, Message, media_message, mark_message, clear_message, Sent,
  MediaStream, send_audio_frame, send_mark, put, full, resume, stale, pacer_top, pacer_get,
  pace_item, enter_utterance,
}

abbrev pub Item : Type 0
Item = ItemKind × Bytes

-- The items of one epoch.
abbrev pub live : ℕ → List QueueItem → List Item
live e [] = []
live e (x ∷ xs) = (if x.epoch == e then (x.kind, x.payload) ∷ [] else []) ++ live e xs

abbrev item_of : Message → List Item
item_of (media_message payload) = (audio, payload) ∷ []
item_of (mark_message payload) = (mark, payload) ∷ []
item_of clear_message = []

-- What was sent under one epoch, oldest first.
abbrev pub spoken : ℕ → List Sent → List Item
spoken e [] = []
spoken e (x ∷ older) = spoken e older ++ (if x.epoch == e then item_of x.message else [])

abbrev send_item : ℕ → Item → MediaStream → MediaStream
send_item e (audio, payload) s = send_audio_frame e payload s
send_item e (mark, payload) s = send_mark e payload s

-- Who goes on next. The producer is one task: while it is blocked in `put` it produces nothing.
pub data Choice : Type 0 where
  produces resumes looks takes : Choice

abbrev produce : ℕ → List QueueItem → List Item → MediaStream → List Item × MediaStream
produce e [] [] s = ([], s)
produce e [] (x ∷ left) s = (left, send_item e x s)
produce e (w ∷ ws) left s = (left, s)

abbrev pub step : ℕ → Choice → List Item → MediaStream → List Item × MediaStream
step e produces left s = produce e s.waiting left s
step e resumes left s = (left, resume s.waiting s)
step e looks left s = (left, pacer_top s)
step e takes left s = (left, pacer_get false s.out s)

abbrev pub talk : ℕ → List Choice → List Item → MediaStream → List Item × MediaStream
talk e [] left s = (left, s)
talk e (c ∷ cs) left s = let (left', s') = step e c left s in talk e cs left' s'

live-append : (e : ℕ) (xs ys : List QueueItem) → live e (xs ++ ys) ≡ live e xs ++ live e ys
live-append e [] ys = refl
live-append e (x ∷ xs) ys =
    ap (λ l. (if x.epoch == e then (x.kind, x.payload) ∷ [] else []) ++ l) (live-append e xs ys)
    ∙ sym (
        append_assoc (if x.epoch == e then (x.kind, x.payload) ∷ [] else []) (live e xs)
          (live e ys))

-- An open stream in the utterance `e`, and all items of the utterance where they now are.
pub record Carries (e : ℕ) (all left : List Item) (s : MediaStream) : Type 0 where
  pub current : s.epoch ≡ e
  pub open_ : s.closed ≡ false
  pub total : spoken e s.wire ++ (live e s.out ++ (live e s.waiting ++ left)) ≡ all

live-one : (e : ℕ) (x : QueueItem) → x.epoch ≡ e → live e (x ∷ []) ≡ (x.kind, x.payload) ∷ []
live-one e x h = let t : (x.epoch == e) ≡ true = ground arith in rw t

-- An item put at the end of the queue, or of the producers that wait for room in it.
live-snoc :
    (e : ℕ) (xs : List QueueItem) (x : QueueItem) (left : List Item)
    → x.epoch ≡ e
    → live e (xs ++ (x ∷ [])) ++ left ≡ live e xs ++ ((x.kind, x.payload) ∷ left)
live-snoc e xs x left h =
    ap (λ l. l ++ left) (live-append e xs (x ∷ []) ∙ ap (λ l. live e xs ++ l) (live-one e x h))
    ∙ append_assoc (live e xs) ((x.kind, x.payload) ∷ []) left

put-Carries :
    (e : ℕ) (all left : List Item) (x : QueueItem) (s : MediaStream)
    → x.epoch ≡ e
    → s.waiting ≡ []
    → Carries e all ((x.kind, x.payload) ∷ left) s
    → Carries e all left (put x s)
unfolding put
put-Carries e all left x s xe w h = elim (Bool-cases (full s)) [
  | inl t ↦ rw t (record {
    current = h.current;
    open_ = h.open_;
    total =
        ap (λ l. spoken e s.wire ++ (live e s.out ++ l)) (live-snoc e s.waiting x left xe)
        ∙ h.total;
  })
  | inr t ↦ rw t (record {
    current = h.current;
    open_ = h.open_;
    total =
        ap (λ l. spoken e s.wire ++ (live e (s.out ++ (x ∷ [])) ++ (live e l ++ left))) w
        ∙ ap (λ l. spoken e s.wire ++ l) (live-snoc e s.out x left xe)
        ∙ ap (λ l. spoken e s.wire ++ (live e s.out ++ (live e l ++ ((x.kind, x.payload) ∷ left))))
            (sym w)
        ∙ h.total;
  })
]

send_item-Carries :
    (e : ℕ) (all left : List Item) (x : Item) (s : MediaStream)
    → s.waiting ≡ []
    → Carries e all (x ∷ left) s
    → Carries e all left (send_item e x s)
unfolding send_audio_frame send_mark stale
send_item-Carries e all left (audio, payload) s w h =
    let t : stale e s ≡ false = ground (arith, h.current, h.open_) in
    rw t (put-Carries e all left (record { epoch = e; kind = audio; payload = payload }) s refl w h)
send_item-Carries e all left (mark, payload) s w h =
    let t : stale e s ≡ false = ground (arith, h.current, h.open_) in
    rw t (put-Carries e all left (record { epoch = e; kind = mark; payload = payload }) s refl w h)

-- An item that moves from the waiting producers to the queue stays between the same neighbours.
live-move :
    (e : ℕ) (out xs : List QueueItem) (x : QueueItem) (left : List Item)
    → live e (out ++ (x ∷ [])) ++ (live e xs ++ left) ≡ live e out ++ (live e (x ∷ xs) ++ left)
live-move e out xs x left =
    let own : List Item = if x.epoch == e then (x.kind, x.payload) ∷ [] else [] in
    ap (λ l. l ++ (live e xs ++ left)) (live-append e out (x ∷ []))
    ∙ append_assoc (live e out) (own ++ []) (live e xs ++ left)
    ∙ ap (λ l. live e out ++ l)
        (ap (λ l. l ++ (live e xs ++ left)) (append-nil own)
          ∙ sym (append_assoc own (live e xs) left))

resume-Carries :
    (e : ℕ) (all left : List Item) (items : List QueueItem) (s : MediaStream)
    → s.waiting ≡ items
    → Carries e all left s
    → Carries e all left (resume items s)
unfolding resume
resume-Carries e all left [] s w h = h
resume-Carries e all left (x ∷ xs) s w h = elim (Bool-cases (full s)) [
  | inl t ↦ rw t h
  | inr t ↦ rw t (record {
    current = h.current;
    open_ = h.open_;
    total =
        ap (λ l. spoken e s.wire ++ l) (live-move e s.out xs x left)
        ∙ ap (λ l. spoken e s.wire ++ (live e s.out ++ (live e l ++ left))) (sym w)
        ∙ h.total;
  })
]

pace_item-Carries :
    (e : ℕ) (all left : List Item) (kind : ItemKind) (n : ℕ) (payload : Bytes) (s : MediaStream)
    → n ≡ e
    → s.epoch ≡ e
    → s.closed ≡ false
    → spoken e s.wire ++ ((kind, payload) ∷ (live e s.out ++ (live e s.waiting ++ left))) ≡ all
    → Carries e all left (pace_item kind false n payload s)
unfolding pace_item
pace_item-Carries e all left audio n payload s ne se c h =
    let t : (n == e) ≡ true = ground arith in
    let rest : List Item = live e s.out ++ (live e s.waiting ++ left) in
    record {
      current = se;
      open_ = c;
      total =
          ap (λ b. (spoken e s.wire ++ (if b then (audio, payload) ∷ [] else [])) ++ rest) t
          ∙ append_assoc (spoken e s.wire) ((audio, payload) ∷ []) rest
          ∙ h;
    }
pace_item-Carries e all left mark n payload s ne se c h =
    let t : (n == e) ≡ true = ground arith in
    let rest : List Item = live e s.out ++ (live e s.waiting ++ left) in
    record {
      current = se;
      open_ = c;
      total =
          ap (λ b. (spoken e s.wire ++ (if b then (mark, payload) ∷ [] else [])) ++ rest) t
          ∙ append_assoc (spoken e s.wire) ((mark, payload) ∷ []) rest
          ∙ h;
    }

pacer_get-Carries :
    (e : ℕ) (all left : List Item) (items : List QueueItem) (s : MediaStream)
    → s.out ≡ items
    → Carries e all left s
    → Carries e all left (pacer_get false items s)
unfolding pacer_get
pacer_get-Carries e all left [] s w h = h
pacer_get-Carries e all left (x ∷ xs) s w h =
    let rest : List Item = live e s.waiting ++ left in
    let total : spoken e s.wire ++ (live e (x ∷ xs) ++ rest) ≡ all =
      subst (λ l. spoken e s.wire ++ (live e l ++ rest) ≡ all) w h.total in
    elim (Bool-cases (x.epoch == s.epoch)) [
      | inl t ↦
          let t' : (x.epoch == e) ≡ true = ground (arith, h.current) in
          rw t (
            pace_item-Carries e all left x.kind x.epoch x.payload
              (record s { out = xs; pacer = enter_utterance x.epoch s.pacer }) (ground arith)
              h.current h.open_
              (subst
                (λ b.
                  spoken e s.wire
                    ++ (((if b then (x.kind, x.payload) ∷ [] else []) ++ live e xs) ++ rest)
                  ≡ all)
                t' total))
      | inr t ↦
          let t' : (x.epoch == e) ≡ false = ground (arith, h.current) in
          rw t (record {
            current = h.current;
            open_ = h.open_;
            total =
                subst
                  (λ b.
                    spoken e s.wire
                      ++ (((if b then (x.kind, x.payload) ∷ [] else []) ++ live e xs) ++ rest)
                    ≡ all)
                  t' total;
          })
    ]

pacer_top-Carries :
    (e : ℕ) (all left : List Item) (s : MediaStream)
    → Carries e all left s
    → Carries e all left (pacer_top s)
unfolding pacer_top
pacer_top-Carries e all left s h = elim (Bool-cases (s.pacer.prev_audio && is_empty s.out)) [
  | inl t ↦ rw t (record { current = h.current; open_ = h.open_; total = h.total })
  | inr t ↦ rw t h
]

produce-Carries :
    (e : ℕ) (all left : List Item) (items : List QueueItem) (s : MediaStream)
    → s.waiting ≡ items
    → Carries e all left s
    → Carries e all (produce e items left s).0 (produce e items left s).1
produce-Carries e all [] [] s w h = h
produce-Carries e all (x ∷ left) [] s w h = send_item-Carries e all left x s w h
produce-Carries e all left (y ∷ ys) s w h = h

step-Carries :
    (e : ℕ) (all left : List Item) (c : Choice) (s : MediaStream)
    → Carries e all left s
    → Carries e all (step e c left s).0 (step e c left s).1
step-Carries e all left produces s h = produce-Carries e all left s.waiting s refl h
step-Carries e all left resumes s h = resume-Carries e all left s.waiting s refl h
step-Carries e all left looks s h = pacer_top-Carries e all left s h
step-Carries e all left takes s h = pacer_get-Carries e all left s.out s refl h

talk-Carries :
    (e : ℕ) (all left : List Item) (cs : List Choice) (s : MediaStream)
    → Carries e all left s
    → Carries e all (talk e cs left s).0 (talk e cs left s).1
talk-Carries e all left [] s h = h
talk-Carries e all left (c ∷ cs) s h =
    talk-Carries e all (step e c left s).0 cs (step e c left s).1 (step-Carries e all left c s h)

-- While no flush, failure or close falls into it, an utterance keeps its order in every interleaving
-- of its producer with the pacer: what was sent under its epoch, what is queued, what waits for room
-- and what is not produced yet are, in this order, the items sent, queued and waiting before, followed by
-- all items of the utterance. So none is lost, repeated or overtaken.
pub talk_total :
    (items : List Item) (schedule : List Choice) (s : MediaStream)
    → s.closed ≡ false
    → let e = s.epoch in
      let (left, t) = talk e schedule items s in
      spoken e t.wire ++ (live e t.out ++ (live e t.waiting ++ left))
      ≡ spoken e s.wire ++ (live e s.out ++ (live e s.waiting ++ items))
talk_total items schedule s c =
    (talk-Carries s.epoch
      (spoken s.epoch s.wire ++ (live s.epoch s.out ++ (live s.epoch s.waiting ++ items))) items
      schedule s (record { current = refl; open_ = c; total = refl })).total
