-- ===== src/Media/Flush.antt =====
-- The barge-in primitive of onset/media.py: what is on the wire before and after a flush.
use telnyx_onset.Prelude.{
  ℕ, ◌+◌, ◌≤◌, ◌<◌, ◌≡◌, refl, sym, ap, ◌∙◌, subst, inl, inr, Bool, true, false, Option, List, [],
  ◌∷◌, ◌++◌, append-nil, append_assoc, arith, ◌==◌, if◌then◌else◌, ==_iff, Bool-cases, All,
  All-append, All-map, Text,
}
use telnyx_onset.Audio.{Bytes}
use telnyx_onset.Media.{
  ItemKind, audio, mark, QueueItem, Message, media_message, mark_message, clear_message, Sent,
  MediaStream, new_stream, send_audio_frame, send_mark, resume, flush, pace_item, pacer_get,
  enter_utterance, aclose, Action, audio_frame, mark_fence, producer_resumes, producers_cancelled,
  pacer_looks, pacer_takes, flushes, closes, apply, run,
}

abbrev pub Within : ℕ → ℕ → Sent → Type 0
Within low high x = (low ≤ x.epoch) × (x.epoch ≤ high)

-- From `s` to `t` messages were sent, with epochs between those of the two states.
pub record Moved (s t : MediaStream) : Type 0 where
  pub new : List Sent
  pub wire : t.wire ≡ new ++ s.wire
  pub epochs : All (Within s.epoch t.epoch) new
  pub grows : s.epoch ≤ t.epoch

still : (s t : MediaStream) → t.wire ≡ s.wire → s.epoch ≤ t.epoch → Moved s t
still s t w e = record { new = []; wire = w; epochs = tt; grows = e }

one :
    (s t : MediaStream) (message : Message) (e : ℕ)
    → t.wire ≡ record { epoch = e; message = message } ∷ s.wire
    → s.epoch ≤ e
    → e ≤ t.epoch
    → Moved s t
one s t message e w p q = record {
  new = record { epoch = e; message = message } ∷ [];
  wire = w;
  epochs = ((p, q), tt);
  grows = omega arith;
}

pace_item-Moved :
    (kind : ItemKind) (raises : Bool) (payload : Bytes) (s : MediaStream)
    → Moved s (pace_item kind raises s.epoch payload s)
unfolding pace_item
pace_item-Moved audio true payload s =
    one s (pace_item audio true s.epoch payload s) (media_message payload) s.epoch (ground arith)
      (omega arith) (ground arith)
pace_item-Moved audio false payload s =
    one s (pace_item audio false s.epoch payload s) (media_message payload) s.epoch refl
      (omega arith) (omega arith)
pace_item-Moved mark raises payload s =
    one s (pace_item mark raises s.epoch payload s) (mark_message payload) s.epoch refl
      (omega arith) (omega arith)

trans : (s t u : MediaStream) → Moved s t → Moved t u → Moved s u
trans s t u a b = record {
  new = b.new ++ a.new;
  wire = b.wire ∙ ap (λ l. b.new ++ l) a.wire ∙ sym (append_assoc b.new a.new s.wire);
  epochs =
      All-append (Within s.epoch u.epoch) b.new a.new
        (All-map (Within t.epoch u.epoch) (Within s.epoch u.epoch) b.new
          (λ x h. (omega (arith, a.grows), h.1)) b.epochs)
        (All-map (Within s.epoch t.epoch) (Within s.epoch u.epoch) a.new
          (λ x h. (h.0, omega (arith, b.grows))) a.epochs);
  grows = omega (arith, a.grows, b.grows);
}

pacer_get-Moved :
    (raises : Bool) (items : List QueueItem) (s : MediaStream) → Moved s (pacer_get raises items s)
unfolding pacer_get
pacer_get-Moved raises [] s = still s s refl (omega arith)
pacer_get-Moved raises (item ∷ rest) s = elim (Bool-cases (item.epoch == s.epoch)) [
  | inl e ↦
      let u : MediaStream = record s { out = rest; pacer = enter_utterance item.epoch s.pacer } in
      let moved : Moved u (pace_item item.kind raises item.epoch item.payload u) =
        subst (λ n. Moved u (pace_item item.kind raises n item.payload u))
          (sym ((==_iff item.epoch s.epoch).0 e))
          (pace_item-Moved item.kind raises item.payload u) in
      rw e (
        trans s u (pace_item item.kind raises item.epoch item.payload u)
          (still s u refl (omega arith)) moved)
  | inr e ↦ rw e (still s _ refl (omega arith))
]

apply-Moved : (a : Action) (s : MediaStream) → Moved s (apply a s)
unfolding apply
apply-Moved (audio_frame epoch frame) s =
    still s (send_audio_frame epoch frame s) (ground arith) (ground arith)
apply-Moved (mark_fence epoch name) s =
    still s (send_mark epoch name s) (ground arith) (ground arith)
apply-Moved producer_resumes s = go s.waiting
  where
    go : (w : List QueueItem) → Moved s (resume w s)
    go [] = still s s refl (omega arith)
    go (x ∷ xs) = still s (resume (x ∷ xs) s) (ground arith) (ground arith)
apply-Moved producers_cancelled s = still s (record s { waiting = [] }) refl (omega arith)
apply-Moved pacer_looks s = still s (apply pacer_looks s) (ground arith) (ground arith)
apply-Moved (pacer_takes raises) s = elim (Bool-cases s.pacing) [
  | inl e ↦
      subst (λ b. Moved s (if b then pacer_get raises s.out s else s)) (sym e)
        (pacer_get-Moved raises s.out s)
  | inr e ↦
      subst (λ b. Moved s (if b then pacer_get raises s.out s else s)) (sym e)
        (still s s refl (omega arith))
]
apply-Moved (flushes times error) s =
    one s (flush times error s).0 clear_message (s.epoch + 1) refl (omega arith) (omega arith)
apply-Moved closes s = still s (aclose s) (ground arith) (ground arith)

pub run-Moved : (actions : List Action) (s : MediaStream) → Moved s (run actions s)
unfolding run
run-Moved [] s = still s s refl (omega arith)
run-Moved (a ∷ actions) s =
    trans s (apply a s) (run actions (apply a s)) (apply-Moved a s) (run-Moved actions (apply a s))

-- In any interleaving from a new stream on, a flush splits what is sent: before its clear event only
-- messages with epochs up to that of the interrupted utterance, and behind it, whatever producers,
-- pacer and further calls do, none of these epochs.
pub flush-separates :
    (lead_frames : ℕ) (on_error : Bool) (before after : List Action) (times : ℕ × ℕ × ℕ)
    (error : Option Text)
    → let s = run before (new_stream lead_frames on_error) in
      let t = run after (flush times error s).0 in
      (new : List Sent) × (t.wire
        ≡ new ++ (record { epoch = s.epoch + 1; message = clear_message } ∷ s.wire))
      × All (λ x. s.epoch < x.epoch) new
      × All (λ x. x.epoch ≤ s.epoch) s.wire
unfolding flush new_stream
flush-separates lead_frames on_error before after times error =
    let s0 = new_stream lead_frames on_error in
    let s = run before s0 in
    let earlier = run-Moved before s0 in
    let later = run-Moved after (flush times error s).0 in
    (
      later.new,
      later.wire,
      All-map (Within (s.epoch + 1) (run after (flush times error s).0).epoch)
          (λ x. s.epoch < x.epoch) later.new (λ x h. omega (arith, h.0)) later.epochs,
      subst (All (λ x. x.epoch ≤ s.epoch)) (sym (earlier.wire ∙ append-nil earlier.new)) (
          All-map (Within s0.epoch s.epoch) (λ x. x.epoch ≤ s.epoch) earlier.new (λ x h. h.1)
            earlier.epochs),
    )
