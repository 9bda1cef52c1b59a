-- ===== src/Media/Bounds.antt =====
-- The bounded lead of onset/media.py, and what its end leaves.
use telnyx_onset.Prelude.{
  ℕ, ◌+◌, ◌≤◌, ◌≡◌, refl, sym, ap, ◌∙◌, ◌≢◌, inl, inr, Bool, true, false, List, [], ◌∷◌, ◌++◌,
  append_assoc, arith, ◌==◌, Bool-cases, length, All, length-append, All-append,
}
use telnyx_onset.Audio.{Bytes}
use telnyx_onset.Media.{
  ItemKind, audio, mark, QueueItem, clear_message, Sent, MediaStream, new_stream, start, put,
  resume, full, pace_item, pacer_get, enter_utterance, Action, audio_frame, mark_fence,
  producer_resumes, producers_cancelled, pacer_looks, pacer_takes, flushes, closes, apply, run,
}

pub record IsSound (lead_frames : ℕ) (s : MediaStream) : Type 0 where
  pub lead : s.lead_frames ≡ lead_frames
  pub bounded : lead_frames ≢ 0 → length s.out ≤ lead_frames
  pub ended : s.closed ≡ true → s.pacing ≡ false
  pub unnotified : s.closed ≡ false → s.notified ≡ 0
  pub once : s.notified ≤ 1

module _ (k : ℕ) where
  put-IsSound : (item : QueueItem) (s : MediaStream) → IsSound k s → IsSound k (put item s)
  unfolding put full
  put-IsSound item s h = ground (arith, length-append s.out (item ∷ []))

  resume-IsSound :
      (items : List QueueItem) (s : MediaStream) → IsSound k s → IsSound k (resume items s)
  unfolding resume
  resume-IsSound [] s h = h
  resume-IsSound (item ∷ others) s h = ground (arith, length-append s.out (item ∷ []))

  pace_item-IsSound :
      (kind : ItemKind) (raises : Bool) (e : ℕ) (payload : Bytes) (s : MediaStream)
      → IsSound k s
      → s.closed ≡ false
      → IsSound k (pace_item kind raises e payload s)
  unfolding pace_item
  pace_item-IsSound audio true e payload s h c = ground arith
  pace_item-IsSound audio false e payload s h c = ground arith
  pace_item-IsSound mark raises e payload s h c = ground arith

  pacer_get-IsSound :
      (raises : Bool) (s : MediaStream) (items : List QueueItem)
      → s.out ≡ items
      → IsSound k s
      → s.closed ≡ false
      → IsSound k (pacer_get raises items s)
  unfolding pacer_get
  pacer_get-IsSound raises s [] e h c = h
  pacer_get-IsSound raises s (item ∷ rest) e h c =
      let u : MediaStream = record s { out = rest; pacer = enter_utterance item.epoch s.pacer } in
      let v : MediaStream = record s { out = rest } in
      let sound : IsSound k v = ground (arith, ap length e) in
      elim (Bool-cases (item.epoch == s.epoch)) [
        | inl t ↦
            rw t (
              pace_item-IsSound item.kind raises item.epoch item.payload u (ground (arith, sound))
                c)
        | inr t ↦ rw t (ground (arith, sound))
      ]

  apply-IsSound : (a : Action) (s : MediaStream) → IsSound k s → IsSound k (apply a s)
  unfolding apply
  apply-IsSound (audio_frame epoch frame) s h =
      ground (arith, put-IsSound (record { epoch = epoch; kind = audio; payload = frame }) s h)
  apply-IsSound (mark_fence epoch name) s h =
      ground (arith, put-IsSound (record { epoch = epoch; kind = mark; payload = name }) s h)
  apply-IsSound producer_resumes s h = resume-IsSound s.waiting s h
  apply-IsSound producers_cancelled s h = ground arith
  apply-IsSound pacer_looks s h = ground arith
  apply-IsSound (pacer_takes raises) s h = ground (arith, pacer_get-IsSound raises s s.out refl h)
  apply-IsSound (flushes times error) s h = ground arith
  apply-IsSound closes s h = ground arith

  run-IsSound : (actions : List Action) (s : MediaStream) → IsSound k s → IsSound k (run actions s)
  unfolding run
  run-IsSound [] s h = h
  run-IsSound (a ∷ actions) s h = run-IsSound actions (apply a s) (apply-IsSound a s h)

-- In any interleaving on a new stream, once started, with `lead_frames` not 0, the queue never holds
-- more than `lead_frames` items, and `on_error` is called at most once.
pub run-start-bounded :
    (lead_frames : ℕ) (on_error : Bool) (actions : List Action)
    → lead_frames ≢ 0
    → let s = run actions (start (new_stream lead_frames on_error)) in
      (length s.out ≤ lead_frames) × (s.notified ≤ 1)
unfolding start new_stream
run-start-bounded k on_error actions ne =
    let h = run-IsSound k actions (start (new_stream k on_error)) (ground arith) in
    (h.bounded ne, h.once)

-- What a closed stream still hands to the socket.
pub record ClosedFor (s t : MediaStream) : Type 0 where
  pub closed : t.closed ≡ true
  pub notified : t.notified ≡ s.notified
  pub new : List Sent
  pub wire : t.wire ≡ new ++ s.wire
  pub clears : All (λ x. x.message ≡ clear_message) new

apply-ClosedFor :
    (a : Action) (s : MediaStream) → s.closed ≡ true → s.pacing ≡ false → ClosedFor s (apply a s)
unfolding apply full
apply-ClosedFor (audio_frame epoch frame) s c p = record {
  closed = ground arith;
  notified = ground arith;
  new = [];
  wire = ground arith;
  clears = tt;
}
apply-ClosedFor (mark_fence epoch name) s c p = record {
  closed = ground arith;
  notified = ground arith;
  new = [];
  wire = ground arith;
  clears = tt;
}
apply-ClosedFor producer_resumes s c p = go s.waiting
  where
    go : (w : List QueueItem) → ClosedFor s (resume w s)
    go [] = record { closed = c; notified = refl; new = []; wire = refl; clears = tt }
    go (x ∷ xs) = record {
      closed = ground arith;
      notified = ground arith;
      new = [];
      wire = ground arith;
      clears = tt;
    }
apply-ClosedFor producers_cancelled s c p = record {
  closed = c;
  notified = refl;
  new = [];
  wire = refl;
  clears = tt;
}
apply-ClosedFor pacer_looks s c p =
    rw p (record { closed = c; notified = refl; new = []; wire = refl; clears = tt })
apply-ClosedFor (pacer_takes raises) s c p =
    rw p (record { closed = c; notified = refl; new = []; wire = refl; clears = tt })
apply-ClosedFor (flushes times error) s c p = record {
  closed = c;
  notified = refl;
  new = record { epoch = s.epoch + 1; message = clear_message } ∷ [];
  wire = refl;
  clears = (refl, tt);
}
apply-ClosedFor closes s c p = record {
  closed = ground arith;
  notified = ground arith;
  new = [];
  wire = ground arith;
  clears = tt;
}

run-ClosedFor :
    (k : ℕ) (actions : List Action) (s : MediaStream)
    → IsSound k s
    → s.closed ≡ true
    → ClosedFor s (run actions s)
unfolding run
run-ClosedFor k [] s h c = record {
  closed = c;
  notified = refl;
  new = [];
  wire = refl;
  clears = tt;
}
run-ClosedFor k (a ∷ actions) s h c =
    let first = apply-ClosedFor a s c (h.ended c) in
    let rest = run-ClosedFor k actions (apply a s) (apply-IsSound k a s h) first.closed in
    record {
      closed = rest.closed;
      notified = rest.notified ∙ first.notified;
      new = rest.new ++ first.new;
      wire =
          rest.wire
          ∙ ap (λ l. rest.new ++ l) first.wire
          ∙ sym (append_assoc rest.new first.new s.wire);
      clears =
          All-append (λ x. x.message ≡ clear_message) rest.new first.new rest.clears first.clears;
    }

-- Once a started stream is closed, by `aclose` or because a send of audio failed, it stays closed in
-- every further interleaving, sends no audio and no mark, and calls `on_error` no more.
pub run-start-ClosedFor :
    (lead_frames : ℕ) (on_error : Bool) (before after : List Action)
    → (run before (start (new_stream lead_frames on_error))).closed ≡ true
    → let s = run before (start (new_stream lead_frames on_error)) in ClosedFor s (run after s)
unfolding start new_stream
run-start-ClosedFor k on_error before after c =
    run-ClosedFor k after (run before (start (new_stream k on_error)))
      (run-IsSound k before (start (new_stream k on_error)) (ground arith)) c
