-- ===== src/Vad/Chunks.antt =====
-- The buffering of onset/vad.py: how inbound audio is cut into messages does not matter.
use telnyx_onset.Prelude.{
  ℕ, zero, suc, ◌+◌, ◌≤◌, ◌<◌, ◌≡◌, refl, sym, ap, ◌∙◌, subst, ◌≢◌, inl, inr, Bool, true, false,
  ◌||◌, ◌++◌, append_assoc, arith, leb, le→leb, lt→leb, Bool-cases, length, take, drop,
  length-append, length-drop, take-append, drop-append,
}
use native.Mathlib.Decide.{dec_le}
use telnyx_onset.Audio.{Bytes}
use telnyx_onset.Vad.{
  VadEngine, VadState, idle, speaking, VadDetector, on_frame, process_frame, process_loop, process,
}

module _ (engine : VadEngine) where
  open engine use {Vad, is_speech}

  abbrev with_buffer : VadDetector Vad → Bytes → VadDetector Vad
  with_buffer d b = record d { buffer = b }

  -- A frame is judged without a look at the buffer.
  on_frame-buffer :
      (state : VadState) (speech : Bool) (d : VadDetector Vad) (b : Bytes)
      → on_frame engine state speech (with_buffer d b)
        ≡ (with_buffer (on_frame engine state speech d).0 b, (on_frame engine state speech d).1)
  unfolding on_frame
  on_frame-buffer idle true d b =
      elim (Bool-cases (leb d.speech_onset_ms (d.speech_run_ms + d.frame_ms))) [
        | inl t ↦ rw t
        | inr t ↦ rw t
      ]
  on_frame-buffer idle false d b = elim (Bool-cases (leb d.speech_onset_ms 0)) [
    | inl t ↦ rw t
    | inr t ↦ rw t
  ]
  on_frame-buffer speaking true d b = refl
  on_frame-buffer speaking false d b =
      elim (Bool-cases (leb d.silence_rearm_ms (d.silence_run_ms + d.frame_ms))) [
        | inl t ↦ rw t
        | inr t ↦ rw t
      ]

  on_frame-keeps :
      (state : VadState) (speech : Bool) (d : VadDetector Vad)
      → ((on_frame engine state speech d).0.buffer ≡ d.buffer)
        × ((on_frame engine state speech d).0.frame_bytes ≡ d.frame_bytes)
  unfolding on_frame
  on_frame-keeps idle true d =
      elim (Bool-cases (leb d.speech_onset_ms (d.speech_run_ms + d.frame_ms))) [
        | inl t ↦ rw t (refl, refl)
        | inr t ↦ rw t (refl, refl)
      ]
  on_frame-keeps idle false d = elim (Bool-cases (leb d.speech_onset_ms 0)) [
    | inl t ↦ rw t (refl, refl)
    | inr t ↦ rw t (refl, refl)
  ]
  on_frame-keeps speaking true d = (refl, refl)
  on_frame-keeps speaking false d =
      elim (Bool-cases (leb d.silence_rearm_ms (d.silence_run_ms + d.frame_ms))) [
        | inl t ↦ rw t (refl, refl)
        | inr t ↦ rw t (refl, refl)
      ]

  -- One round of the loop.
  abbrev round : VadDetector Vad → VadDetector Vad × Bool
  round d =
      process_frame engine (with_buffer d (drop d.frame_bytes d.buffer))
        (take d.frame_bytes d.buffer)

  round_keeps :
      (d : VadDetector Vad)
      → ((round d).0.buffer ≡ drop d.frame_bytes d.buffer)
        × ((round d).0.frame_bytes ≡ d.frame_bytes)
  unfolding process_frame
  round_keeps d =
      let heard = is_speech d.vad (take d.frame_bytes d.buffer) d.sample_rate in
      on_frame-keeps d.state heard.1
        (record d { buffer = drop d.frame_bytes d.buffer; vad = heard.0 })

  round-append :
      (d : VadDetector Vad) (more : Bytes)
      → d.frame_bytes ≤ length d.buffer
      → round (with_buffer d (d.buffer ++ more))
        ≡ (with_buffer (round d).0 ((round d).0.buffer ++ more), (round d).1)
  unfolding process_frame
  round-append d more h =
      let n = d.frame_bytes in
      let heard = is_speech d.vad (take n d.buffer) d.sample_rate in
      rw (take-append n d.buffer more h, drop-append n d.buffer more h, (round_keeps d).0)
        (on_frame-buffer d.state heard.1 (record d { buffer = drop n d.buffer; vad = heard.0 })
          (drop n d.buffer ++ more))

  loop_stop :
      (f : ℕ) (d : VadDetector Vad) (onset : Bool)
      → length d.buffer < d.frame_bytes
      → process_loop engine f d onset ≡ (d, onset)
  unfolding process_loop
  loop_stop zero d onset h = refl
  loop_stop (suc f) d onset h = rw (lt→leb d.frame_bytes (length d.buffer) h)

  loop_go :
      (f : ℕ) (d : VadDetector Vad) (onset : Bool)
      → d.frame_bytes ≤ length d.buffer
      → process_loop engine (suc f) d onset
        ≡ process_loop engine f (round d).0 ((round d).1 || onset)
  unfolding process_loop
  loop_go f d onset h = rw (le→leb d.frame_bytes (length d.buffer) h)

  shorter :
      (d : VadDetector Vad)
      → d.frame_bytes ≢ 0
      → d.frame_bytes ≤ length d.buffer
      → length (round d).0.buffer < length d.buffer
  shorter d ne h = rw (round_keeps d).0 (omega (arith, length-drop d.frame_bytes d.buffer))

  still : (d : VadDetector Vad) → d.frame_bytes ≢ 0 → (round d).0.frame_bytes ≢ 0
  still d ne = rw (round_keeps d).1 ne

  -- More fuel than the buffer's length changes nothing.
  loop_fuel :
      (f g : ℕ) (d : VadDetector Vad) (onset : Bool)
      → d.frame_bytes ≢ 0
      → length d.buffer ≤ f
      → length d.buffer ≤ g
      → process_loop engine f d onset ≡ process_loop engine g d onset
  loop_fuel zero g d onset ne p q =
      loop_stop zero d onset (omega arith) ∙ sym (loop_stop g d onset (omega arith))
  loop_fuel (suc f) zero d onset ne p q =
      loop_stop (suc f) d onset (omega arith) ∙ sym (loop_stop zero d onset (omega arith))
  loop_fuel (suc f) (suc g) d onset ne p q = elim (dec_le d.frame_bytes (length d.buffer)) [
    | yes h ↦
        loop_go f d onset h
        ∙ loop_fuel f g (round d).0 ((round d).1 || onset) (still d ne)
            (omega (arith, shorter d ne h)) (omega (arith, shorter d ne h))
        ∙ sym (loop_go g d onset h)
    | no h ↦ loop_stop (suc f) d onset (omega arith) ∙ sym (loop_stop (suc g) d onset (omega arith))
  ]

  -- The loop with the fuel that `process` gives it.
  abbrev whole : VadDetector Vad → Bool → VadDetector Vad × Bool
  whole d onset = process_loop engine (length d.buffer) d onset

  whole_go :
      (d : VadDetector Vad) (onset : Bool)
      → d.frame_bytes ≢ 0
      → d.frame_bytes ≤ length d.buffer
      → whole d onset ≡ whole (round d).0 ((round d).1 || onset)
  whole_go d onset ne h =
      loop_fuel (length d.buffer) (suc (length d.buffer)) d onset ne (omega arith) (omega arith)
      ∙ loop_go (length d.buffer) d onset h
      ∙ loop_fuel (length d.buffer) (length (round d).0.buffer) (round d).0 ((round d).1 || onset)
          (still d ne) (omega (arith, shorter d ne h)) (omega arith)

  loop-append :
      (f : ℕ) (d : VadDetector Vad) (onset : Bool) (more : Bytes)
      → d.frame_bytes ≢ 0
      → length d.buffer ≤ f
      → let r = process_loop engine f d onset in
        whole (with_buffer d (d.buffer ++ more)) onset
        ≡ whole (with_buffer r.0 (r.0.buffer ++ more)) r.1
  loop-append zero d onset more ne p = rw (loop_stop zero d onset (omega arith))
  loop-append (suc f) d onset more ne p = elim (dec_le d.frame_bytes (length d.buffer)) [
    | yes h ↦
        whole_go (with_buffer d (d.buffer ++ more)) onset ne
          (omega (arith, length-append d.buffer more))
        ∙ ap (λ (t : VadDetector Vad × Bool). whole t.0 (t.1 || onset)) (round-append d more h)
        ∙ loop-append f (round d).0 ((round d).1 || onset) more (still d ne)
            (omega (arith, shorter d ne h))
        ∙ ap (λ (r : VadDetector Vad × Bool). whole (with_buffer r.0 (r.0.buffer ++ more)) r.1)
            (sym (loop_go f d onset h))
    | no h ↦ rw (loop_stop (suc f) d onset (omega arith))
  ]

  or-assoc-false : (a b o : Bool) → a || (b || o) ≡ (a || (b || false)) || o
  or-assoc-false a b o = ground arith

  -- An onset found before the loop is kept beside one found in it.
  loop_onset :
      (f : ℕ) (d : VadDetector Vad) (onset : Bool)
      → process_loop engine f d onset
        ≡ ((process_loop engine f d false).0, (process_loop engine f d false).1 || onset)
  loop_onset zero d onset = unfold process_loop in refl
  loop_onset (suc f) d onset = elim (dec_le d.frame_bytes (length d.buffer)) [
    | yes h ↦
        let b = (round d).1 in
        let e = loop_go f d false h ∙ loop_onset f (round d).0 (b || false) in
        loop_go f d onset h
        ∙ loop_onset f (round d).0 (b || onset)
        ∙ ap (λ o. ((process_loop engine f (round d).0 false).0, o))
            (or-assoc-false (process_loop engine f (round d).0 false).1 b onset)
        ∙ ap (λ (r : VadDetector Vad × Bool). (r.0, r.1 || onset)) (sym e)
    | no h ↦ rw (loop_stop (suc f) d onset (omega arith), loop_stop (suc f) d false (omega arith))
  ]

  loop_ends :
      (f : ℕ) (d : VadDetector Vad) (onset : Bool)
      → d.frame_bytes ≢ 0
      → length d.buffer ≤ f
      → length (process_loop engine f d onset).0.buffer < d.frame_bytes
  loop_ends zero d onset ne p = rw (loop_stop zero d onset (omega arith)) (omega arith)
  loop_ends (suc f) d onset ne p = elim (dec_le d.frame_bytes (length d.buffer)) [
    | yes h ↦ rw (loop_go f d onset h) (
        subst (λ n. length (process_loop engine f (round d).0 ((round d).1 || onset)).0.buffer < n)
          (round_keeps d).1
          (loop_ends f (round d).0 ((round d).1 || onset) (still d ne)
            (omega (arith, shorter d ne h))))
    | no h ↦ rw (loop_stop (suc f) d onset (omega arith)) (omega arith)
  ]

  -- With a frame size that is not 0, two messages of audio leave the detector as one message of both
  -- does, and an onset is reported for the one exactly when it is for one of the two. The loop ends
  -- with less than a frame in the buffer.
  pub process-append :
      (d : VadDetector Vad) (a b : Bytes)
      → d.frame_bytes ≢ 0
      → let (d1, o1) = process engine d a in
        let (d2, o2) = process engine d1 b in
        (process engine d (a ++ b) ≡ (d2, o2 || o1)) × (length d1.buffer < d.frame_bytes)
  unfolding process
  process-append d a b ne =
      let d' = with_buffer d (d.buffer ++ a) in
      let r = whole d' false in
      (
        ap (λ l. whole (with_buffer d l) false) (sym (append_assoc d.buffer a b))
            ∙ loop-append (length d'.buffer) d' false b ne (omega arith)
            ∙ loop_onset (length (r.0.buffer ++ b)) (with_buffer r.0 (r.0.buffer ++ b)) r.1,
        loop_ends (length d'.buffer) d' false ne (omega arith),
      )
