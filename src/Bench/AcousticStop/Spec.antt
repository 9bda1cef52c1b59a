-- ===== src/Bench/AcousticStop/Spec.antt =====
-- What the stop of bench/acoustic_stop.py is, told by the windows heard so far.
use telnyx_onset.Prelude.{
  ℕ, ◌+◌, ◌-◌, ◌≡◌, refl, sym, ap, ap₂, ◌∙◌, subst, inl, inr, Bool, true, false, not, ◌&&◌, ◌||◌,
  Option, none, some, List, [], ◌∷◌, arith, leb, ◌==◌, if◌then◌else◌, Bool-cases, length, ◌≢◌,
}
use telnyx_onset.Audio.{Bytes}
use telnyx_onset.Bench.AcousticStop.{
  DetectorConfig, AcousticStopResult, DetectorAnalysis, Scan, is_active, is_silent, or_start,
  scan_window, note_window, scan_windows, new_scan, pcm16_samples, windows_of,
  analyze_acoustic_stop, minimum_active_samples, hold_samples, window_samples,
}

-- The samples of the newest windows that pass a test without a break. A history has the newest first.
abbrev pub newest_run : (List ℕ → Bool) → List (List ℕ) → ℕ
newest_run p [] = 0
newest_run p (w ∷ h) = let r = newest_run p h in if p w then length w + r else 0

module _ {Float : Type 0} (at_most : Float → Float → Bool) (dbfs : ℕ → ℕ → Float) where
  abbrev pub active : DetectorConfig Float at_most dbfs → List ℕ → Bool
  active c w = is_active Float at_most dbfs c w

  abbrev pub quiet : DetectorConfig Float at_most dbfs → List ℕ → Bool
  quiet c w = is_silent Float at_most dbfs c w && not (active c w)

  -- Some window ended an unbroken activity of the least length.
  abbrev pub armed_in : DetectorConfig Float at_most dbfs → List (List ℕ) → Bool
  armed_in c [] = false
  armed_in c (w ∷ h) =
      armed_in c h
      || (active c w
          && leb (minimum_active_samples Float at_most dbfs c) (newest_run (active c) (w ∷ h)))

  -- The first place behind a long activity at which the newest quiet windows have lasted long enough: the
  -- start of these windows, and their end.
  abbrev pub first_stop :
      DetectorConfig Float at_most dbfs → ℕ → List (List ℕ) → List (List ℕ) → Option (ℕ × ℕ)
  first_stop c pos h [] = none
  first_stop c pos h (w ∷ more) =
      let end = pos + length w in
      let hush = newest_run (quiet c) (w ∷ h) in
      let later = first_stop c end (w ∷ h) more in
      if armed_in c (w ∷ h) && (quiet c w && leb (hold_samples Float at_most dbfs c) hush)
      then some (end - hush, end)
      else later

  -- What the variables of the loop say of the history, at a place.
  record Tracks (c : DetectorConfig Float at_most dbfs) (pos : ℕ) (h : List (List ℕ))
      (s : Scan Float at_most dbfs) : Type 0 where
    arms : s.armed ≡ armed_in c h
    counts : s.armed ≡ false → s.active_samples ≡ newest_run (active c) h
    since : s.armed ≡ true → or_start s.silence_start pos + newest_run (quiet c) h ≡ pos

  abbrev pub stop_of : Option (AcousticStopResult Float at_most dbfs) → Option (ℕ × ℕ)
  stop_of none = none
  stop_of (some r) = some (r.silence_start_sample, r.confirmation_sample)

  no_place : (x y : Bool) (p : ℕ × ℕ) → x ≡ false → none ≡ (if x && y then some p else none)
  no_place true y p e = cc
  no_place false y p e = refl

  no_hush : (x y z : Bool) (p : ℕ × ℕ) → y ≡ false → none ≡ (if x && (y && z) then some p else none)
  no_hush true y z p e = no_place y z p e
  no_hush false y z p e = refl

  one_place :
      (hold n m end : ℕ) (x y : Bool) (r : AcousticStopResult Float at_most dbfs)
      → x ≡ true
      → y ≡ true
      → n ≡ m
      → r.silence_start_sample ≡ end - m
      → r.confirmation_sample ≡ end
      → stop_of (if leb hold n then some r else none)
        ≡ (if x && (y && leb hold m) then some (end - m, end) else none)
  one_place hold n m end true true r e f g a b = go (leb hold m) (leb hold n) (ap (leb hold) g)
    where
      go :
          (u v : Bool)
          → v ≡ u
          → stop_of (if v then some r else none) ≡ (if u then some (end - m, end) else none)
      go true true e = ap₂ (λ i j. some (i, j)) a b
      go false false e = refl
      go true false e = cc
      go false true e = cc
  one_place hold n m end true false r e f g a b = cc
  one_place hold n m end false y r e f g a b = cc

  module _ (c : DetectorConfig Float at_most dbfs) (pos : ℕ) (w : List ℕ) (h : List (List ℕ))
      (s : Scan Float at_most dbfs) (tracks : Tracks c pos h s) where
    active_lem :
        active c w ≡ true
        → let (t, found) = scan_window Float at_most dbfs c pos w s in
          Tracks c (pos + length w) (w ∷ h) t × (found ≡ none)
    unfolding scan_window
    active_lem e = elim (Bool-cases s.armed) [
      | inl a ↦
          let k : armed_in c h ≡ true = sym tracks.arms ∙ a in
          rw e (
            record { arms = ground arith; counts = λ f. ground arith; since = λ f. ground arith },
            refl,
          )
      | inr a ↦
          let k : armed_in c h ≡ false = sym tracks.arms ∙ a in
          let n = tracks.counts a in
          rw e (
            record { arms = ground arith; counts = λ f. ground arith; since = λ f. ground arith },
            refl,
          )
    ]

    -- The place of a stop at this window, if there is one.
    abbrev here : Option (ℕ × ℕ)
    here =
        let end = pos + length w in
        let hush = newest_run (quiet c) (w ∷ h) in
        if armed_in c (w ∷ h) && (quiet c w && leb (hold_samples Float at_most dbfs c) hush)
        then some (end - hush, end)
        else none

    abbrev Scanned :
        Scan Float at_most dbfs × Option (AcousticStopResult Float at_most dbfs) → Type 0
    Scanned x = Tracks c (pos + length w) (w ∷ h) x.0 × (stop_of x.1 ≡ here)

    unarmed_lem :
        active c w ≡ false → s.armed ≡ false → Scanned (scan_window Float at_most dbfs c pos w s)
    unfolding scan_window
    unarmed_lem e a =
        let k : armed_in c h ≡ false = sym tracks.arms ∙ a in
        let k' : armed_in c (w ∷ h) ≡ false = ground arith in
        let z = record s { active_samples = 0 } in
        let step : scan_window Float at_most dbfs c pos w s ≡ (z, none) = rw (e, a) refl in
        let place =
          no_place (armed_in c (w ∷ h))
            (quiet c w && leb (hold_samples Float at_most dbfs c) (newest_run (quiet c) (w ∷ h)))
            (pos + length w - newest_run (quiet c) (w ∷ h), pos + length w) k' in
        let t : Tracks c (pos + length w) (w ∷ h) z = record {
          arms = a ∙ sym k';
          counts = λ f. ground arith;
          since = λ f. ground arith;
        } in
        subst Scanned (sym step) (t, place)

    loud_lem :
        active c w ≡ false
        → s.armed ≡ true
        → is_silent Float at_most dbfs c w ≡ false
        → Scanned (scan_window Float at_most dbfs c pos w s)
    unfolding scan_window
    loud_lem e a q =
        let k : armed_in c h ≡ true = sym tracks.arms ∙ a in
        let k' : armed_in c (w ∷ h) ≡ true = ground arith in
        let y : quiet c w ≡ false = ground arith in
        let z = record s { silence_start = none } in
        let step : scan_window Float at_most dbfs c pos w s ≡ (z, none) = rw (e, a, q) refl in
        let place =
          no_hush (armed_in c (w ∷ h)) (quiet c w)
            (leb (hold_samples Float at_most dbfs c) (newest_run (quiet c) (w ∷ h)))
            (pos + length w - newest_run (quiet c) (w ∷ h), pos + length w) y in
        let t : Tracks c (pos + length w) (w ∷ h) z = record {
          arms = a ∙ sym k';
          counts = λ f. ground arith;
          since = λ f. ground arith;
        } in
        subst Scanned (sym step) (t, place)

    quiet_lem :
        active c w ≡ false
        → s.armed ≡ true
        → is_silent Float at_most dbfs c w ≡ true
        → Scanned (scan_window Float at_most dbfs c pos w s)
    unfolding scan_window
    quiet_lem e a q =
        let k : armed_in c h ≡ true = sym tracks.arms ∙ a in
        let k' : armed_in c (w ∷ h) ≡ true = ground arith in
        let y : quiet c w ≡ true = ground arith in
        let n = tracks.since a in
        let from = or_start s.silence_start pos in
        let z = record s { silence_start = some from } in
        let hush : newest_run (quiet c) (w ∷ h) ≡ length w + newest_run (quiet c) h =
          ground arith in
        let far : pos + length w - from ≡ newest_run (quiet c) (w ∷ h) = omega (arith, n, hush) in
        let near : from ≡ pos + length w - newest_run (quiet c) (w ∷ h) = omega (arith, n, hush) in
        let r : AcousticStopResult Float at_most dbfs = record {
          silence_start_sample = from;
          confirmation_sample = pos + length w;
          resolution_samples = window_samples Float at_most dbfs c;
          clipped_samples = s.clipped_total;
        } in
        let hold = hold_samples Float at_most dbfs c in
        let step : scan_window Float at_most dbfs c pos w s
            ≡ (z, if leb hold (pos + length w - from) then some r else none) =
          rw (e, a, q) refl in
        let place =
          one_place hold (pos + length w - from) (newest_run (quiet c) (w ∷ h)) (pos + length w)
            (armed_in c (w ∷ h)) (quiet c w) r k' y far near refl in
        let t : Tracks c (pos + length w) (w ∷ h) z = record {
          arms = a ∙ sym k';
          counts = λ f. ground arith;
          since = λ f. omega (arith, n, hush);
        } in
        subst Scanned (sym step) (t, place)

    step_lem : Scanned (scan_window Float at_most dbfs c pos w s)
    step_lem = elim (Bool-cases (active c w)) [
      | inl e ↦
          (let (t, n) = active_lem e in
            let y : quiet c w ≡ false = ground arith in
            let place =
              no_hush (armed_in c (w ∷ h)) (quiet c w)
                (leb (hold_samples Float at_most dbfs c) (newest_run (quiet c) (w ∷ h)))
                (pos + length w - newest_run (quiet c) (w ∷ h), pos + length w) y in
            (t, ap stop_of n ∙ place))
      | inr e ↦ elim (Bool-cases s.armed) [
        | inr a ↦ unarmed_lem e a
        | inl a ↦ elim (Bool-cases (is_silent Float at_most dbfs c w)) [
          | inl q ↦ quiet_lem e a q
          | inr q ↦ loud_lem e a q
        ]
      ]
    ]

  found_or :
      (o : Option (AcousticStopResult Float at_most dbfs)) (b : Bool) (p : ℕ × ℕ)
      (rest : DetectorAnalysis Float at_most dbfs) (later : Option (ℕ × ℕ))
      (t : Scan Float at_most dbfs)
      → stop_of o ≡ (if b then some p else none)
      → stop_of rest.result ≡ later
      → let y : DetectorAnalysis Float at_most dbfs = (elim o [
        | none ↦ rest
        | some r ↦ record { windows = t.windows; result = some r }
      ]) in
        stop_of y.result ≡ (if b then some p else later)
  found_or none true p rest later t e h = cc
  found_or none false p rest later t e h = h
  found_or (some r) true p rest later t e h = e
  found_or (some r) false p rest later t e h = cc

  scan_windows-first_stop :
      (c : DetectorConfig Float at_most dbfs) (pos : ℕ) (h ws : List (List ℕ))
      (s : Scan Float at_most dbfs)
      → Tracks c pos h s
      → stop_of (scan_windows Float at_most dbfs c pos ws s).result ≡ first_stop c pos h ws
  unfolding scan_windows
  scan_windows-first_stop c pos h [] s t = refl
  scan_windows-first_stop c pos h (w ∷ ws) s t =
      let noted = note_window Float at_most dbfs pos w s in
      let x =
        step_lem c pos w h noted (record { arms = t.arms; counts = t.counts; since = t.since }) in
      let after = (scan_window Float at_most dbfs c pos w noted).0 in
      found_or (scan_window Float at_most dbfs c pos w noted).1 _ _
        (scan_windows Float at_most dbfs c (pos + length w) ws after)
        (first_stop c (pos + length w) (w ∷ h) ws) after x.1
        (scan_windows-first_stop c (pos + length w) (w ∷ h) ws after x.0)

  -- The analysis of PCM with an even number of bytes and a window of at least one sample succeeds. Its
  -- stop is the first place, behind an unbroken activity of the least length, at which the newest windows
  -- have been silent for the hold without a break; it starts where these windows start. Without such a
  -- place there is none.
  pub analyze-first_stop :
      (pcm16 : Bytes) (samples : List ℕ) (c : DetectorConfig Float at_most dbfs)
      → pcm16_samples pcm16 ≡ some samples
      → window_samples Float at_most dbfs c ≢ 0
      → (a : DetectorAnalysis Float at_most dbfs) × (analyze_acoustic_stop Float at_most dbfs pcm16
            c
          ≡ some a)
        × (stop_of a.result
            ≡ first_stop c 0 []
                (windows_of (length samples) (window_samples Float at_most dbfs c) samples))
  unfolding analyze_acoustic_stop
  analyze-first_stop pcm16 samples c e n =
      let size = window_samples Float at_most dbfs c in
      let ws = windows_of (length samples) size samples in
      let a = scan_windows Float at_most dbfs c 0 ws (new_scan Float at_most dbfs) in
      let z : (size == 0) ≡ false = ground arith in
      (
        a,
        rw (analyze_acoustic_stop, e, z) refl,
        scan_windows-first_stop c 0 [] ws (new_scan Float at_most dbfs)
            (record { arms = refl; counts = λ f. refl; since = λ f. cc }),
      )
