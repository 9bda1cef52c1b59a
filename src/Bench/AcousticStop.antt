-- ===== src/Bench/AcousticStop.antt =====
-- bench/acoustic_stop.py: the energy detector for the end of speech in captured audio. Floats are a type
-- of their own with their order, and the level in dBFS of a sum of squares is an argument.
pub mod Spec
use telnyx_onset.Prelude.{
  ℕ, zero, suc, ◌+◌, ◌-◌, ◌*◌, ◌/◌, ◌%◌, ◌≤◌, Bool, true, false, not, ◌&&◌, ◌||◌, Option, none,
  some, List, [], ◌∷◌, ◌++◌, ltb, leb, ◌==◌, if◌then◌else◌, length, take, drop, is_empty,
}
use telnyx_onset.Audio.{Bytes}

-- A sample is the bit pattern of its 16-bit integer. A byte that is left over is a ValueError.
unfoldable pub pcm16_samples : Bytes → Option (List ℕ)
pcm16_samples [] = some []
pcm16_samples (b ∷ []) = none
pcm16_samples (lo ∷ hi ∷ rest) = elim (pcm16_samples rest) [
  | none ↦ none
  | some samples ↦ some ((lo + 256 * hi) ∷ samples)
]

-- The square of the signed value, and whether it is the least or the greatest one.
abbrev pub square : ℕ → ℕ
square w = if ltb w 32768 then w * w else (65536 - w) * (65536 - w)

abbrev pub is_clipped : ℕ → Bool
is_clipped w = (w == 32768) || (w == 32767)

unfoldable pub total_squares : List ℕ → ℕ
total_squares [] = 0
total_squares (w ∷ ws) = square w + total_squares ws

unfoldable pub count_clipped : List ℕ → ℕ
count_clipped [] = 0
count_clipped (w ∷ ws) = (if is_clipped w then 1 else 0) + count_clipped ws

-- `samples[start:end]` for the starts in steps of `size`; the samples are fuel enough.
unfoldable pub windows_of : ℕ → ℕ → List ℕ → List (List ℕ)
windows_of zero size samples = []
windows_of (suc fuel) size [] = []
windows_of (suc fuel) size (w ∷ ws) = take size (w ∷ ws) ∷ windows_of fuel size (drop size (w ∷ ws))

abbrev pub or_start : Option ℕ → ℕ → ℕ
or_start none start = start
or_start (some s) start = s

module _ (Float : Type 0) (at_most : Float → Float → Bool) (dbfs : ℕ → ℕ → Float) where
  pub record DetectorConfig : Type 0 where
    pub sample_rate : ℕ
    pub channels : ℕ
    pub sample_width : ℕ
    pub window_ms : ℕ
    pub activity_threshold_dbfs : Float
    pub silence_threshold_dbfs : Float
    pub minimum_active_ms : ℕ
    pub sustained_silence_ms : ℕ

  -- `__post_init__`: whether none of its ValueErrors is raised.
  unfoldable pub valid_config : DetectorConfig → Bool
  valid_config c =
      not (c.sample_rate == 0)
      && (c.channels == 1)
      && (c.sample_width == 2)
      && not (c.window_ms == 0)
      && not (c.minimum_active_ms == 0)
      && (leb 100 c.sustained_silence_ms && leb c.sustained_silence_ms 1000)
      && at_most c.silence_threshold_dbfs c.activity_threshold_dbfs

  unfoldable pub window_samples : DetectorConfig → ℕ
  window_samples c = c.sample_rate * c.window_ms / 1000

  unfoldable pub minimum_active_samples : DetectorConfig → ℕ
  minimum_active_samples c = c.sample_rate * c.minimum_active_ms / 1000

  unfoldable pub hold_samples : DetectorConfig → ℕ
  hold_samples c = c.sample_rate * c.sustained_silence_ms / 1000

  pub record EnergyWindow : Type 0 where
    pub start_sample : ℕ
    pub sample_count : ℕ
    pub rms_dbfs : Float
    pub clipped_samples : ℕ

  pub record AcousticStopResult : Type 0 where
    pub silence_start_sample : ℕ
    pub confirmation_sample : ℕ
    pub resolution_samples : ℕ
    pub clipped_samples : ℕ

  pub record DetectorAnalysis : Type 0 where
    pub windows : List EnergyWindow
    pub result : Option AcousticStopResult

  -- The local variables of the loop.
  pub record Scan : Type 0 where
    pub windows : List EnergyWindow
    pub active_samples : ℕ
    pub armed : Bool
    pub silence_start : Option ℕ
    pub clipped_total : ℕ

  abbrev pub level : List ℕ → Float
  level window = dbfs (total_squares window) (length window)

  abbrev pub is_active : DetectorConfig → List ℕ → Bool
  is_active c window = at_most c.activity_threshold_dbfs (level window)

  abbrev pub is_silent : DetectorConfig → List ℕ → Bool
  is_silent c window = at_most (level window) c.silence_threshold_dbfs

  -- The loop's body behind the record of the window, with the test of the hold.
  unfoldable pub scan_window : DetectorConfig → ℕ → List ℕ → Scan → Scan × Option AcousticStopResult
  unfolding minimum_active_samples hold_samples window_samples
  scan_window c start window s =
      let end = start + length window in
      let active = s.active_samples + length window in
      let since = or_start s.silence_start start in
      if is_active c window
      then (
        record s {
          active_samples = active;
          armed = s.armed || leb (minimum_active_samples c) active;
          silence_start = none;
        },
        none,
      )
      else if not s.armed
      then (record s { active_samples = 0 }, none)
      else if is_silent c window
      then (
        record s { silence_start = some since },
        (if leb (hold_samples c) (end - since)
            then some (record {
              silence_start_sample = since;
              confirmation_sample = end;
              resolution_samples = window_samples c;
              clipped_samples = s.clipped_total;
            })
            else none),
      )
      else (record s { silence_start = none }, none)

  abbrev pub note_window : ℕ → List ℕ → Scan → Scan
  note_window start window s =
      let clipped = count_clipped window in
      record s {
        clipped_total = s.clipped_total + clipped;
        windows =
            s.windows
            ++ (record {
              start_sample = start;
              sample_count = length window;
              rms_dbfs = level window;
              clipped_samples = clipped;
            }
                ∷ []);
      }

  unfoldable pub scan_windows : DetectorConfig → ℕ → List (List ℕ) → Scan → DetectorAnalysis
  unfolding scan_window count_clipped
  scan_windows c start [] s = record { windows = s.windows; result = none }
  scan_windows c start (window ∷ more) s =
      let (t, found) = scan_window c start window (note_window start window s) in
      let rest = scan_windows c (start + length window) more t in
      elim found [ none ↦ rest | some r ↦ record { windows = t.windows; result = some r } ]

  abbrev pub new_scan : Scan
  new_scan = record {
    windows = [];
    active_samples = 0;
    armed = false;
    silence_start = none;
    clipped_total = 0;
  }

  -- `none` stands for a ValueError.
  unfoldable pub analyze_acoustic_stop : Bytes → DetectorConfig → Option DetectorAnalysis
  unfolding pcm16_samples windows_of scan_windows window_samples
  analyze_acoustic_stop pcm16 c = elim (pcm16_samples pcm16) [
    | none ↦ none
    | some samples ↦
        if window_samples c == 0
        then none
        else some
            (scan_windows c 0 (windows_of (length samples) (window_samples c) samples) new_scan)
  ]
