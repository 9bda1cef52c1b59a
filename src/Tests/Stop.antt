-- ===== src/Tests/Stop.antt =====
-- A concrete run of bench/acoustic_stop.py, with mean squares in place of levels in dBFS.
use telnyx_onset.Prelude.{ℕ, ◌/◌, ◌≡◌, ◌≢◌, refl, some, List, [], ◌∷◌, arith, leb, length}
use telnyx_onset.Audio.{Bytes}
use telnyx_onset.Bench.AcousticStop.{
  DetectorConfig, DetectorAnalysis, pcm16_samples, windows_of, window_samples, total_squares,
  minimum_active_samples, hold_samples, analyze_acoustic_stop,
}
use telnyx_onset.Bench.AcousticStop.Spec.{stop_of, first_stop, analyze-first_stop}

abbrev mean_square : ℕ → ℕ → ℕ
mean_square total count = total / count

-- Windows of one sample; a sample counts as active from 3 on, and as silent up to 1.
abbrev config : DetectorConfig ℕ leb mean_square
config = record {
  sample_rate = 10;
  channels = 1;
  sample_width = 2;
  window_ms = 100;
  activity_threshold_dbfs = 9;
  silence_threshold_dbfs = 1;
  minimum_active_ms = 200;
  sustained_silence_ms = 200;
}

abbrev pcm : Bytes
pcm = 5 ∷ 0 ∷ 5 ∷ 0 ∷ 1 ∷ 0 ∷ 2 ∷ 0 ∷ 0 ∷ 0 ∷ 1 ∷ 0 ∷ []

abbrev samples : List ℕ
samples = 5 ∷ 5 ∷ 1 ∷ 2 ∷ 0 ∷ 1 ∷ []

read_samples : pcm16_samples pcm ≡ some samples
unfolding pcm16_samples
read_samples = refl

one_sample : window_samples ℕ leb mean_square config ≢ 0
unfolding window_samples
one_sample = omega arith

analyze-first_stop_example :
    (a : DetectorAnalysis ℕ leb mean_square) × (analyze_acoustic_stop ℕ leb mean_square pcm config
      ≡ some a)
    × (stop_of leb mean_square a.result
        ≡ first_stop leb mean_square config 0 []
            (windows_of (length samples) (window_samples ℕ leb mean_square config) samples))
analyze-first_stop_example =
    analyze-first_stop leb mean_square pcm samples config read_samples one_sample

-- The stop is at sample 4, where the pause after the break at sample 3 begins.
stop_at_4 :
    first_stop leb mean_square config 0 []
      (windows_of (length samples) (window_samples ℕ leb mean_square config) samples)
    ≡ some (4, 6)
unfolding windows_of total_squares window_samples minimum_active_samples hold_samples
stop_at_4 = refl
