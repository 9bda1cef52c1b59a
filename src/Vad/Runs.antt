-- ===== src/Vad/Runs.antt =====
-- The two counters of onset/vad.py against the history of decisions.
use telnyx_onset.Prelude.{
  ℕ, suc, ◌+◌, ◌*◌, ◌≡◌, refl, sym, ap, ap₂, ◌∙◌, ◌≢◌, Bool, true, false, ◌&&◌, List, [], ◌∷◌,
  arith, ltb, leb, if◌then◌else◌,
}
use telnyx_onset.Audio.{Bytes}
use telnyx_onset.Vad.{VadEngine, VadState, idle, speaking, VadDetector, on_frame, process_frame}

-- How long the newest decisions, first in the list, have been `b`.
abbrev pub lead : Bool → List Bool → ℕ
lead b [] = 0
lead true (true ∷ bs) = suc (lead true bs)
lead true (false ∷ bs) = 0
lead false (false ∷ bs) = suc (lead false bs)
lead false (true ∷ bs) = 0

-- A detector without counters: the onset fires when all of the last decisions, long enough, were
-- speech; it is armed again when all of the last ones were silence.
unfoldable pub spec_step : ℕ → ℕ → ℕ → VadState → List Bool → VadState × Bool
spec_step frame_ms onset_ms rearm_ms idle history =
    if leb onset_ms (frame_ms * lead true history) then (speaking, true) else (idle, false)
spec_step frame_ms onset_ms rearm_ms speaking history =
    if (ltb 0 (lead false history)) && leb rearm_ms (frame_ms * lead false history)
    then (idle, false)
    else (speaking, false)

unfoldable pub spec_run : ℕ → ℕ → ℕ → VadState → List Bool → List Bool → List Bool
spec_run frame_ms onset_ms rearm_ms state history [] = []
spec_run frame_ms onset_ms rearm_ms state history (b ∷ bs) =
    let (state', onset) = spec_step frame_ms onset_ms rearm_ms state (b ∷ history) in
    onset ∷ spec_run frame_ms onset_ms rearm_ms state' (b ∷ history) bs

-- The counter of the state a detector is in measures the newest run of decisions.
abbrev pub Counts : VadState → ℕ → ℕ → ℕ → List Bool → Type 0
Counts idle frame_ms speech_run silence_run history = speech_run ≡ frame_ms * lead true history
Counts speaking frame_ms speech_run silence_run history =
    silence_run ≡ frame_ms * lead false history

abbrev pub Measures : {V : Type 0} → VadDetector V → List Bool → Type 0
Measures d history = Counts d.state d.frame_ms d.speech_run_ms d.silence_run_ms history

module _ (engine : VadEngine) where
  open engine use {Vad, is_speech}

  -- The onsets and the decisions of a list of frames.
  unfoldable pub onsets : VadDetector Vad → List Bytes → List Bool
  onsets d [] = []
  onsets d (f ∷ fs) = let (d', onset) = process_frame engine d f in onset ∷ onsets d' fs

  unfoldable pub decisions : VadDetector Vad → List Bytes → List Bool
  decisions d [] = []
  decisions d (f ∷ fs) =
      (is_speech d.vad f d.sample_rate).1 ∷ decisions (process_frame engine d f).0 fs

  on_frame_lem :
      (state : VadState) (speech : Bool) (d : VadDetector Vad) (history : List Bool)
      → d.state ≡ state
      → d.speech_onset_ms ≢ 0
      → Counts state d.frame_ms d.speech_run_ms d.silence_run_ms history
      → let (d', onset) = on_frame engine state speech d in
        ((d'.state, onset)
          ≡ spec_step d.frame_ms d.speech_onset_ms d.silence_rearm_ms state (speech ∷ history))
        × Measures d' (speech ∷ history)
  unfolding on_frame spec_step
  on_frame_lem idle true d history same ne c =
      let e : d.frame_ms * lead true (true ∷ history) ≡ d.speech_run_ms + d.frame_ms =
        omega arith in
      let z : d.frame_ms * 0 ≡ 0 = omega arith in ground (arith, e, z)
  on_frame_lem idle false d history same ne c =
      let z : d.frame_ms * 0 ≡ 0 = omega arith in
      let t : leb d.speech_onset_ms 0 ≡ false = ground arith in
      rw (z, t) (rw same refl, rw same (sym z))
  on_frame_lem speaking true d history same ne c =
      let z : d.frame_ms * 0 ≡ 0 = omega arith in ground (arith, z)
  on_frame_lem speaking false d history same ne c =
      let e : d.frame_ms * lead false (false ∷ history) ≡ d.silence_run_ms + d.frame_ms =
        omega arith in
      let z : d.frame_ms * 0 ≡ 0 = omega arith in ground (arith, e, z)

  config_kept :
      (state : VadState) (speech : Bool) (d : VadDetector Vad)
      → ((on_frame engine state speech d).0.frame_ms ≡ d.frame_ms)
        × ((on_frame engine state speech d).0.speech_onset_ms ≡ d.speech_onset_ms)
        × ((on_frame engine state speech d).0.silence_rearm_ms ≡ d.silence_rearm_ms)
  unfolding on_frame
  config_kept idle speech d = ground arith
  config_kept speaking speech d = ground arith

  process_frame_lem :
      (d : VadDetector Vad) (f : Bytes) (history : List Bool)
      → d.speech_onset_ms ≢ 0
      → Measures d history
      → let speech = (is_speech d.vad f d.sample_rate).1 in
        (spec_step d.frame_ms d.speech_onset_ms d.silence_rearm_ms d.state (speech ∷ history)
          ≡ ((process_frame engine d f).0.state, (process_frame engine d f).1))
        × Measures (process_frame engine d f).0 (speech ∷ history)
        × ((process_frame engine d f).0.frame_ms ≡ d.frame_ms)
        × ((process_frame engine d f).0.speech_onset_ms ≡ d.speech_onset_ms)
        × ((process_frame engine d f).0.silence_rearm_ms ≡ d.silence_rearm_ms)
  unfolding process_frame
  process_frame_lem d f history ne c =
      let heard = is_speech d.vad f d.sample_rate in
      let d1 : VadDetector Vad = record d { vad = heard.0 } in
      let step = on_frame_lem d.state heard.1 d1 history refl ne c in
      let kept = config_kept d.state heard.1 d1 in (sym step.0, step.1, kept.0, kept.1, kept.2)

  onsets_from :
      (d : VadDetector Vad) (history : List Bool) (fs : List Bytes) (frame_ms onset_ms rearm_ms : ℕ)
      → onset_ms ≢ 0
      → d.frame_ms ≡ frame_ms
      → d.speech_onset_ms ≡ onset_ms
      → d.silence_rearm_ms ≡ rearm_ms
      → Measures d history
      → onsets d fs ≡ spec_run frame_ms onset_ms rearm_ms d.state history (decisions d fs)
  unfolding onsets decisions spec_run
  onsets_from d history [] k o r ne ek eo er c = refl
  onsets_from d history (f ∷ fs) k o r ne ek eo er c =
      let step = process_frame_lem d f history (λ e. ne (sym eo ∙ e)) c in
      let heard = (is_speech d.vad f d.sample_rate).1 in
      let d' = (process_frame engine d f).0 in
      let same : spec_step k o r d.state (heard ∷ history)
          ≡ (d'.state, (process_frame engine d f).1) =
        ap₂ (λ a t. spec_step a t r d.state (heard ∷ history)) (sym ek) (sym eo)
        ∙ ap (λ a. spec_step d.frame_ms d.speech_onset_ms a d.state (heard ∷ history)) (sym er)
        ∙ step.0 in
      ap (◌∷◌ (process_frame engine d f).1) (
        onsets_from d' (heard ∷ history) fs k o r ne (step.2 ∙ ek) (step.3 ∙ eo) (step.4 ∙ er)
          step.1)
      ∙ ap (λ (p : VadState × Bool). p.1 ∷ spec_run k o r p.0 (heard ∷ history) (decisions d' fs))
          (sym same)

  -- From a detector whose counter measures the newest run of decisions, the onsets over any frames
  -- are those of the detector that looks at the decisions themselves: an onset is reported at
  -- exactly the frames where an idle detector sees uninterrupted speech of `speech_onset_ms` or
  -- more, and a new one only after uninterrupted silence of `silence_rearm_ms` or more. The onset
  -- threshold is not 0.
  pub onsets-eq-spec_run :
      (d : VadDetector Vad) (history : List Bool) (fs : List Bytes)
      → d.speech_onset_ms ≢ 0
      → Measures d history
      → onsets d fs
        ≡ spec_run d.frame_ms d.speech_onset_ms d.silence_rearm_ms d.state history (decisions d fs)
  onsets-eq-spec_run d history fs ne c =
      onsets_from d history fs d.frame_ms d.speech_onset_ms d.silence_rearm_ms ne refl refl refl c
