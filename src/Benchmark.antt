-- ===== src/Benchmark.antt =====
-- onset/benchmark.py: which event may interrupt the agent under each trigger policy, and the milestones
-- that the agent records. The policy check of onset/settings.py stands here too.
use telnyx_onset.Prelude.{
  ℕ, ◌≡◌, refl, ◌⊎◌, inl, inr, Bool, true, not, Option, none, some, if◌then◌else◌, is_empty, Text,
  strip,
}
use telnyx_onset.Types.{
  BenchmarkMode, production, onset_fd_vad, onset_fd_transcript, onset_half_duplex, SttEventType,
  transcript_interim, transcript_final, utterance_end, speech_started, FlushOutcome,
}

-- The source of an interruption: "vad", or the type of the transcript event.
pub data Source : Type 0 where
  vad : Source
  transcript : SttEventType → Source

-- A transcript that is not blank.
unfoldable pub transcript_source : SttEventType → Text → Option Source
transcript_source transcript_interim text =
    if is_empty (strip text) then none else some (transcript transcript_interim)
transcript_source transcript_final text =
    if is_empty (strip text) then none else some (transcript transcript_final)
transcript_source _ text = none

unfoldable pub vad_source : SttEventType → Option Source
vad_source speech_started = some vad
vad_source _ = none

-- The default policy tests for the onset first.
unfoldable pub production_source : SttEventType → Text → Option Source
unfolding transcript_source
production_source speech_started text = some vad
production_source type text = transcript_source type text

unfoldable pub interruption_source : BenchmarkMode → SttEventType → Text → Option Source
unfolding vad_source transcript_source production_source
interruption_source onset_fd_vad type text = vad_source type
interruption_source onset_fd_transcript type text = transcript_source type text
interruption_source onset_half_duplex type text = none
interruption_source production type text = production_source type text

-- `validate_benchmark_duplex_policy`: whether the settings are accepted.
unfoldable pub duplex_policy_valid : BenchmarkMode → Bool → Bool
duplex_policy_valid onset_fd_vad half_duplex = not half_duplex
duplex_policy_valid onset_fd_transcript half_duplex = not half_duplex
duplex_policy_valid onset_half_duplex half_duplex = half_duplex
duplex_policy_valid production half_duplex = true

-- The rows that the agent records, with the fields that tell them apart.
pub data Milestone : Type 0 where
  first_inbound_speech_bearing_frame : ℕ → Milestone
  vad_decision : Bool → Milestone
  first_transcript : SttEventType → Bool → Milestone
  ineligible_trigger_observed : Option ℕ → SttEventType → Milestone
  half_duplex_gate : Option ℕ → SttEventType → Milestone
  interruption_requested : Option ℕ → Source → Milestone
  local_media_epoch_invalidated : Option ℕ → ℕ → ℕ → ℕ → Milestone
  clear_send_started : Option ℕ → ℕ → Milestone
  clear_send_finished : Option ℕ → ℕ → FlushOutcome → Milestone
  caller_turn_completed : Option ℕ → ℕ → Milestone
  response_cancellation_requested : Option ℕ → Milestone
  next_response_started : ℕ → Option ℕ → Milestone
  response_teardown_completed : ℕ → Milestone
  skipped_budget_exhausted : ℕ → Milestone

-- The two strict policies part the default one: an event interrupts by default exactly when it does
-- under one of them, with the same source, and never under both.
pub interruption_source-split :
    (type : SttEventType) (text : Text)
    → ((interruption_source production type text ≡ interruption_source onset_fd_vad type text)
        × (interruption_source onset_fd_transcript type text ≡ none))
      ⊎ ((interruption_source production type text
            ≡ interruption_source onset_fd_transcript type text)
          × (interruption_source onset_fd_vad type text ≡ none))
unfolding interruption_source
interruption_source-split transcript_interim text = inr (refl, refl)
interruption_source-split transcript_final text = inr (refl, refl)
interruption_source-split utterance_end text = inl (refl, refl)
interruption_source-split speech_started text = inl (refl, refl)
