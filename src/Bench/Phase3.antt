-- ===== src/Bench/Phase3.antt =====
-- bench/phase3.py: the classification of a trial and the order of the conditions.
use telnyx_onset.Prelude.{
  ℕ, zero, suc, ◌+◌, ◌-◌, ◌*◌, ◌/◌, ◌%◌, ◌^◌, ◌≤◌, ◌<◌, min, max, ◌≡◌, refl, sym, ap, ap₂, ◌∙◌,
  subst, ◌≢◌, ◌↔◌, ◌⊎◌, inl, inr, Bool, true, false, not, ◌&&◌, ◌||◌, Option, none, some, List, [],
  ◌∷◌, ◌++◌, map, append-nil, append_assoc, arith, ltb, leb, ◌==◌, if◌then◌else◌, ltb→lt, lt→ltb,
  ltb→le, leb→le, le→leb, leb→lt, lt→leb, ==_iff, ==_refl, Bool-cases, Option-cases, length, take,
  drop, replicate, concat, is_empty, All, length-append, take-append-drop, length-take, length-drop,
  length-replicate, take-append, drop-append, All-append, All-map, Text, codes, text_eq, text_eq→eq,
  text_eq_refl, is_space, lstrip, rstrip, strip,
}
use telnyx_onset.Types.{
  BenchmarkMode, onset_fd_vad, onset_fd_transcript, onset_half_duplex, production,
}
pub mod Classes
pub mod Balance

pub data FailureCode : Type 0 where
  agent_never_spoke stimulus_started_without_agent_audio stimulus_delivery_failed
        media_capture_missing :
      FailureCode
  trigger_not_observed interrupt_action_not_observed duplicate_interrupt_action
        natural_utterance_end :
      FailureCode
  acoustic_stop_not_found caller_turn_lost caller_turn_duplicated stale_audio_resumed : FailureCode
  false_interruption call_transport_failure invalid_event_order instrumentation_failure :
      FailureCode
  configuration_mismatch : FailureCode

-- Membership of `INELIGIBLE_FAILURES`.
abbrev pub ineligible : FailureCode → Bool
ineligible agent_never_spoke = true
ineligible stimulus_started_without_agent_audio = true
ineligible stimulus_delivery_failed = true
ineligible media_capture_missing = true
ineligible invalid_event_order = true
ineligible instrumentation_failure = true
ineligible configuration_mismatch = true
ineligible _ = false

-- The place of a code among the codes sorted by their values.
abbrev pub rank : FailureCode → ℕ
rank acoustic_stop_not_found = 0
rank agent_never_spoke = 1
rank call_transport_failure = 2
rank caller_turn_duplicated = 3
rank caller_turn_lost = 4
rank configuration_mismatch = 5
rank duplicate_interrupt_action = 6
rank false_interruption = 7
rank instrumentation_failure = 8
rank interrupt_action_not_observed = 9
rank invalid_event_order = 10
rank media_capture_missing = 11
rank natural_utterance_end = 12
rank stale_audio_resumed = 13
rank stimulus_delivery_failed = 14
rank stimulus_started_without_agent_audio = 15
rank trigger_not_observed = 16

pub record TrialEvidence : Type 0 where
  pub agent_audio_active : Bool
  pub stimulus_started : Bool
  pub stimulus_delivered : Bool
  pub media_capture_present : Bool
  pub configuration_matches : Bool
  pub event_order_valid : Bool
  pub instrumentation_complete : Bool
  pub transport_complete : Bool
  pub eligible_trigger_count : ℕ
  pub interrupt_action_count : ℕ
  pub acoustic_stop_found : Bool
  pub stop_before_natural_end : Bool
  pub caller_turn_count : ℕ
  pub stale_audio_resumed : Bool
  pub next_response_based_on_turn : Bool
  pub ended_naturally : Bool
  pub stimulus_required : Bool

pub record TrialClassification : Type 0 where
  pub eligible : Bool
  pub successful : Bool
  pub failure_codes : List FailureCode

-- `failures.add` under a test, before the additions that follow. Every code is added in one place.
abbrev pub add_if : Bool → FailureCode → List FailureCode → List FailureCode
add_if true code codes = code ∷ codes
add_if false code codes = codes

unfoldable pub failures : TrialEvidence → List FailureCode
failures e = add_if (not e.agent_audio_active) agent_never_spoke (
    add_if (not e.agent_audio_active && e.stimulus_started) stimulus_started_without_agent_audio (
      add_if (e.stimulus_required && (not e.stimulus_started || not e.stimulus_delivered))
        stimulus_delivery_failed
        (add_if (not e.media_capture_present) media_capture_missing (
          add_if (not e.configuration_matches) configuration_mismatch (
            add_if (not e.event_order_valid) invalid_event_order (
              add_if (not e.instrumentation_complete) instrumentation_failure (
                add_if (not e.transport_complete) call_transport_failure (
                  add_if (e.stimulus_required && e.eligible_trigger_count == 0) trigger_not_observed
                    (add_if (ltb 0 e.eligible_trigger_count && e.interrupt_action_count == 0)
                      interrupt_action_not_observed
                      (add_if (ltb 1 e.interrupt_action_count) duplicate_interrupt_action (
                        add_if (not e.stimulus_required && not (e.interrupt_action_count == 0))
                          false_interruption
                          (add_if
                            (e.ended_naturally
                              || (e.acoustic_stop_found && not e.stop_before_natural_end))
                            natural_utterance_end
                            (add_if (not e.acoustic_stop_found) acoustic_stop_not_found (
                              add_if (e.caller_turn_count == 0 && e.stimulus_required)
                                caller_turn_lost
                                (add_if (ltb 1 e.caller_turn_count) caller_turn_duplicated (
                                  add_if e.stale_audio_resumed stale_audio_resumed
                                    []))))))))))))))))

abbrev pub any_ineligible : List FailureCode → Bool
any_ineligible [] = false
any_ineligible (c ∷ cs) = ineligible c || any_ineligible cs

abbrev pub insert : FailureCode → List FailureCode → List FailureCode
insert c [] = c ∷ []
insert c (d ∷ ds) = let rest = insert c ds in if leb (rank c) (rank d) then c ∷ d ∷ ds else d ∷ rest

unfoldable pub sorted : List FailureCode → List FailureCode
sorted [] = []
sorted (c ∷ cs) = insert c (sorted cs)

unfoldable pub eligible_of : TrialEvidence → Bool
unfolding failures
eligible_of e = not (any_ineligible (failures e))

unfoldable pub classify_trial : TrialEvidence → TrialClassification
unfolding failures eligible_of sorted
classify_trial e = record {
  eligible = eligible_of e;
  successful =
      eligible_of e
      && e.agent_audio_active
      && e.eligible_trigger_count == 1
      && e.interrupt_action_count == 1
      && e.acoustic_stop_found
      && e.stop_before_natural_end
      && e.caller_turn_count == 1
      && not e.stale_audio_resumed
      && e.next_response_based_on_turn
      && is_empty (failures e);
  failure_codes = sorted (failures e);
}

-- The two primary conditions, each `n` times.
unfoldable pub conditions_block : ℕ → List BenchmarkMode
conditions_block n = replicate n onset_fd_vad ++ replicate n onset_fd_transcript

-- `random.Random` is a parameter: its state, and its `shuffle` in place.
module _ {R : Type 0} (random : ℕ → R)
    (shuffle : R → List BenchmarkMode → R × List BenchmarkMode) where
  unfoldable pub blocks : ℕ → ℕ → R → List BenchmarkMode
  unfolding conditions_block
  blocks zero per rng = []
  blocks (suc n) per rng =
      let (rng', block) = shuffle rng (conditions_block per) in block ++ blocks n per rng'

  -- `none` for the ValueError; `%` is by a positive block.
  unfoldable pub balanced_condition_order : ℕ → ℕ → ℕ → Option (List BenchmarkMode)
  unfolding blocks
  balanced_condition_order seed attempts per =
      if attempts == 0
      then none
      else if per == 0 || not (attempts % per == 0)
      then none
      else some (blocks (attempts / per) per (random seed))
