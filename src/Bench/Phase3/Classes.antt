-- ===== src/Bench/Phase3/Classes.antt =====
-- The classes of bench/phase3.py.
use telnyx_onset.Prelude.{
  ℕ, ◌≡◌, refl, Bool, true, false, not, ◌&&◌, ◌||◌, List, [], ◌∷◌, leb, ◌==◌, is_empty,
}
use telnyx_onset.Bench.Phase3.{
  FailureCode, agent_never_spoke, stimulus_started_without_agent_audio, stimulus_delivery_failed,
  media_capture_missing, trigger_not_observed, interrupt_action_not_observed,
  duplicate_interrupt_action, natural_utterance_end, acoustic_stop_not_found, caller_turn_lost,
  caller_turn_duplicated, stale_audio_resumed, false_interruption, call_transport_failure,
  invalid_event_order, instrumentation_failure, configuration_mismatch, TrialEvidence, add_if, rank,
}

is_empty-add_if :
    (b : Bool) (c : FailureCode) (cs : List FailureCode)
    → is_empty (add_if b c cs) ≡ (not b && is_empty cs)
is_empty-add_if true c cs = refl
is_empty-add_if false c cs = refl

-- A trial on which nothing went wrong, said without the failure codes.
abbrev pub clean : TrialEvidence → Bool
clean e =
    e.stimulus_required
    && e.stimulus_started
    && e.stimulus_delivered
    && e.agent_audio_active
    && e.media_capture_present
    && e.configuration_matches
    && e.event_order_valid
    && e.instrumentation_complete
    && e.transport_complete
    && e.eligible_trigger_count == 1
    && e.interrupt_action_count == 1
    && e.caller_turn_count == 1
    && e.acoustic_stop_found
    && e.stop_before_natural_end
    && not e.ended_naturally
    && not e.stale_audio_resumed
    && e.next_response_based_on_turn

-- A trial on which the harness did its part: the agent spoke, a stimulus that was required was started
-- and delivered, and the records are there, of the right configuration, in order and complete.
abbrev pub sound : TrialEvidence → Bool
sound e =
    e.agent_audio_active
    && (not e.stimulus_required || (e.stimulus_started && e.stimulus_delivered))
    && e.media_capture_present
    && e.configuration_matches
    && e.event_order_valid
    && e.instrumentation_complete

-- Ascending in the values of the codes, from a bound on.
abbrev pub ascending : ℕ → List FailureCode → Bool
ascending n [] = true
ascending n (c ∷ cs) = leb n (rank c) && ascending (rank c) cs

-- The evidence that brings a code about.
abbrev pub cause : TrialEvidence → FailureCode → Bool
cause e agent_never_spoke = not e.agent_audio_active
cause e stimulus_started_without_agent_audio = e.stimulus_started && not e.agent_audio_active
cause e stimulus_delivery_failed =
    e.stimulus_required && not (e.stimulus_started && e.stimulus_delivered)
cause e media_capture_missing = not e.media_capture_present
cause e trigger_not_observed = e.stimulus_required && e.eligible_trigger_count == 0
cause e interrupt_action_not_observed =
    not (e.eligible_trigger_count == 0) && e.interrupt_action_count == 0
cause e duplicate_interrupt_action = leb 2 e.interrupt_action_count
cause e natural_utterance_end =
    e.ended_naturally || (e.acoustic_stop_found && not e.stop_before_natural_end)
cause e acoustic_stop_not_found = not e.acoustic_stop_found
cause e caller_turn_lost = e.stimulus_required && e.caller_turn_count == 0
cause e caller_turn_duplicated = leb 2 e.caller_turn_count
cause e stale_audio_resumed = e.stale_audio_resumed
cause e false_interruption = not e.stimulus_required && leb 1 e.interrupt_action_count
cause e call_transport_failure = not e.transport_complete
cause e invalid_event_order = not e.event_order_valid
cause e instrumentation_failure = not e.instrumentation_complete
cause e configuration_mismatch = not e.configuration_matches

-- Membership of a code, told apart by the places of the codes.
abbrev pub contains : FailureCode → List FailureCode → Bool
contains c [] = false
contains c (d ∷ ds) = rank c == rank d || contains c ds
