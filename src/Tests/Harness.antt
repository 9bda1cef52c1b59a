-- ===== src/Tests/Harness.antt =====
-- Concrete runs of bench/phase3.py and bench/media_capture.py.
use telnyx_onset.Prelude.{
  ℕ, ◌+◌, ◌*◌, ◌≡◌, refl, Bool, true, false, some, List, [], ◌∷◌, ◌++◌, arith, if◌then◌else◌,
  length, codes,
}
use telnyx_onset.Types.{BenchmarkMode, onset_fd_vad, onset_fd_transcript}
use telnyx_onset.Bench.Phase3.{TrialEvidence, balanced_condition_order}
use telnyx_onset.Bench.Phase3.Balance.{
  count, is_vad, is_transcript, balanced_condition_order-balanced,
}
use telnyx_onset.Bench.Tokens.{StreamTokenStore, StreamAuthorization, agent, consume, ok}
use telnyx_onset.Bench.Capture.{MediaFrame, empty_capture, new_capture, new_tracker, unresolved}
use telnyx_onset.Bench.Capture.Order.{InOrder, observe_all, observe_all-InOrder}

abbrev good_trial : TrialEvidence
good_trial = record {
  agent_audio_active = true;
  stimulus_started = true;
  stimulus_delivered = true;
  media_capture_present = true;
  configuration_matches = true;
  event_order_valid = true;
  instrumentation_complete = true;
  transport_complete = true;
  eligible_trigger_count = 1;
  interrupt_action_count = 1;
  acoustic_stop_found = true;
  stop_before_natural_end = true;
  caller_turn_count = 1;
  stale_audio_resumed = false;
  next_response_based_on_turn = true;
  ended_naturally = false;
  stimulus_required = true;
}

abbrev bad_trial : TrialEvidence
bad_trial = record good_trial {
  stimulus_delivered = false;
  caller_turn_count = 2;
  agent_audio_active = false;
}

-- A shuffle that turns a list round, with a state that counts its uses.
abbrev turned : List BenchmarkMode → List BenchmarkMode
turned [] = []
turned (x ∷ xs) = turned xs ++ (x ∷ [])

count-snoc :
    (f : BenchmarkMode → Bool) (xs : List BenchmarkMode) (x : BenchmarkMode)
    → count f (xs ++ (x ∷ [])) ≡ (if f x then 1 else 0) + count f xs
count-snoc f [] x = refl
count-snoc f (y ∷ xs) x = let h = count-snoc f xs x in omega arith

count-turned :
    (f : BenchmarkMode → Bool) (xs : List BenchmarkMode) → count f (turned xs) ≡ count f xs
count-turned f [] = refl
count-turned f (x ∷ xs) =
    let h = count-turned f xs in let e = count-snoc f (turned xs) x in omega arith

abbrev turn_round : ℕ → List BenchmarkMode → ℕ × List BenchmarkMode
turn_round n xs = (n + 1, turned xs)

abbrev four : List BenchmarkMode
four = onset_fd_transcript ∷ onset_fd_vad ∷ onset_fd_transcript ∷ onset_fd_vad ∷ []

four_order : balanced_condition_order (λ (n : ℕ). n) turn_round 7 2 1 ≡ some four
unfolding balanced_condition_order
four_order = refl

balanced_condition_order_example :
    (order : List BenchmarkMode) × (balanced_condition_order (λ (n : ℕ). n) turn_round 7 2 1
      ≡ some order)
    × (count is_vad order ≡ 2)
    × (count is_transcript order ≡ 2)
    × (length order ≡ 2 + 2)
balanced_condition_order_example =
    balanced_condition_order-balanced (λ (n : ℕ). n) turn_round (λ f r xs. count-turned f xs) 7 2 1
      (omega arith) (omega arith) refl

abbrev an_authorization : StreamAuthorization
an_authorization = record {
  token = codes "t1";
  run_id = codes "r";
  call_control_id = codes "c";
  role = agent;
  expires_ns = 50;
}

abbrev a_store : StreamTokenStore
a_store = record {
  maximum = 8;
  pending = an_authorization ∷ record an_authorization { token = codes "t2" } ∷ [];
}

consumed : (consume (codes "t1") (codes "r") agent 10 a_store).1 ≡ ok an_authorization
unfolding consume
consumed = refl

abbrev frame_at : ℕ → MediaFrame
frame_at n = record {
  sequence_number = n + 3;
  track = codes "inbound";
  chunk = n;
  timestamp = 20 * n;
  pcm16 = n ∷ n ∷ [];
}

abbrev two_frames : List MediaFrame
two_frames = frame_at 1 ∷ frame_at 2 ∷ []

opened : new_capture 3 9 (codes "inbound" ∷ []) ≡ some (empty_capture 3 9 (codes "inbound" ∷ []))
unfolding new_capture
opened = refl

two_frames-InOrder : InOrder (frame_at 0) two_frames
two_frames-InOrder = ((refl, refl, refl, omega arith), ((refl, refl, refl, omega arith), tt))

observe_all-InOrder_example : unresolved (observe_all (frame_at 0 ∷ two_frames) new_tracker) ≡ false
observe_all-InOrder_example = observe_all-InOrder (frame_at 0) two_frames two_frames-InOrder
