-- ===== src/Tests/Parts.antt =====
-- Concrete runs of onset/limits.py, onset/turn_manager.py, onset/barge_in.py, onset/conversation.py,
-- onset/retry.py and onset/benchmark.py.
use telnyx_onset.Prelude.{
  ℕ, ◌+◌, ◌≤◌, ◌<◌, ◌≡◌, refl, ◌≢◌, ◌⊎◌, true, false, none, List, [], ◌∷◌, ◌++◌, arith, ◌==◌,
  if◌then◌else◌, length, Text, codes,
}
use telnyx_onset.Types.{
  transcript_interim, transcript_final, utterance_end, speech_started, LlmMessage, Role, user,
  assistant,
}
use telnyx_onset.Limits.{
  CallLimiter, TokenBudget, new_limiter, try_acquire, release, exhausted, record_all,
}
use telnyx_onset.Limits.Calls.{LimiterOp, acquire, free, run, active-run-le, try_acquire_lem}
use telnyx_onset.Limits.Budget.{exhausted-record_all}
use telnyx_onset.Turn.{new_turn_manager, handle_event, join_spaces}
use telnyx_onset.Turn.ExactlyOnce.{Timed, handle_all, Assembled, finals, handle_all-Assembled}
use telnyx_onset.BargeIn.{BargeInHandler, handle_barge_in, was_interrupted, handle_barge_in_twice}
use telnyx_onset.Conversation.{trim_messages}
use telnyx_onset.Conversation.Window.{Kept, trim_messages-Kept}
use telnyx_onset.Retry.{finished, failed, Attempt, retry_stream}
use telnyx_onset.Retry.Once.{Delivered, retry_stream-Delivered}

abbrev three_calls : List LimiterOp
three_calls = acquire ∷ acquire ∷ free ∷ acquire ∷ acquire ∷ []

active-run-le_example :
    ((run (new_limiter 2) three_calls).active ≤ 2)
    × ((run (new_limiter 2) three_calls).max_concurrent ≡ 2)
active-run-le_example = active-run-le 2 three_calls (ground arith)

abbrev one_left : CallLimiter
one_left = record { max_concurrent = 2; active = 1 }

try_acquire_example :
    (((try_acquire one_left).1 ≡ true)
      × ((one_left.max_concurrent ≡ 0) ⊎ (1 < 2))
      × (release (try_acquire one_left).0 ≡ one_left))
    ⊎ (((try_acquire one_left).1 ≡ false)
        × (one_left.max_concurrent ≢ 0)
        × (2 ≤ 1)
        × ((try_acquire one_left).0 ≡ one_left))
try_acquire_example = try_acquire_lem one_left

abbrev small_budget : TokenBudget
small_budget = record { max_tokens = 2; chars = 5 }

abbrev charges : List Text
charges = codes "ab" ∷ codes "c" ∷ []

abbrev spent_budget : TokenBudget
spent_budget = record { max_tokens = 2; chars = 9 }

spent_budget-exhausted : exhausted spent_budget ≡ true
unfolding exhausted
spent_budget-exhausted = refl

exhausted-record_all_example : exhausted (record_all spent_budget charges) ≡ true
exhausted-record_all_example = exhausted-record_all spent_budget charges spent_budget-exhausted

abbrev some_events : List Timed
some_events =
    (1, record { type = transcript_interim; transcript = codes "he" })
    ∷ (2, record { type = transcript_final; transcript = codes "hello" })
    ∷ (3, record { type = speech_started; transcript = [] })
    ∷ (4, record { type = transcript_final; transcript = codes "there" })
    ∷ (5, record { type = utterance_end; transcript = [] })
    ∷ (6, record { type = transcript_final; transcript = codes "so" })
    ∷ []

handle_all_example :
    Assembled new_turn_manager
      (handle_all new_turn_manager some_events).0
      (handle_all new_turn_manager some_events).1
      (new_turn_manager.transcript_buffer ++ finals some_events)
handle_all_example = handle_all-Assembled new_turn_manager some_events

one_turn : (handle_all new_turn_manager some_events).1 ≡ codes "hello there" ∷ []
unfolding handle_all handle_event join_spaces new_turn_manager
one_turn = refl

abbrev speaking_handler : BargeInHandler
speaking_handler = record { barged_in = false; agent_is_speaking = true }

handle_barge_in_twice_example :
    let (h1, s1) = handle_barge_in (λ (n : ℕ). n + 1) speaking_handler 0 in
    let (h2, s2) = handle_barge_in (λ (n : ℕ). n + 1) h1 s1 in
    (s2 ≡ 1)
    × (h2.agent_is_speaking ≡ false)
    × ((was_interrupted h2).1 ≡ true)
    × ((was_interrupted (was_interrupted h2).0).1 ≡ false)
handle_barge_in_twice_example = handle_barge_in_twice (λ (n : ℕ). n + 1) speaking_handler 0 refl

abbrev said : Role → Text → LlmMessage
said role content = record { role = role; content = content; tool_calls = []; tool_call_id = none }

abbrev long_talk : List LlmMessage
long_talk =
    said user (codes "a")
    ∷ said assistant (codes "b")
    ∷ said user (codes "c")
    ∷ said assistant (codes "d")
    ∷ said user (codes "e")
    ∷ []

trim_messages_example : Kept 2 long_talk (trim_messages 2 long_talk)
trim_messages_example = trim_messages-Kept 2 long_talk (omega arith)

two_kept : length (trim_messages 2 long_talk) ≡ 4
unfolding trim_messages
two_kept = refl

-- Two attempts fail before anything is yielded, and the third yields two items.
abbrev flaky : ℕ → Attempt ℕ ℕ
flaky n =
    if n == 2
    then record { items = 7 ∷ 8 ∷ []; ending = finished }
    else record { items = []; ending = failed n }

retry_stream_example : Delivered flaky (λ n. false) 3 5 0 (retry_stream flaky (λ n. false) 3 5)
retry_stream_example = retry_stream-Delivered flaky (λ n. false) 3 5
