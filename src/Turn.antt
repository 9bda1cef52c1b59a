-- ===== src/Turn.antt =====
-- onset/turn_manager.py: user turns assembled from transcription events. The time of an event is an
-- argument, in ticks of the monotonic clock; logging is left out.
pub mod ExactlyOnce
use telnyx_onset.Prelude.{ℕ, ◌+◌, Text, Option, none, some, List, [], ◌∷◌, ◌++◌}
use telnyx_onset.Types.{
  SttEvent, SttEventType, transcript_interim, transcript_final, utterance_end, speech_started,
}

pub record TurnManager : Type 0 where
  pub transcript_buffer : List Text
  pub turn_start_time : Option ℕ
  pub source_event_count : ℕ
  pub turn_sequence : ℕ
  pub last_completed_turn_id : Option ℕ
  pub last_completed_source_event_count : ℕ

unfoldable pub new_turn_manager : TurnManager
new_turn_manager = record {
  transcript_buffer = [];
  turn_start_time = none;
  source_event_count = 0;
  turn_sequence = 0;
  last_completed_turn_id = none;
  last_completed_source_event_count = 0;
}

-- `" ".join(...)`
unfoldable pub join_spaces : List Text → Text
join_spaces [] = []
join_spaces (t ∷ []) = t
join_spaces (t ∷ u ∷ ts) = t ++ (b' ' ∷ join_spaces (u ∷ ts))

unfoldable pub start_turn_clock : ℕ → TurnManager → TurnManager
start_turn_clock now m = record m {
  turn_start_time = elim m.turn_start_time [ none ↦ some now | some t ↦ some t ];
}

unfoldable pub count_event : TurnManager → TurnManager
count_event m = record m { source_event_count = m.source_event_count + 1 }

-- The branch of an utterance end, on the buffer.
unfoldable pub end_utterance : List Text → TurnManager → TurnManager × Option Text
end_utterance [] m = (record m { turn_start_time = none; source_event_count = 0 }, none)
end_utterance (t ∷ ts) m = (
  record m {
    transcript_buffer = [];
    turn_start_time = none;
    turn_sequence = m.turn_sequence + 1;
    last_completed_turn_id = some (m.turn_sequence + 1);
    last_completed_source_event_count = m.source_event_count;
    source_event_count = 0;
  },
  some (join_spaces (t ∷ ts)),
)

unfoldable pub dispatch : SttEventType → ℕ → Text → TurnManager → TurnManager × Option Text
unfolding start_turn_clock count_event end_utterance join_spaces
dispatch transcript_final now text m =
    let m' = count_event (start_turn_clock now m) in
    (record m' { transcript_buffer = m'.transcript_buffer ++ (text ∷ []) }, none)
dispatch transcript_interim now text m = (count_event (start_turn_clock now m), none)
dispatch utterance_end now text m = end_utterance m.transcript_buffer (count_event m)
dispatch speech_started now text m = (m, none)

unfoldable pub handle_event : TurnManager → ℕ → SttEvent → TurnManager × Option Text
unfolding dispatch
handle_event m now event = dispatch event.type now event.transcript m

unfoldable pub set_listening : TurnManager → TurnManager
set_listening m = record m {
  transcript_buffer = [];
  turn_start_time = none;
  source_event_count = 0;
}
