-- ===== src/Tests/Call.antt =====
-- Concrete runs of onset/agent.py.
use telnyx_onset.Prelude.{◌≡◌, refl, ◌⊎◌, true, false, none, some, [], ◌∷◌, codes}
use telnyx_onset.Types.{SttEvent, transcript_final, production}
use telnyx_onset.Turn.{new_turn_manager, handle_event}
use telnyx_onset.Conversation.{new_conversation}
use telnyx_onset.Limits.{new_budget}
use telnyx_onset.Media
use telnyx_onset.Agent.{Agent, Task, stt_event}
use telnyx_onset.Agent.Loop.{Env, cancelled, trigger, handle_item}
use telnyx_onset.Agent.Trigger.{SameTurn, Interrupted, SameCall, interrupting, trigger_lem}
use telnyx_onset.Agent.Ownership.{Owned, Settles, left, handle_item-Owned}
use telnyx_onset.Agent.Supersede.{the_end, handle_item-turn_lost}

-- Awaiting a response leaves it as it is, and does not raise.
abbrev calm : Env
calm = record { flush_times = (1, 2, 3); flush_error = none; now = 9; settle = λ a. (a, false) }

abbrev first_task : Task
first_task = record { generation = 1; started = true; done = false; cancels = 0 }

abbrev pub talking : Agent
talking = record {
  mode = production;
  half_duplex = false;
  listen_guard = 5;
  silence_frame = 0 ∷ [];
  prebuffer_frames = 2;
  hangups = 0;
  media = Media.new_stream 4 false;
  conversation = new_conversation 8;
  turn_manager = record new_turn_manager { transcript_buffer = codes "hello" ∷ [] };
  barge_in = record { barged_in = false; agent_is_speaking = true };
  budget = new_budget 0;
  budget_announced = false;
  current_node = none;
  ending = false;
  degraded = false;
  closed = false;
  events = [];
  response_task = some first_task;
  response_gen = 1;
  current_response_gen = some 1;
  speak_gen = 1;
  current_speak_gen = some 1;
  speak_done = false;
  cancellation_requested = [];
  mute_until = 0;
  inbound_frame_index = 0;
  first_speech_frame_recorded = false;
  first_interim_recorded = false;
  first_final_recorded = false;
  stt_fed = [];
  milestones = [];
}

abbrev a_final : SttEvent
a_final = record { type = transcript_final; transcript = codes "wait" }

trigger_example :
    let b = trigger calm a_final talking in
    SameTurn talking b
    × (((interrupting a_final talking ≡ true) × Interrupted talking b)
        ⊎ ((interrupting a_final talking ≡ false) × SameCall talking b))
trigger_example = trigger_lem calm a_final talking

abbrev calm-Settles : Settles calm
calm-Settles = λ a h. h

pub talking-Owned : Owned talking
talking-Owned = record { past = tt; owner = (refl, refl, refl) }

handle_item-Owned_example : Owned (left (handle_item calm (stt_event the_end) talking))
handle_item-Owned_example =
    handle_item-Owned calm calm-Settles (stt_event the_end) talking talking-Owned

abbrev half : Agent
half = record talking { half_duplex = true }

-- The response to an earlier turn was created and has not run yet.
abbrev unstarted : Task
unstarted = record { generation = 1; started = false; done = false; cancels = 0 }

abbrev hurried : Agent
hurried = record talking {
  response_task = some unstarted;
  barge_in = record { barged_in = false; agent_is_speaking = false };
}

hurried-Owned : Owned hurried
hurried-Owned = record { past = tt; owner = (refl, refl, refl) }

hello_turn : (handle_event hurried.turn_manager calm.now the_end).1 ≡ some (codes "hello")
unfolding handle_event new_turn_manager
hello_turn = refl

handle_item-turn_lost_example :
    (b : Agent) × (handle_item calm (stt_event the_end) hurried ≡ cancelled b)
    × (b.response_task ≡ some (record unstarted { done = true; cancels = 1 }))
    × (b.conversation ≡ hurried.conversation)
    × (b.degraded ≡ false)
handle_item-turn_lost_example =
    handle_item-turn_lost calm (codes "hello") unstarted hurried hurried-Owned refl refl refl refl
      hello_turn refl
