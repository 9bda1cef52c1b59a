-- ===== src/Tests/Response.antt =====
-- Concrete responses of onset/agent.py.
use telnyx_onset.Prelude.{
  ◌≡◌, refl, true, false, none, [], ◌∷◌, codes, is_empty, strip, text_eq, if◌then◌else◌, is_space,
  lstrip, rstrip,
}
use telnyx_onset.Types.{text_delta, tool_call, ToolCallRequest}
use telnyx_onset.Retry
use telnyx_onset.Retry.{Attempt}
use telnyx_onset.Conversation.{new_conversation, add_assistant_turn, add_tool_result}
use telnyx_onset.Limits.{exhausted, new_budget}
use telnyx_onset.Prelude.{arith, ◌&&◌}
use telnyx_onset.Agent.{Agent}
use telnyx_onset.Agent.Others.{others, hangs_up}
use telnyx_onset.Agent.Response.{
  AgentConfig, World, Voice, Synthesis, done, answers, is_cancelled, tool_round, generate_response,
}
use telnyx_onset.Agent.Response.Rounds.{IsSettled, tool_round-IsSettled}
use telnyx_onset.Agent.Response.Teardown.{IsQuiet, generate_response-IsQuiet}
use telnyx_onset.Agent.Response.Unheard.{cut_at_once, generate_response-unheard}
use telnyx_onset.Agent.Response.Owner.{generate_response-Owned}
use telnyx_onset.Agent.Ownership.{Owned}
use telnyx_onset.Tests.Call.{talking, talking-Owned}

abbrev config : AgentConfig
config = record {
  greeting = codes "hello";
  has_tools = true;
  nodes = [];
  fallback_message = codes "sorry";
  max_tool_rounds = 3;
  budget_exceeded_message = codes "goodbye";
}

abbrev one_frame : Synthesis
one_frame = record {
  frames = ([], 1 ∷ []) ∷ [];
  ending = done;
  cancelled_after = none;
  meanwhile = [];
}

abbrev voice : Voice
voice = record { synthesize = λ text. one_frame; waiting = []; wait_cancelled = false }

abbrev weather : ToolCallRequest
weather = record { id = codes "a"; name = codes "weather"; arguments = [] }

abbrev wind : ToolCallRequest
wind = record { id = codes "b"; name = codes "wind"; arguments = [] }

-- The model asks for two tools, the first answers, and the response is cancelled in the second.
abbrev asking : World
asking = record {
  prompt = λ a. codes "be brief";
  llm = λ round attempt. record {
    items = tool_call weather ∷ tool_call wind ∷ [];
    ending = Retry.finished;
  };
  sleep_cancelled = λ round attempt. false;
  stream_max_retries = 2;
  stream_retry_backoff = 1;
  tool = λ round call.
      if text_eq call.id (codes "a") then answers (codes "sunny") true else is_cancelled;
  voice = voice;
  fallback_voice = voice;
  streaming = λ round. [];
  working = λ round call. hangs_up ∷ [];
  hangup_cancelled = false;
}

abbrev asked : Agent
asked = record talking { conversation = new_conversation 8 }

empty-IsSettled : IsSettled asked.conversation
unfolding new_conversation
empty-IsSettled = record { turns = omega arith; paired = ([], refl) }

tool_round-IsSettled_example :
    IsSettled (tool_round config asking 0 (weather ∷ wind ∷ []) asked).0.conversation
tool_round-IsSettled_example =
    tool_round-IsSettled config asking 0 (weather ∷ wind ∷ []) asked empty-IsSettled

unspent : (exhausted asked.budget && asked.budget_announced) ≡ false
unfolding exhausted new_budget
unspent = refl

generate_response-IsQuiet_example : IsQuiet (generate_response config asking 1 asked).0
generate_response-IsQuiet_example =
    generate_response-IsQuiet config asking 1 asked empty-IsSettled unspent

abbrev cut_voice : Voice
cut_voice = record voice { synthesize = λ text. cut_at_once }

-- The model answers in one piece, and the speech is superseded at once.
abbrev cut_short : World
cut_short = record asking {
  llm = λ round attempt. record { items = text_delta (codes "fine") ∷ []; ending = Retry.finished };
  voice = cut_voice;
}

not_blank : is_empty (strip (codes "fine")) ≡ false
unfolding strip lstrip rstrip is_space
not_blank = refl

unlimited : asked.budget.max_tokens ≡ 0
unfolding new_budget
unlimited = refl

generate_response-unheard_example :
    let b = (generate_response config cut_short 1 asked).0 in
    (b.media ≡ asked.media)
    × (b.conversation ≡ add_assistant_turn (codes "fine") false [] asked.conversation)
generate_response-unheard_example =
    generate_response-unheard config cut_short 1 (codes "fine") asked refl refl refl not_blank
      unlimited refl

asked-Owned : Owned asked
asked-Owned = record { past = talking-Owned.past; owner = talking-Owned.owner }

generate_response-Owned_example : Owned (generate_response config cut_short 1 asked).0
generate_response-Owned_example = generate_response-Owned config cut_short 1 asked asked-Owned

-- The history of the cancelled tool round: both calls have a result.
tool_round_runs :
    (tool_round config asking 0 (weather ∷ wind ∷ []) asked).0.conversation.messages
    ≡ (add_tool_result wind.id (codes "(interrupted)") (
        add_tool_result weather.id
          (codes "sunny")
          (add_assistant_turn [] false (weather ∷ wind ∷ []) asked.conversation))).messages
unfolding tool_round new_conversation others
tool_round_runs = refl
