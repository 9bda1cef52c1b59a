-- ===== src/Conversation.antt =====
-- onset/conversation.py: the message history of one call. Times and log lines are left out.
pub mod Window
use telnyx_onset.Prelude.{
  ℕ, ◌+◌, Text, codes, strip, rstrip, Bool, true, false, ◌&&◌, Option, none, some, List, [], ◌∷◌,
  ◌++◌, ltb, length, if◌then◌else◌,
}
use telnyx_onset.Types.{ToolCallRequest, LlmMessage, Role, system, user, assistant, tool}

abbrev pub interrupted_marker : Text
interrupted_marker = codes "[interrupted]"

pub record Conversation : Type 0 where
  pub messages : List LlmMessage
  pub max_turns : ℕ

unfoldable pub new_conversation : ℕ → Conversation
new_conversation max_turns = record { messages = []; max_turns = max_turns }

abbrev pub is_user : Role → Bool
is_user user = true
is_user _ = false

abbrev pub user_count : List LlmMessage → ℕ
user_count [] = 0
user_count (m ∷ ms) = (if is_user m.role then 1 else 0) + user_count ms

-- The loop of `_trim`; the count is taken anew in each round.
unfoldable pub trim_messages : ℕ → List LlmMessage → List LlmMessage
trim_messages max_turns [] = []
trim_messages max_turns (m ∷ ms) =
    let rest = trim_messages max_turns ms in
    if ltb max_turns (user_count (m ∷ ms)) && ltb 2 (length (m ∷ ms)) then rest else m ∷ ms

unfoldable pub trim : Conversation → Conversation
unfolding trim_messages
trim c = record c { messages = trim_messages c.max_turns c.messages }

unfoldable pub add_user_turn : Text → Conversation → Conversation
unfolding trim
add_user_turn text c = trim (record c {
  messages =
      c.messages
      ++ (record { role = user; content = text; tool_calls = []; tool_call_id = none } ∷ []);
})

unfoldable pub interrupted_content : Text → Text
unfolding strip rstrip
interrupted_content text = strip (rstrip text ++ (b' ' ∷ interrupted_marker))

unfoldable pub add_assistant_turn : Text → Bool → List ToolCallRequest → Conversation → Conversation
unfolding trim interrupted_content
add_assistant_turn text interrupted tool_calls c = trim (record c {
  messages =
      c.messages
      ++ (record {
        role = assistant;
        content = if interrupted then interrupted_content text else text;
        tool_calls = tool_calls;
        tool_call_id = none;
      }
          ∷ []);
})

unfoldable pub add_tool_result : Text → Text → Conversation → Conversation
add_tool_result tool_call_id result c = record c {
  messages =
      c.messages
      ++ (record {
        role = tool;
        content = result;
        tool_calls = [];
        tool_call_id = some tool_call_id;
      }
          ∷ []);
}
