-- ===== src/Llm.antt =====
-- onset/telnyx.py: the stream of one completion, as `TelnyxLLM.stream_response` yields it from the chunks
-- of the client library. How the library's stream ends is an argument.
pub mod Calls
use telnyx_onset.Prelude.{
  ℕ, ◌+◌, Bool, true, false, not, ◌||◌, List, [], ◌∷◌, ◌++◌, Option, none, some, leb, ◌==◌,
  if◌then◌else◌, is_empty, Text,
}
use telnyx_onset.Types.{LlmEvent, text_delta, tool_call, ToolCallRequest}
use telnyx_onset.Retry
use telnyx_onset.Retry.{Attempt}

-- A fragment of a tool call; a field that is missing, or whose object is, is empty.
pub record CallDelta : Type 0 where
  pub index : ℕ
  pub id : Text
  pub name : Text
  pub arguments : Text

-- The first choice of a chunk; one without choices is `none`.
pub record Delta : Type 0 where
  pub content : Text
  pub tool_calls : List CallDelta

abbrev pub Accumulators : Type 0
Accumulators = List (ℕ × ToolCallRequest)

abbrev pub if_any : Text → Text → Text
if_any new old = if is_empty new then old else new

abbrev pub extend : CallDelta → ToolCallRequest → ToolCallRequest
extend d acc = record {
  id = if_any d.id acc.id;
  name = if_any d.name acc.name;
  arguments = if is_empty d.arguments then acc.arguments else acc.arguments ++ d.arguments;
}

abbrev pub no_call : ToolCallRequest
no_call = record { id = []; name = []; arguments = [] }

-- The accumulator of the fragment's index, which is made at its first fragment.
unfoldable pub accumulate : CallDelta → Accumulators → Accumulators
accumulate d [] = (d.index, extend d no_call) ∷ []
accumulate d ((i, acc) ∷ rest) =
    let others = accumulate d rest in
    if i == d.index then (i, extend d acc) ∷ rest else (i, acc) ∷ others

unfoldable pub accumulate_all : List CallDelta → Accumulators → Accumulators
unfolding accumulate
accumulate_all [] accs = accs
accumulate_all (d ∷ ds) accs = accumulate_all ds (accumulate d accs)

-- The text of the chunks, and their fragments, in the order of the loop.
unfoldable pub text_events : List (Option Delta) → List LlmEvent
text_events [] = []
text_events (none ∷ chunks) = text_events chunks
text_events (some d ∷ chunks) =
    let rest = text_events chunks in
    if is_empty d.content then rest else text_delta d.content ∷ rest

unfoldable pub accumulate_chunks : List (Option Delta) → Accumulators → Accumulators
unfolding accumulate_all
accumulate_chunks [] accs = accs
accumulate_chunks (none ∷ chunks) accs = accumulate_chunks chunks accs
accumulate_chunks (some d ∷ chunks) accs =
    accumulate_chunks chunks (accumulate_all d.tool_calls accs)

-- `sorted` by the index.
abbrev pub insert : ℕ × ToolCallRequest → Accumulators → Accumulators
insert x [] = x ∷ []
insert x (y ∷ ys) = let rest = insert x ys in if leb x.0 y.0 then x ∷ y ∷ ys else y ∷ rest

unfoldable pub sorted : Accumulators → Accumulators
sorted [] = []
sorted (x ∷ xs) = insert x (sorted xs)

unfoldable pub call_events : Accumulators → List LlmEvent
call_events [] = []
call_events ((i, acc) ∷ accs) = tool_call acc ∷ call_events accs

-- Tool calls follow only a stream that ends by itself.
unfoldable pub stream_response :
    {E : Type 0} → List (Option Delta) → Retry.Ending E → Attempt LlmEvent E
unfolding text_events accumulate_chunks sorted call_events
stream_response chunks Retry.finished = record {
  items = text_events chunks ++ call_events (sorted (accumulate_chunks chunks []));
  ending = Retry.finished;
}
stream_response chunks (Retry.failed e) = record {
  items = text_events chunks;
  ending = Retry.failed e;
}
stream_response chunks Retry.cancelled = record {
  items = text_events chunks;
  ending = Retry.cancelled;
}
