-- ===== src/Tools.antt =====
-- onset/tools.py: the registry's `execute`. `json.loads`, `str` of values and of exceptions, and the registered
-- functions are arguments; the schemas for the model are left out.
pub mod Demo
pub mod Outcome
pub mod Reservation
use telnyx_onset.Prelude.{
  ℕ, Bool, true, false, not, ◌||◌, ◌&&◌, Option, none, some, List, [], ◌∷◌, ◌++◌, if◌then◌else◌,
  Text, codes, text_eq,
}
use telnyx_onset.Json.{Json, Fields, empty_object, field, as_object}

-- `call_context.slots`, a dict, the newest entry of a key first.
abbrev pub Slots : Type 0
Slots = List (Text × Json)

-- The value of a keyword argument: of the parsed text, or the call's context.
pub data Arg : Type 0 where
  value : Json → Arg
  context : Arg

abbrev pub Kwargs : Type 0
Kwargs = List (Text × Arg)

pub record ToolResult : Type 0 where
  pub content : Text
  pub succeeded : Bool

-- How a call of a registered function ends, awaited if it is a coroutine: with a value that is no ToolResult,
-- as the text that `str` makes of it, with a ToolResult, or with an Exception, as its text. The cancellation
-- of an awaited call, which is no Exception and leaves `execute`, is left to the response that awaits it.
pub data Return : Type 0 where
  returns : Text → Return
  result : ToolResult → Return
  throws : Text → Return

-- `takes_context` tells that `call_context` is a parameter of the function.
pub record ToolDef : Type 0 where
  pub name : Text
  pub takes_context : Bool
  pub func : Kwargs → Slots → Return × Slots

pub data Parsed : Type 0 where
  parsed : Json → Parsed
  json_decode_error : Text → Parsed
  other_error : Parsed

-- How `execute` ends.
pub data Executed : Type 0 where
  answers : ToolResult → Executed
  raises : Executed

abbrev pub find_tool : Text → List ToolDef → Option ToolDef
find_tool name [] = none
find_tool name (t ∷ ts) =
    let rest = find_tool name ts in if text_eq t.name name then some t else rest

abbrev pub kwargs_of : Fields → Kwargs
kwargs_of empty_object = []
kwargs_of (field key v rest) = (key, value v) ∷ kwargs_of rest

abbrev pub call_context : Text
call_context = codes "call_context"

-- `kwargs["call_context"] = extra_val`: a known key keeps its place.
abbrev pub put_context : Kwargs → Kwargs
put_context [] = (call_context, context) ∷ []
put_context ((k, v) ∷ rest) =
    let others = put_context rest in
    if text_eq k call_context then (k, context) ∷ rest else (k, v) ∷ others

abbrev pub failure : Text → ToolResult
failure content = record { content = content; succeeded = false }

-- The second `try`.
abbrev pub answer_of : Text → Return × Slots → Executed × Slots
answer_of name (returns content, slots) =
    (answers (record { content = content; succeeded = true }), slots)
answer_of name (result r, slots) = (answers r, slots)
answer_of name (throws e, slots) =
    (answers (failure (codes "Error executing " ++ (name ++ (codes ": " ++ e)))), slots)

abbrev pub not_a_mapping : Text
not_a_mapping = codes "argument after ** must be a mapping"

-- The arguments are a dict: they take the context if the function does. Anything else raises a TypeError, inside
-- the `try` where it is unpacked, or before it where the context is put in.
unfoldable pub call_tool : ToolDef → Text → Option Fields → Slots → Executed × Slots
call_tool tool name (some fields) slots = answer_of name (
    tool.func (if tool.takes_context then put_context (kwargs_of fields) else kwargs_of fields)
      slots)
call_tool tool name none slots =
    if tool.takes_context then (raises, slots) else answer_of name (throws not_a_mapping, slots)

abbrev pub with_arguments : ToolDef → Text → Parsed → Slots → Executed × Slots
with_arguments tool name (parsed v) slots = call_tool tool name (as_object v) slots
with_arguments tool name (json_decode_error e) slots =
    (answers (failure (codes "Error: invalid arguments JSON: " ++ e)), slots)
with_arguments tool name other_error slots = (raises, slots)

abbrev pub with_tool : Option ToolDef → Text → Parsed → Slots → Executed × Slots
with_tool none name arguments slots =
    (answers (failure (codes "Error: unknown tool '" ++ (name ++ codes "'"))), slots)
with_tool (some tool) name arguments slots = with_arguments tool name arguments slots

-- `registry.execute(name, arguments_json, call_context=context)`.
unfoldable pub execute : List ToolDef → (Text → Parsed) → Text → Text → Slots → Executed × Slots
unfolding call_tool
execute tools loads name arguments_json slots =
    with_tool (find_tool name tools) name (loads arguments_json) slots
