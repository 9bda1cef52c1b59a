-- ===== src/Tools/Outcome.antt =====
-- How `execute` of onset/tools.py ends.
use telnyx_onset.Prelude.{
  ◌≡◌, refl, sym, ◌∙◌, ◌↔◌, Bool, true, false, Option, none, some, List, if◌then◌else◌, Text, arith,
}
use telnyx_onset.Json.{Json, Fields, as_object}
use telnyx_onset.Tools.{
  Slots, Return, returns, result, throws, ToolDef, Parsed, parsed, json_decode_error, other_error,
  Executed, answers, raises, find_tool, kwargs_of, put_context, answer_of, call_tool, with_tool,
  execute,
}

abbrev pub is_raise : Executed → Bool
is_raise raises = true
is_raise (answers r) = false

abbrev pub is_success : Executed → Bool
is_success raises = false
is_success (answers r) = r.succeeded

-- The arguments are no object, and the function takes the context; or they are too much for the parser.
abbrev pub Escapes : Option ToolDef → Parsed → Type 0
Escapes none p = ⊥
Escapes (some tool) other_error = Unit {0}
Escapes (some tool) (json_decode_error e) = ⊥
Escapes (some tool) (parsed v) = (tool.takes_context ≡ true) × (as_object v ≡ none)

answered-not : (name : Text) (x : Return × Slots) → is_raise (answer_of name x).0 ≡ false
answered-not name (returns c, s) = refl
answered-not name (result r, s) = refl
answered-not name (throws e, s) = refl

-- An exception leaves `execute` exactly when the tool is known and either the parser fails with an error that is no
-- JSONDecodeError, or the arguments are JSON but no object and the function takes the context.
pub execute-raises :
    (tools : List ToolDef) (loads : Text → Parsed) (name arguments : Text) (slots : Slots)
    → (is_raise (execute tools loads name arguments slots).0 ≡ true)
      ↔ Escapes (find_tool name tools) (loads arguments)
unfolding execute call_tool
execute-raises tools loads name arguments slots = go (find_tool name tools) (loads arguments)
  where
    with_fields :
        (tool : ToolDef) (o : Option Fields)
        → (is_raise (call_tool tool name o slots).0 ≡ true)
          ↔ ((tool.takes_context ≡ true) × (o ≡ none))
    with_fields tool (some fields) = ground (
      arith,
      answered-not name (
          tool.func
            (if tool.takes_context then put_context (kwargs_of fields) else kwargs_of fields)
            slots),
    )
    with_fields tool none = ground arith

    go :
        (o : Option ToolDef) (p : Parsed)
        → (is_raise (with_tool o name p slots).0 ≡ true) ↔ Escapes o p
    go none p = ground arith
    go (some tool) other_error = ((λ e. tt), (λ u. refl))
    go (some tool) (json_decode_error e) = ground arith
    go (some tool) (parsed v) = with_fields tool (as_object v)

-- Whether a call of the function succeeds.
abbrev pub is_fine : Return → Bool
is_fine (returns content) = true
is_fine (result r) = r.succeeded
is_fine (throws e) = false

answer_of-fine : (name : Text) (x : Return × Slots) → is_success (answer_of name x).0 ≡ is_fine x.0
answer_of-fine name (returns c, s) = refl
answer_of-fine name (result r, s) = refl
answer_of-fine name (throws e, s) = refl

answer_of-slots : (name : Text) (x : Return × Slots) → (answer_of name x).1 ≡ x.1
answer_of-slots name (returns c, s) = refl
answer_of-slots name (result r, s) = refl
answer_of-slots name (throws e, s) = refl

abbrev pub call_of : ToolDef → Fields → Slots → Return × Slots
call_of tool fields slots =
    tool.func (if tool.takes_context then put_context (kwargs_of fields) else kwargs_of fields)
      slots

-- A success means that a registered function of that name was run on the parsed arguments, with the
-- context if it takes it, and returned a value or a result that says so; the slots are those it left.
pub execute-success :
    (tools : List ToolDef) (loads : Text → Parsed) (name arguments : Text) (slots : Slots)
    → is_success (execute tools loads name arguments slots).0 ≡ true
    → (tool : ToolDef) × (fields : Fields) × (v : Json) × (find_tool name tools ≡ some tool)
      × (loads arguments ≡ parsed v)
      × (as_object v ≡ some fields)
      × (is_fine (call_of tool fields slots).0 ≡ true)
      × ((execute tools loads name arguments slots).1 ≡ (call_of tool fields slots).1)
unfolding execute call_tool
execute-success tools loads name arguments slots h =
    go (find_tool name tools) (loads arguments) refl refl h
  where
    Ran : Option ToolDef → Parsed → Type 0
    Ran o p =
        (tool : ToolDef) × (fields : Fields) × (v : Json) × (find_tool name tools ≡ some tool)
        × (loads arguments ≡ parsed v)
        × (as_object v ≡ some fields)
        × (is_fine (call_of tool fields slots).0 ≡ true)
        × ((with_tool o name p slots).1 ≡ (call_of tool fields slots).1)

    unpacked :
        (tool : ToolDef) (v : Json) (fields : Option Fields)
        → find_tool name tools ≡ some tool
        → loads arguments ≡ parsed v
        → as_object v ≡ fields
        → is_success (call_tool tool name fields slots).0 ≡ true
        → (x : Fields) × (fields ≡ some x)
          × (is_fine (call_of tool x slots).0 ≡ true)
          × ((call_tool tool name fields slots).1 ≡ (call_of tool x slots).1)
    unpacked tool v (some x) e f g k = (
      x,
      refl,
      sym (answer_of-fine name (call_of tool x slots)) ∙ k,
      answer_of-slots name (call_of tool x slots),
    )
    unpacked tool v none e f g k = absurd (ground arith)

    go :
        (o : Option ToolDef) (p : Parsed)
        → find_tool name tools ≡ o
        → loads arguments ≡ p
        → is_success (with_tool o name p slots).0 ≡ true
        → Ran o p
    go none p e f k = absurd (ground arith)
    go (some tool) other_error e f k = absurd (ground arith)
    go (some tool) (json_decode_error m) e f k = absurd (ground arith)
    go (some tool) (parsed v) e f k =
        let (x, g, fine, left) = unpacked tool v (as_object v) e f refl k in
        (tool, x, v, e, f, g, fine, left)
