-- ===== src/Json.antt =====
-- The values that Python's `json.loads` gives, and what the code asks of them. The parser itself is an
-- argument of its users.
use telnyx_onset.Prelude.{
  ℕ, Bool, true, false, not, Option, none, some, ◌==◌, if◌then◌else◌, is_empty, Text, text_eq,
}

-- Integers stand apart by their sign: `negative n` is -(n + 1). Of a float only is kept whether it is 0.
mutual
  pub data Json : Type 0 where
    null : Json
    boolean : Bool → Json
    natural negative : ℕ → Json
    float : Bool → Json
    text : Text → Json
    array : Items → Json
    object : Fields → Json

  pub data Items : Type 0 where
    empty_array : Items
    item : Json → Items → Items

  pub data Fields : Type 0 where
    empty_object : Fields
    field : Text → Json → Fields → Fields

-- `d.get(key, default)`.
abbrev pub get_or : Json → Text → Fields → Json
get_or default key empty_object = default
get_or default key (field name value rest) =
    let later = get_or default key rest in if text_eq name key then value else later

abbrev pub get : Text → Fields → Json
get key fields = get_or null key fields

abbrev pub no_field : Fields → Bool
no_field empty_object = true
no_field (field _ _ _) = false

abbrev pub no_item : Items → Bool
no_item empty_array = true
no_item (item _ _) = false

-- Python's truth value.
abbrev pub truthy : Json → Bool
truthy null = false
truthy (boolean b) = b
truthy (natural n) = not (n == 0)
truthy (negative n) = true
truthy (float nonzero) = nonzero
truthy (text t) = not (is_empty t)
truthy (array items) = not (no_item items)
truthy (object fields) = not (no_field fields)

-- `isinstance(value, dict)`, with its fields.
abbrev pub as_object : Json → Option Fields
as_object (object fields) = some fields
as_object _ = none

abbrev pub as_text : Json → Option Text
as_text (text t) = some t
as_text _ = none
