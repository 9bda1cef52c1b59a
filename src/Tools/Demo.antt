-- ===== src/Tools/Demo.antt =====
-- onset/tools.py: the three tools of the restaurant. `str.lower`, `str`, the comparison of a party with 8, the texts of
-- exceptions and `zlib.crc32` of an encoded text are arguments.
use telnyx_onset.Prelude.{
  ℕ, ◌+◌, ◌/◌, ◌%◌, Bool, true, false, not, ◌||◌, ◌&&◌, Option, none, some, List, [], ◌∷◌, ◌++◌,
  if◌then◌else◌, is_empty, Text, codes, text_eq, strip,
}
use telnyx_onset.Json.{Json, text}
use telnyx_onset.Tools.{
  Slots, Arg, value, context, Kwargs, Return, returns, result, throws, ToolDef, call_context,
  failure,
}

-- `exceeds_eight` gives `none` for a TypeError.
pub record Python : Type 0 where
  pub lower : Text → Text
  pub str : Json → Text
  pub exceeds_eight : Json → Option Bool
  pub crc32 : Text → ℕ
  pub type_error : Text
  pub attribute_error : Text

abbrev pub get_arg : Text → Kwargs → Option Arg
get_arg name [] = none
get_arg name ((k, v) ∷ rest) =
    let later = get_arg name rest in if text_eq k name then some v else later

abbrev pub member : Text → List Text → Bool
member name [] = false
member name (x ∷ xs) = text_eq x name || member name xs

-- Whether Python binds the keywords to a signature: none is unknown, and none that is required is missing.
abbrev pub known : List Text → Kwargs → Bool
known names [] = true
known names ((k, v) ∷ rest) = member k names && known names rest

abbrev pub given : List Text → Kwargs → Bool
given [] kwargs = true
given (name ∷ names) kwargs = elim (get_arg name kwargs) [
  | none ↦ false
  | some v ↦ given names kwargs
]

abbrev pub binds : List Text → Kwargs → Bool
binds required kwargs = known (call_context ∷ required) kwargs && given required kwargs

-- `substring in text`.
abbrev pub is_prefix : Text → Text → Bool
is_prefix [] t = true
is_prefix (c ∷ cs) [] = false
is_prefix (c ∷ cs) (d ∷ ds) = text_eq (c ∷ []) (d ∷ []) && is_prefix cs ds

abbrev pub is_in : Text → Text → Bool
is_in part [] = is_prefix part []
is_in part (c ∷ cs) = is_prefix part (c ∷ cs) || is_in part cs

abbrev pub json_of : Option Arg → Option Json
json_of (some (value v)) = some v
json_of (some context) = none
json_of none = none

abbrev pub json_arg : Text → Kwargs → Option Json
json_arg name kwargs = json_of (get_arg name kwargs)

abbrev pub is_context : Option Arg → Bool
is_context (some context) = true
is_context (some (value v)) = false
is_context none = false

-- `if call_context:`. `execute` puts the context in, so a value of the model's own does not come there.
abbrev pub has_context : Kwargs → Bool
has_context kwargs = is_context (get_arg call_context kwargs)

abbrev pub put : Text → Json → Slots → Slots
put key v slots = (key, v) ∷ slots

abbrev pub slot_or : Text → Text → (Json → Text) → Slots → Text
slot_or key default str [] = default
slot_or key default str ((k, v) ∷ rest) =
    let later = slot_or key default str rest in if text_eq k key then str v else later

abbrev pub check_texts : List Text
check_texts = codes "date" ∷ codes "time" ∷ codes "party_size" ∷ []

module _ (py : Python) where
  abbrev fill_slots : Kwargs → Json → Json → Json → Slots → Slots
  fill_slots kwargs date time party_size slots =
      if has_context kwargs
      then put (codes "party_size") party_size
          (put (codes "time") time (put (codes "date") date slots))
      else slots

  abbrev seats : Option Bool → Kwargs → Json → Json → Json → Slots → Return × Slots
  seats none kwargs date time party_size slots = (throws py.type_error, slots)
  seats (some true) kwargs date time party_size slots = (
    returns (
        codes
          "We cannot seat parties larger than 8. Please email events@goldenfork.example.com for large group bookings."),
    slots,
  )
  seats (some false) kwargs date time party_size slots = (
    returns (
        codes "A table for "
        ++ (py.str party_size
            ++ (codes " is available on "
                ++ (py.str date ++ (codes " at " ++ (py.str time ++ codes ".")))))),
    fill_slots kwargs date time party_size slots,
  )

  abbrev available : Option Json → Option Json → Option Json → Kwargs → Slots → Return × Slots
  available (some (text date)) (some time) (some party_size) kwargs slots =
      if is_in (codes "monday") (py.lower date)
      then (returns (codes "Sorry, the restaurant is closed on Mondays."), slots)
      else seats (py.exceeds_eight party_size) kwargs (text date) time party_size slots
  available _ _ _ kwargs slots = (throws py.attribute_error, slots)

  unfoldable pub check_availability : Kwargs → Slots → Return × Slots
  check_availability kwargs slots =
      if not (binds check_texts kwargs)
      then (throws py.type_error, slots)
      else available (json_arg (codes "date") kwargs) (json_arg (codes "time") kwargs)
          (json_arg (codes "party_size") kwargs) kwargs slots

  -- `f"{number:04d}"` of a number below 10000.
  abbrev pub four_digits : ℕ → Text
  four_digits n = (48 + n / 1000) ∷ (48 + n / 100 % 10) ∷ (48 + n / 10 % 10) ∷ (48 + n % 10) ∷ []

  abbrev pub confirmation : Text → Slots → Text
  confirmation name slots =
      codes "Reservation confirmed for "
      ++ (name
          ++ (codes ": party of "
              ++ (slot_or (codes "party_size") (codes "your party") py.str slots
                  ++ (codes " on "
                      ++ (slot_or (codes "date") (codes "the requested date") py.str slots
                          ++ (codes " at "
                              ++ (slot_or (codes "time") (codes "the requested time") py.str slots
                                  ++ (codes ". Confirmation number: GF-"
                                      ++ (four_digits (py.crc32 name % 10000) ++ codes ".")))))))))

  abbrev pub confirm : Bool → Text → Slots → Return × Slots
  confirm true name slots =
      let named = put (codes "name") (text name) slots in (returns (confirmation name named), named)
  confirm false name slots =
      (returns (codes "Reservation confirmed for " ++ (name ++ codes ".")), slots)

  abbrev pub reserve : Option Json → Kwargs → Slots → Return × Slots
  reserve (some (text name)) kwargs slots =
      if is_empty (strip name)
      then (
        result (
            failure
              (codes "Error: a non-empty caller name is required before making the reservation.")),
        slots,
      )
      else confirm (has_context kwargs) (strip name) slots
  reserve _ kwargs slots = (throws py.attribute_error, slots)

  unfoldable pub make_reservation : Kwargs → Slots → Return × Slots
  make_reservation kwargs slots =
      if not (binds (codes "name" ∷ []) kwargs)
      then (throws py.type_error, slots)
      else reserve (json_arg (codes "name") kwargs) kwargs slots

  unfoldable pub get_menu : Kwargs → Slots → Return × Slots
  get_menu [] slots = (
    returns (
        codes
          "Tonight's specials: Pan-seared salmon with lemon butter, $32. Truffle mushroom risotto, $28. Grilled ribeye with roasted vegetables, $45. All entrees come with a house salad."),
    slots,
  )
  get_menu (x ∷ xs) slots = (throws py.type_error, slots)

  abbrev pub restaurant_tools : List ToolDef
  restaurant_tools =
      record { name = codes "check_availability"; takes_context = true; func = check_availability }
      ∷ record { name = codes "make_reservation"; takes_context = true; func = make_reservation }
      ∷ record { name = codes "get_menu"; takes_context = false; func = get_menu }
      ∷ []
