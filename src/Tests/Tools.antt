-- ===== src/Tests/Tools.antt =====
-- Concrete runs of onset/tools.py.
use telnyx_onset.Prelude.{◌≡◌, refl, ◌↔◌, true, false, some, [], is_empty, Text, codes, strip}
use telnyx_onset.Json.{
  Json, Fields, text, array, empty_array, object, empty_object, field, as_object,
}
use telnyx_onset.Tools.{parsed, find_tool, kwargs_of, execute}
use telnyx_onset.Tools.Demo.{Python, json_arg, put, get_menu, make_reservation, restaurant_tools}
use telnyx_onset.Tools.Outcome.{is_raise, is_success, Escapes, execute-raises}
use telnyx_onset.Tools.Reservation.{execute-reserved}

abbrev python : Python
python = record {
  lower = λ t. t;
  str = λ v. codes "?";
  exceeds_eight = λ v. some false;
  crc32 = λ t. 1230042;
  type_error = codes "TypeError";
  attribute_error = codes "AttributeError";
}

abbrev named : Fields
named = field (codes "name") (text (codes " Ann ")) empty_object

-- The model sends a list in place of an object.
execute-raises_example :
    (is_raise
        (execute
          (restaurant_tools python)
          (λ t. parsed (array empty_array))
          (codes "make_reservation")
          (codes "[]")
          []).0
      ≡ true)
    ↔ Escapes
        (find_tool (codes "make_reservation") (restaurant_tools python))
        (parsed (array empty_array))
execute-raises_example =
    execute-raises (restaurant_tools python) (λ t. parsed (array empty_array))
      (codes "make_reservation") (codes "[]") []

list_raises :
    is_raise
      (execute
        (restaurant_tools python)
        (λ t. parsed (array empty_array))
        (codes "make_reservation")
        (codes "[]")
        []).0
    ≡ true
unfolding execute
list_raises = refl

execute-reserved_example :
    (fields : Fields) × (v : Json) × (t : Text) × (parsed (object named) ≡ parsed v)
    × (as_object v ≡ some fields)
    × (json_arg (codes "name") (kwargs_of fields) ≡ some (text t))
    × (is_empty (strip t) ≡ false)
    × ((execute
          (restaurant_tools python)
          (λ t. parsed (object named))
          (codes "make_reservation")
          (codes "{}")
          []).1
        ≡ put (codes "name") (text (strip t)) [])
unfolding execute make_reservation strip
execute-reserved_example = execute-reserved python (λ t. parsed (object named)) (codes "{}") [] refl

menu_with_argument :
    is_success
      (execute
        (restaurant_tools python)
        (λ t. parsed (object named))
        (codes "get_menu")
        (codes "{}")
        []).0
    ≡ false
unfolding execute get_menu
menu_with_argument = refl
