-- ===== src/Tools/Reservation.antt =====
-- A reservation by the registry of onset/tools.py.
use telnyx_onset.Prelude.{
  ◌≡◌, refl, sym, ap, subst, ◌∙◌, true, false, Option, some, [], ◌∷◌, inl, inr, Bool-cases, arith,
  is_empty, Text, codes, text_eq, text_eq→eq, strip,
}
use telnyx_onset.Json.{Json, text, Fields, as_object}
use telnyx_onset.Tools.{
  Slots, context, Kwargs, ToolDef, Parsed, parsed, find_tool, kwargs_of, call_context, put_context,
  execute,
}
use telnyx_onset.Tools.Demo.{
  Python, get_arg, binds, json_of, json_arg, is_context, has_context, put, reserve,
  make_reservation, restaurant_tools,
}
use telnyx_onset.Tools.Outcome.{is_success, is_fine, call_of, execute-success}

get_arg-put_context : (kwargs : Kwargs) → get_arg call_context (put_context kwargs) ≡ some context
get_arg-put_context [] = refl
get_arg-put_context ((k, v) ∷ rest) = let h = get_arg-put_context rest in ground arith

get_arg-put_context_other :
    (name : Text) (kwargs : Kwargs)
    → text_eq call_context name ≡ false
    → get_arg name (put_context kwargs) ≡ get_arg name kwargs
get_arg-put_context_other name [] e = rw e refl
get_arg-put_context_other name ((k, v) ∷ rest) e = elim (Bool-cases (text_eq k call_context)) [
  | inl f ↦ rw (f, text_eq→eq k call_context f, e) refl
  | inr f ↦ rw (f, get_arg-put_context_other name rest e) refl
]

-- What a fine end of the tool tells of its arguments, and what it leaves.
abbrev Reserved : Option Json → Slots → Slots → Type 0
Reserved name before after =
    (t : Text) × (name ≡ some (text t))
    × (is_empty (strip t) ≡ false)
    × (after ≡ put (codes "name") (text (strip t)) before)

reserve-Reserved :
    (py : Python) (name : Option Json) (kwargs : Kwargs) (slots : Slots)
    → has_context kwargs ≡ true
    → is_fine (reserve py name kwargs slots).0 ≡ true
    → Reserved name slots (reserve py name kwargs slots).1
reserve-Reserved py (some (text t)) kwargs slots c h = elim (Bool-cases (is_empty (strip t))) [
  | inl e ↦ absurd (ground arith)
  | inr e ↦ (t, refl, e, rw (e, c) refl)
]
reserve-Reserved py name kwargs slots c h = absurd (ground arith)

make-Reserved :
    (py : Python) (kwargs : Kwargs) (slots : Slots)
    → has_context kwargs ≡ true
    → is_fine (make_reservation py kwargs slots).0 ≡ true
    → Reserved (json_arg (codes "name") kwargs) slots (make_reservation py kwargs slots).1
unfolding make_reservation
make-Reserved py kwargs slots c h = elim (Bool-cases (binds (codes "name" ∷ []) kwargs)) [
  | inl e ↦ rw e (reserve-Reserved py (json_arg (codes "name") kwargs) kwargs slots c (rw e at h))
  | inr e ↦ absurd (ground arith)
]

has_context-put : (kwargs : Kwargs) → has_context (put_context kwargs) ≡ true
has_context-put kwargs = ap is_context (get_arg-put_context kwargs)

json_arg-put :
    (kwargs : Kwargs)
    → json_arg (codes "name") (put_context kwargs) ≡ json_arg (codes "name") kwargs
json_arg-put kwargs = ap json_of (get_arg-put_context_other (codes "name") kwargs refl)

abbrev reserving : Python → ToolDef
reserving py = record {
  name = codes "make_reservation";
  takes_context = true;
  func = make_reservation py;
}

reserving-eq :
    (py : Python) (tool : ToolDef)
    → find_tool (codes "make_reservation") (restaurant_tools py) ≡ some tool
    → reserving py ≡ tool
reserving-eq py tool e = cc

-- A reservation that succeeds had a name that is not blank among its arguments, and leaves it without the spaces around it,
-- and nothing else, in the slots of the call.
pub execute-reserved :
    (py : Python) (loads : Text → Parsed) (arguments : Text) (slots : Slots)
    → is_success (execute (restaurant_tools py) loads (codes "make_reservation") arguments slots).0
      ≡ true
    → (fields : Fields) × (v : Json) × (t : Text) × (loads arguments ≡ parsed v)
      × (as_object v ≡ some fields)
      × (json_arg (codes "name") (kwargs_of fields) ≡ some (text t))
      × (is_empty (strip t) ≡ false)
      × ((execute (restaurant_tools py) loads (codes "make_reservation") arguments slots).1
          ≡ put (codes "name") (text (strip t)) slots)
execute-reserved py loads arguments slots h =
    let (tool, fields, v, found, loaded, obj, fine, left) =
      execute-success (restaurant_tools py) loads (codes "make_reservation") arguments slots h in
    let e = sym (reserving-eq py tool found) in
    let kwargs = put_context (kwargs_of fields) in
    let (t, named, nonblank, after) =
      make-Reserved py kwargs slots (has_context-put (kwargs_of fields))
        (subst (λ x. is_fine (call_of x fields slots).0 ≡ true) e fine) in
    (
      fields,
      v,
      t,
      loaded,
      obj,
      sym (json_arg-put (kwargs_of fields)) ∙ named,
      nonblank,
      left ∙ ap (λ x. (call_of x fields slots).1) e ∙ after,
    )
