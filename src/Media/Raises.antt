-- ===== src/Media/Raises.antt =====
-- The messages at which `decode` of onset/media.py raises.
use telnyx_onset.Prelude.{
  ◌≡◌, refl, sym, subst, inl, inr, Bool, true, false, ◌&&◌, ◌||◌, Option, none, some, if◌then◌else◌,
  Text, codes, text_eq, text_eq→eq, Bool-cases,
}
use telnyx_onset.Json.{
  Json, null, boolean, natural, negative, float, text, array, object, Fields, empty_object, get,
  truthy, as_object,
}
use telnyx_onset.Media.Inbound.{
  InboundEvent, Exception, attribute_error, recursion_error, Loaded, value, refused, too_deep,
  Decoded, event, raised, Codec, inside, decode_named, decode,
}

abbrev pub raises : Decoded → Option Exception
raises (event e) = none
raises (raised e) = some e

abbrev pub attribute_if : Bool → Option Exception
attribute_if true = some attribute_error
attribute_if false = none

-- A value that is set to something else than an object, and not to a falsy value.
abbrev pub misused : Json → Bool
misused item = truthy item && elim (as_object item) [ none ↦ true | some _ ↦ false ]

abbrev pub reads_object : Text → Bool
reads_object name =
    text_eq name (codes "start")
    || text_eq name (codes "media")
    || text_eq name (codes "mark")
    || text_eq name (codes "dtmf")

abbrev pub malformed_named : Json → Fields → Bool
malformed_named (text name) fields = reads_object name && misused (get name fields)
malformed_named _ fields = false

-- The exception that a message brings about: a text on which the parser itself raises RecursionError, and
-- an event that carries an object, whose own field is misused.
abbrev pub brings : Loaded → Option Exception
brings refused = none
brings too_deep = some recursion_error
brings (value (object fields)) = attribute_if (malformed_named (get (codes "event") fields) fields)
brings (value _) = none

inside_cases :
    (f : Fields → InboundEvent) (b : Bool) (o : Option Fields)
    → raises (elim (if b then o else some empty_object) [
      | none ↦ raised attribute_error
      | some fs ↦ event (f fs)
    ])
      ≡ attribute_if (b && elim o [ none ↦ true | some _ ↦ false ])
inside_cases f true none = refl
inside_cases f true (some fs) = refl
inside_cases f false o = refl

raises-inside :
    (f : Fields → InboundEvent) (item : Json) → raises (inside f item) ≡ attribute_if (misused item)
raises-inside f item = inside_cases f (truthy item) (as_object item)

-- The branch of a name, at the name itself.
at_name :
    (codec : Codec) (name known : Text) (fields : Fields)
    → text_eq name known ≡ true
    → raises (decode_named codec (text known) fields)
      ≡ attribute_if (malformed_named (text known) fields)
    → raises (decode_named codec (text name) fields)
      ≡ attribute_if (malformed_named (text name) fields)
at_name codec name known fields e h =
    subst
      (λ t.
        raises (decode_named codec (text t) fields)
        ≡ attribute_if (malformed_named (text t) fields))
      (sym (text_eq→eq name known e)) h

other_name :
    (codec : Codec) (t : Text) (fields : Fields)
    → text_eq t (codes "connected") ≡ false
    → text_eq t (codes "start") ≡ false
    → text_eq t (codes "media") ≡ false
    → text_eq t (codes "mark") ≡ false
    → text_eq t (codes "stop") ≡ false
    → text_eq t (codes "dtmf") ≡ false
    → raises (decode_named codec (text t) fields) ≡ attribute_if (malformed_named (text t) fields)
unfolding decode_named
other_name codec t fields a b c d e f = elim (Bool-cases (text_eq t (codes "error"))) [
  | inl g ↦ rw (a, b, c, d, e, f, g) refl
  | inr g ↦ rw (a, b, c, d, e, f, g) refl
]

raises-text :
    (codec : Codec) (t : Text) (fields : Fields)
    → raises (decode_named codec (text t) fields) ≡ attribute_if (malformed_named (text t) fields)
unfolding decode_named
raises-text codec t fields = elim (Bool-cases (text_eq t (codes "connected"))) [
  | inl e ↦ at_name codec t (codes "connected") fields e refl
  | inr a ↦ elim (Bool-cases (text_eq t (codes "start"))) [
    | inl e ↦
        at_name codec t (codes "start") fields e (raises-inside _ (get (codes "start") fields))
    | inr b ↦ elim (Bool-cases (text_eq t (codes "media"))) [
      | inl e ↦
          at_name codec t (codes "media") fields e (raises-inside _ (get (codes "media") fields))
      | inr c ↦ elim (Bool-cases (text_eq t (codes "mark"))) [
        | inl e ↦
            at_name codec t (codes "mark") fields e (raises-inside _ (get (codes "mark") fields))
        | inr d ↦ elim (Bool-cases (text_eq t (codes "stop"))) [
          | inl e ↦ at_name codec t (codes "stop") fields e refl
          | inr e ↦ elim (Bool-cases (text_eq t (codes "dtmf"))) [
            | inl g ↦
                at_name codec t (codes "dtmf") fields g
                  (raises-inside _ (get (codes "dtmf") fields))
            | inr g ↦ other_name codec t fields a b c d e g
          ]
        ]
      ]
    ]
  ]
]

raises-named :
    (codec : Codec) (name : Json) (fields : Fields)
    → raises (decode_named codec name fields) ≡ attribute_if (malformed_named name fields)
unfolding decode_named
raises-named codec (text t) fields = raises-text codec t fields
raises-named codec null fields = refl
raises-named codec (boolean b) fields = refl
raises-named codec (natural n) fields = refl
raises-named codec (negative n) fields = refl
raises-named codec (float b) fields = refl
raises-named codec (array xs) fields = refl
raises-named codec (object fs) fields = refl

-- `decode` gives an event for every message, also for one that the parser refuses, one that is no object, of an
-- unknown event or with a payload that does not decode, but in two cases: where the parser raises
-- RecursionError, for a text that is nested too deeply, this leaves `decode`, and an event start, media,
-- mark or dtmf whose field of that name is neither an object nor falsy raises AttributeError.
pub raises-decode : (codec : Codec) (raw : Loaded) → raises (decode codec raw) ≡ brings raw
unfolding decode
raises-decode codec refused = refl
raises-decode codec too_deep = refl
raises-decode codec (value (object fields)) = raises-named codec (get (codes "event") fields) fields
raises-decode codec (value null) = refl
raises-decode codec (value (boolean b)) = refl
raises-decode codec (value (natural n)) = refl
raises-decode codec (value (negative n)) = refl
raises-decode codec (value (float b)) = refl
raises-decode codec (value (text t)) = refl
raises-decode codec (value (array xs)) = refl
