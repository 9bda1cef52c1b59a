-- ===== src/Media/Inbound.antt =====
-- onset/media.py: the messages of the media socket as events. `json.loads`, `str` and the base64 decoding
-- are libraries: what they give is an argument.
use telnyx_onset.Prelude.{
  Bool, false, Option, none, some, [], ◌++◌, if◌then◌else◌, Text, codes, text_eq,
}
use telnyx_onset.Audio.{Bytes}
use telnyx_onset.Json.{Json, text, object, Fields, empty_object, get, get_or, truthy, as_object}

pub data InboundEvent : Type 0 where
  connected : Text → InboundEvent
  start : Text → Text → Text → InboundEvent
  media : Bytes → InboundEvent
  mark : Text → InboundEvent
  stop : InboundEvent
  dtmf : Text → InboundEvent
  ignore : Text → InboundEvent

-- What `json.loads` does with the raw message: a value, an exception that `decode` catches (a
-- JSONDecodeError, a TypeError or a ValueError), or the RecursionError that it raises for a text that is
-- nested too deeply, which is none of these.
pub data Loaded : Type 0 where
  value : Json → Loaded
  refused too_deep : Loaded

pub data Exception : Type 0 where
  attribute_error recursion_error : Exception

-- `decode` returns an event, or an exception leaves it.
pub data Decoded : Type 0 where
  event : InboundEvent → Decoded
  raised : Exception → Decoded

-- `str`, which gives a text for every parsed value, and `decode_l16_payload`, which gives `none` for its
-- ValueError and TypeError.
pub record Codec : Type 0 where
  pub str : Json → Text
  pub decode_l16_payload : Json → Option Bytes

-- `(data.get(key) or {}).get(...)`: the fields behind it, or `none` where there is no `get`.
abbrev pub fields_or_empty : Json → Option Fields
fields_or_empty item = if truthy item then as_object item else some empty_object

abbrev pub is_event : Json → Text → Bool
is_event (text t) name = text_eq t name
is_event _ name = false

abbrev pub inside : (Fields → InboundEvent) → Json → Decoded
inside f item = elim (fields_or_empty item) [
  | none ↦ raised attribute_error
  | some fields ↦ event (f fields)
]

abbrev pub heard : Option Bytes → InboundEvent
heard none = ignore (codes "bad_media_payload")
heard (some pcm) = media pcm

-- The branches for the event's name.
unfoldable pub decode_named : Codec → Json → Fields → Decoded
decode_named codec name fields =
    if is_event name (codes "connected")
    then event (connected (codec.str (get_or (text []) (codes "version") fields)))
    else if is_event name (codes "start")
    then inside
        (λ f.
          start (codec.str (get_or (text []) (codes "call_control_id") f))
            (codec.str (get_or (text []) (codes "from") f))
            (codec.str (get_or (text []) (codes "stream_id") fields)))
        (get (codes "start") fields)
    else if is_event name (codes "media")
    then inside (λ f. heard (codec.decode_l16_payload (get_or (text []) (codes "payload") f)))
        (get (codes "media") fields)
    else if is_event name (codes "mark")
    then inside (λ f. mark (codec.str (get_or (text []) (codes "name") f)))
        (get (codes "mark") fields)
    else if is_event name (codes "stop")
    then event stop
    else if is_event name (codes "dtmf")
    then inside (λ f. dtmf (codec.str (get_or (text []) (codes "digit") f)))
        (get (codes "dtmf") fields)
    else if is_event name (codes "error")
    then event (
        ignore
          (codes "error:" ++ codec.str (get_or (object empty_object) (codes "payload") fields)))
    else event (ignore (codes "unknown:" ++ codec.str name))

unfoldable pub decode : Codec → Loaded → Decoded
unfolding decode_named
decode codec refused = event (ignore (codes "unparseable"))
decode codec too_deep = raised recursion_error
decode codec (value loaded) = elim (as_object loaded) [
  | none ↦ event (ignore (codes "not_an_object"))
  | some fields ↦ decode_named codec (get (codes "event") fields) fields
]
