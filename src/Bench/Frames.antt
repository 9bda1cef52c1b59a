-- ===== src/Bench/Frames.antt =====
-- bench/media_capture.py: the strict reading of one message of a diagnostic stream. `json.loads`, `str` and the base64
-- decoding are arguments; the time of receipt, which is only copied, is left out.
pub mod Bounds
use telnyx_onset.Prelude.{
  ℕ, zero, suc, ◌+◌, ◌-◌, ◌*◌, ◌%◌, Bool, true, false, not, ◌||◌, ◌&&◌, Option, none, some, List,
  [], ◌∷◌, ltb, leb, ◌==◌, if◌then◌else◌, length, take, is_empty, Text, codes, text_eq, int_of,
}
use telnyx_onset.Audio.{Bytes}
use telnyx_onset.Json.{Json, null, boolean, natural, text, Fields, get, get_or, as_object, as_text}
use telnyx_onset.Bench.Capture.{MediaFrame, ProbeFrame, media, lifecycle}

-- A ProbeProtocolError with its category, the ValueError of `int` on too many digits or of `encode` on a lone
-- surrogate, or the RecursionError of `json.loads` on a text that is nested too deeply.
pub data Result {ℓ} (A : Type ℓ) : Type ℓ where
  ok : A → Result A
  protocol_error : Text → Result A
  value_error recursion_error : Result A

infixl 5 ◌>>=◌ ◌>>◌
unfoldable pub ◌>>=◌ {ℓ κ} : {A : Type ℓ} {B : Type κ} → Result A → (A → Result B) → Result B
ok a >>= f = f a
protocol_error category >>= f = protocol_error category
value_error >>= f = value_error
recursion_error >>= f = recursion_error

abbrev pub ◌>>◌ {ℓ} : {B : Type ℓ} → Result (Unit {0}) → Result B → Result B
m >> k = m >>= λ _. k

abbrev pub guard : Bool → Text → Result (Unit {0})
guard true category = ok tt
guard false category = protocol_error category

abbrev pub require {ℓ} : {A : Type ℓ} → Option A → Text → Result A
require none category = protocol_error category
require (some a) category = ok a

pub record MediaFormat : Type 0 where
  pub encoding : Text
  pub sample_rate : ℕ
  pub channels : ℕ

pub data Frame : Type 0 where
  connected : Text → Text → Frame
  started : ℕ → Text → Text → Text → MediaFormat → Frame
  heard : Text → MediaFrame → Frame
  marked : Option ℕ → Text → Frame
  failed : Option ℕ → Option ℕ → Text → Frame
  stopped : Option ℕ → Frame
  pressed : Option ℕ → Text → Frame

-- What `json.loads` does: a value, an exception that is caught, or a RecursionError.
pub data Loaded : Type 0 where
  loaded : Json → Loaded
  refused too_deep : Loaded

abbrev pub loaded_or : Loaded → Text → Result Json
loaded_or (loaded root) category = ok root
loaded_or refused category = protocol_error category
loaded_or too_deep category = recursion_error

-- `b64decode(…, validate=True)` gives `none` where it raises.
pub record Codec : Type 0 where
  pub loads : Text → Loaded
  pub str : Json → Text
  pub b64decode : Text → Option Bytes

abbrev pub max_ws_message_bytes : ℕ
max_ws_message_bytes = 64 * 1024

abbrev pub max_decoded_frame_bytes : ℕ
max_decoded_frame_bytes = 64 * 1024

-- A lone surrogate has no UTF-8 encoding: `encode` raises a UnicodeEncodeError, which is a ValueError.
abbrev pub is_surrogate : ℕ → Bool
is_surrogate c = leb 55296 c && leb c 57343

abbrev pub has_surrogate : Text → Bool
has_surrogate [] = false
has_surrogate (c ∷ cs) = is_surrogate c || has_surrogate cs

abbrev pub encodable : Bool → Result (Unit {0})
encodable true = value_error
encodable false = ok tt

-- The length of the UTF-8 encoding.
abbrev pub utf8_size : Text → ℕ
utf8_size [] = 0
utf8_size (c ∷ cs) =
    (if ltb c 128 then 1 else if ltb c 2048 then 2 else if ltb c 65536 then 3 else 4) + utf8_size cs

abbrev pub ascii_digit : ℕ → Option ℕ
ascii_digit c = if leb 48 c && leb c 57 then some (c - 48) else none

abbrev pub is_digits : Text → Bool
is_digits [] = true
is_digits (c ∷ cs) = leb 48 c && leb c 57 && is_digits cs

abbrev pub int_text : Option ℕ → Result ℕ
int_text none = value_error
int_text (some n) = ok n

unfoldable pub integer : Json → Text → Result ℕ
unfolding int_of
integer (natural n) category = ok n
integer (text t) category =
    if not (is_empty t) && is_digits t
    then int_text (int_of ascii_digit t)
    else protocol_error category
integer value category = protocol_error category

abbrev pub present : Result ℕ → Result (Option ℕ)
present m = m >>= λ n. ok (some n)

-- With `optional=True`.
unfoldable pub integer_or_none : Json → Text → Result (Option ℕ)
unfolding integer
integer_or_none null category = ok none
integer_or_none value category = present (integer value category)

module _ (codec : Codec) where
  abbrev pub str_field : Text → Text → Fields → Text
  str_field default key fields = codec.str (get_or (text default) key fields)

  abbrev pub sequence : Fields → Result ℕ
  sequence fields = integer (get (codes "sequence_number") fields) (codes "bad_sequence")

  abbrev pub maybe_sequence : Fields → Result (Option ℕ)
  maybe_sequence fields =
      integer_or_none (get (codes "sequence_number") fields) (codes "bad_sequence")

  unfoldable pub decode_connected : Fields → Result Frame
  decode_connected fields =
      let token : Text = elim (as_text (get (codes "x-telnyx-streaming-auth-token") fields)) [
        | none ↦ []
        | some t ↦ t
      ] in
      ok (connected (str_field [] (codes "version") fields) token)

  unfoldable pub decode_start : Fields → Result Frame
  unfolding integer
  decode_start fields = do
    start ← require (as_object (get (codes "start") fields)) (codes "malformed_start")
    format ← require (as_object (get (codes "media_format") start)) (codes "missing_media_format")
    n ← sequence fields
    rate ← integer (get (codes "sample_rate") format) (codes "bad_sample_rate")
    channels ← integer (get (codes "channels") format) (codes "bad_channels")
    ok (
        started n (str_field [] (codes "stream_id") fields)
          (str_field [] (codes "call_control_id") start) (str_field [] (codes "from") start)
          (record {
            encoding = str_field [] (codes "encoding") format;
            sample_rate = rate;
            channels = channels;
          }))

  abbrev pub is_allowed : Text → Bool
  is_allowed track = text_eq track (codes "inbound") || text_eq track (codes "outbound")

  abbrev pub is_frame : Bytes → Bool
  is_frame pcm16 =
      not (is_empty pcm16) && leb (length pcm16) max_decoded_frame_bytes && (length pcm16 % 2 == 0)

  unfoldable pub decode_media : Fields → Result Frame
  unfolding integer
  decode_media fields = do
    body ← require (as_object (get (codes "media") fields)) (codes "malformed_media")
    track ← require (as_text (get (codes "track") body)) (codes "track_missing")
    guard (is_allowed track) (codes "track_missing")
    payload ← require (as_text (get (codes "payload") body)) (codes "bad_media_payload")
    pcm16 ← require (codec.b64decode payload) (codes "bad_media_payload")
    guard (is_frame pcm16) (codes "bad_media_payload")
    n ← sequence fields
    chunk ← integer (get (codes "chunk") body) (codes "bad_chunk")
    timestamp ← integer (get (codes "timestamp") body) (codes "bad_timestamp")
    ok (
        heard (str_field [] (codes "stream_id") fields) (record {
          sequence_number = n;
          track = track;
          chunk = chunk;
          timestamp = timestamp;
          pcm16 = pcm16;
        }))

  unfoldable pub decode_mark : Fields → Result Frame
  unfolding integer_or_none
  decode_mark fields = do
    mark ← require (as_object (get (codes "mark") fields)) (codes "malformed_mark")
    n ← maybe_sequence fields
    ok (marked n (take 128 (str_field [] (codes "name") mark)))

  unfoldable pub decode_error : Fields → Result Frame
  unfolding integer_or_none
  decode_error fields = do
    payload ← require (as_object (get (codes "payload") fields)) (codes "malformed_error")
    n ← maybe_sequence fields
    code ← integer_or_none (get (codes "code") payload) (codes "bad_error_code")
    ok (failed n code (take 128 (str_field (codes "unknown") (codes "title") payload)))

  unfoldable pub decode_stop : Fields → Result Frame
  unfolding integer_or_none
  decode_stop fields = do n ← maybe_sequence fields; ok (stopped n)

  unfoldable pub decode_dtmf : Fields → Result Frame
  unfolding integer_or_none
  decode_dtmf fields = do
    dtmf ← require (as_object (get (codes "dtmf") fields)) (codes "malformed_dtmf")
    n ← maybe_sequence fields
    ok (pressed n (take 1 (str_field [] (codes "digit") dtmf)))

  unfoldable pub decode_event : Text → Fields → Result Frame
  unfolding decode_connected decode_start decode_media decode_mark decode_error decode_stop
      decode_dtmf
  decode_event event fields =
      if text_eq event (codes "connected")
      then decode_connected fields
      else if text_eq event (codes "start")
      then decode_start fields
      else if text_eq event (codes "media")
      then decode_media fields
      else if text_eq event (codes "mark")
      then decode_mark fields
      else if text_eq event (codes "error")
      then decode_error fields
      else if text_eq event (codes "stop")
      then decode_stop fields
      else if text_eq event (codes "dtmf")
      then decode_dtmf fields
      else protocol_error (codes "unknown_event")

  unfoldable pub decode_probe_message : Text → Result Frame
  unfolding decode_event
  decode_probe_message raw = do
    encodable (has_surrogate raw)
    guard (leb (utf8_size raw) max_ws_message_bytes) (codes "oversized_message")
    root ← loaded_or (codec.loads raw) (codes "malformed_json")
    fields ← require (as_object root) (codes "json_not_object")
    event ← require (as_text (get (codes "event") fields)) (codes "missing_event")
    decode_event event fields

unfoldable pub validate_media_format : MediaFormat → Text → ℕ → ℕ → Result (Unit {0})
validate_media_format actual encoding sample_rate channels =
    guard
      (text_eq actual.encoding encoding
        && (actual.sample_rate == sample_rate)
        && (actual.channels == channels))
      (codes "media_format_mismatch")

-- `header` is what the headers give for the token's name, empty if they have none.
unfoldable pub extract_stream_token : Text → Option Text → Result Text
extract_stream_token (c ∷ cs) connected_token = ok (c ∷ cs)
extract_stream_token [] (some (c ∷ cs)) = ok (c ∷ cs)
extract_stream_token [] (some []) = protocol_error (codes "stream_auth_failed")
extract_stream_token [] none = protocol_error (codes "stream_auth_failed")

unfoldable pub validate_authorized_call_id : Text → Text → Result (Unit {0})
validate_authorized_call_id actual expected =
    guard (not (is_empty actual) && text_eq actual expected) (codes "stream_call_id_mismatch")

-- What the tracker reads of a frame.
abbrev pub to_frame : Frame → ProbeFrame
to_frame (connected version token) = lifecycle none
to_frame (started n stream_id call_control_id from_number format) = lifecycle (some n)
to_frame (heard stream_id f) = media f
to_frame (marked n name) = lifecycle n
to_frame (failed n code title) = lifecycle n
to_frame (stopped n) = lifecycle n
to_frame (pressed n digit) = lifecycle n
