-- ===== src/Bench/Frames/Bounds.antt =====
-- The media frames that bench/media_capture.py lets through.
use telnyx_onset.Prelude.{
  ◌*◌, ◌/◌, ◌≤◌, ◌<◌, ◌≡◌, refl, subst, leb→le, ◌⊎◌, inl, inr, Bool, true, false, [], ◌∷◌, leb,
  Bool-cases, arith, length, if◌then◌else◌, Text, codes, text_eq, text_eq→eq,
}
use telnyx_onset.Audio.{Bytes}
use telnyx_onset.Json.{Fields}
use telnyx_onset.Bench.Capture.{MediaFrame}
use telnyx_onset.Bench.Frames.{
  Result, ok, protocol_error, value_error, recursion_error, ◌>>=◌, guard, encodable, has_surrogate,
  Frame, heard, Codec, utf8_size, max_ws_message_bytes, is_allowed, is_frame, decode_connected,
  decode_start, decode_media, decode_mark, decode_error, decode_stop, decode_dtmf, decode_event,
  decode_probe_message,
}

-- Whole samples of a known track, some but not too many.
pub record IsWhole (f : MediaFrame) : Type 0 where
  pub track : (f.track ≡ codes "inbound") ⊎ (f.track ≡ codes "outbound")
  pub some_bytes : 0 < length f.pcm16
  pub few_bytes : length f.pcm16 ≤ 65536
  pub whole_samples : length f.pcm16 ≡ 2 * (length f.pcm16 / 2)

-- What holds of a result that is a media frame.
abbrev Good : Result Frame → Type 0
Good (ok (heard stream_id f)) = IsWhole f
Good _ = Unit {0}

record Holds (r : Result Frame) : Type 0 where
  good : Good r

bind-Holds :
    {A : Type 0} (m : Result A) (k : A → Result Frame)
    → ((a : A) → m ≡ ok a → Holds (k a))
    → Holds (m >>= k)
unfolding ◌>>=◌
bind-Holds (ok a) k h = h a refl
bind-Holds (protocol_error category) k h = record { good = tt }
bind-Holds value_error k h = record { good = tt }
bind-Holds recursion_error k h = record { good = tt }

guard-true : (b : Bool) (category : Text) {u : Unit {0}} → guard b category ≡ ok u → b ≡ true
guard-true true category h = refl
guard-true false category h = absurd (ground arith)

is_allowed-cases :
    (codec : Codec) (track : Text)
    → is_allowed codec track ≡ true
    → (track ≡ codes "inbound") ⊎ (track ≡ codes "outbound")
is_allowed-cases codec track h = elim (Bool-cases (text_eq track (codes "inbound"))) [
  | inl e ↦ inl (text_eq→eq track (codes "inbound") e)
  | inr e ↦ inr (text_eq→eq track (codes "outbound") (ground arith))
]

is_frame-bounds :
    (codec : Codec) (pcm16 : Bytes)
    → is_frame codec pcm16 ≡ true
    → (0 < length pcm16) × (length pcm16 ≤ 65536) × (length pcm16 ≡ 2 * (length pcm16 / 2))
is_frame-bounds codec [] h = absurd (ground arith)
is_frame-bounds codec (b ∷ bs) h = ground arith

whole-Holds :
    (codec : Codec) (stream_id : Text) (f : MediaFrame)
    → is_allowed codec f.track ≡ true
    → is_frame codec f.pcm16 ≡ true
    → Holds (ok (heard stream_id f))
whole-Holds codec stream_id f allowed whole =
    let (p, q, r) = is_frame-bounds codec f.pcm16 whole in
    record {
      good = record {
        track = is_allowed-cases codec f.track allowed;
        some_bytes = p;
        few_bytes = q;
        whole_samples = r;
      };
    }

decode_media-Holds : (codec : Codec) (fields : Fields) → Holds (decode_media codec fields)
unfolding decode_media
decode_media-Holds codec fields = bind-Holds _ _ (λ body e1. bind-Holds _ _ (λ track e2.
    bind-Holds _ _ (λ u1 allowed. bind-Holds _ _ (λ payload e3. bind-Holds _ _ (λ pcm16 e4.
      bind-Holds _ _ (λ u2 whole. bind-Holds _ _ (λ n e5. bind-Holds _ _ (λ chunk e6.
        bind-Holds _ _ (λ timestamp e7.
          whole-Holds codec _ _ (guard-true (is_allowed codec track) _ allowed)
            (guard-true (is_frame codec pcm16) _ whole))))))))))

start-Holds : (codec : Codec) (fields : Fields) → Holds (decode_start codec fields)
unfolding decode_start
start-Holds codec fields = bind-Holds _ _ (λ start e1. bind-Holds _ _ (λ format e2.
    bind-Holds _ _
      (λ n e3. bind-Holds _ _ (λ rate e4. bind-Holds _ _ (λ channels e5. record { good = tt })))))

mark-Holds : (codec : Codec) (fields : Fields) → Holds (decode_mark codec fields)
unfolding decode_mark
mark-Holds codec fields = bind-Holds _ _ (λ mark e1. bind-Holds _ _ (λ n e2. record { good = tt }))

error-Holds : (codec : Codec) (fields : Fields) → Holds (decode_error codec fields)
unfolding decode_error
error-Holds codec fields =
    bind-Holds _ _
      (λ payload e1. bind-Holds _ _ (λ n e2. bind-Holds _ _ (λ code e3. record { good = tt })))

stop-Holds : (codec : Codec) (fields : Fields) → Holds (decode_stop codec fields)
unfolding decode_stop
stop-Holds codec fields = bind-Holds _ _ (λ n e1. record { good = tt })

dtmf-Holds : (codec : Codec) (fields : Fields) → Holds (decode_dtmf codec fields)
unfolding decode_dtmf
dtmf-Holds codec fields = bind-Holds _ _ (λ dtmf e1. bind-Holds _ _ (λ n e2. record { good = tt }))

if-Holds : (t : Bool) (x y : Result Frame) → Holds x → Holds y → Holds (if t then x else y)
if-Holds true x y h k = h
if-Holds false x y h k = k

connected-Holds : (codec : Codec) (fields : Fields) → Holds (decode_connected codec fields)
unfolding decode_connected
connected-Holds codec fields = record { good = tt }

event-Holds :
    (codec : Codec) (event : Text) (fields : Fields) → Holds (decode_event codec event fields)
unfolding decode_event
event-Holds codec event fields =
    if-Holds (text_eq event (codes "connected")) _ _ (connected-Holds codec fields) (
      if-Holds (text_eq event (codes "start")) _ _ (start-Holds codec fields) (
        if-Holds (text_eq event (codes "media")) _ _ (decode_media-Holds codec fields) (
          if-Holds (text_eq event (codes "mark")) _ _ (mark-Holds codec fields) (
            if-Holds (text_eq event (codes "error")) _ _ (error-Holds codec fields) (
              if-Holds (text_eq event (codes "stop")) _ _ (stop-Holds codec fields) (
                if-Holds (text_eq event (codes "dtmf")) _ (protocol_error (codes "unknown_event"))
                  (dtmf-Holds codec fields) (record { good = tt })))))))

message-Holds : (codec : Codec) (raw : Text) → Holds (decode_probe_message codec raw)
unfolding decode_probe_message
message-Holds codec raw = bind-Holds _ _ (λ t e0. bind-Holds _ _ (λ u e1. bind-Holds _ _ (λ root e2.
    bind-Holds _ _ (λ fields e3. bind-Holds _ _ (λ event e4. event-Holds codec event fields)))))

guarded :
    (s b : Bool) (category : Text) (rest : Result Frame) {f : Frame}
    → (encodable s >>= λ t. guard b category >>= λ u. rest) ≡ ok f
    → b ≡ true
unfolding ◌>>=◌
guarded true b category rest h = absurd (ground arith)
guarded false true category rest h = refl
guarded false false category rest h = absurd (ground arith)

-- A media frame that the decoder lets through is on one of the two known tracks and carries whole samples, at
-- least one and at most 65536 bytes of them, whatever the base64 decoding gives; and its message had
-- at most 65536 bytes.
pub decode_probe_message-IsWhole :
    (codec : Codec) (raw stream_id : Text) (f : MediaFrame)
    → decode_probe_message codec raw ≡ ok (heard stream_id f)
    → IsWhole f × (utf8_size raw ≤ 65536)
unfolding decode_probe_message
decode_probe_message-IsWhole codec raw stream_id f h = (
  (subst Holds h (message-Holds codec raw)).good,
  leb→le (utf8_size raw) max_ws_message_bytes
      (guarded (has_surrogate raw) (leb (utf8_size raw) max_ws_message_bytes) _ _ h),
)
