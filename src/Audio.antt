-- ===== src/Audio.antt =====
-- onset/audio.py: PCM16 sliced into frames, whole and streamed, and the byte source that feeds the
-- decoder. Bytes are numbers below 256; they are only moved. Base64 and miniaudio are not under this
-- repository: what they give is an argument.
pub mod Frames
pub mod Stream
pub mod Source
use telnyx_onset.Prelude.{
  ℕ, zero, suc, ◌+◌, ◌-◌, ◌*◌, ◌/◌, ◌%◌, ◌^◌, ◌≤◌, ◌<◌, min, max, ◌≡◌, refl, sym, ap, ap₂, ◌∙◌,
  subst, ◌≢◌, ◌↔◌, ◌⊎◌, inl, inr, Bool, true, false, not, ◌&&◌, ◌||◌, Option, none, some, List, [],
  ◌∷◌, ◌++◌, map, append-nil, append_assoc, arith, ltb, leb, ◌==◌, if◌then◌else◌, ltb→lt, lt→ltb,
  ltb→le, leb→le, le→leb, leb→lt, lt→leb, ==_iff, ==_refl, Bool-cases, Option-cases, length, take,
  drop, replicate, concat, is_empty, All, length-append, take-append-drop, length-take, length-drop,
  length-replicate, take-append, drop-append, All-append, All-map, Text, codes, text_eq, text_eq→eq,
  text_eq_refl, is_space, lstrip, rstrip, strip,
}

abbrev pub Bytes : Type 0
Bytes = List ℕ

-- A short frame is filled up with silence.
unfoldable pub pad : ℕ → Bytes → Bytes
pad n frame = if ltb (length frame) n then frame ++ replicate (n - length frame) 0 else frame

-- `for i in range(0, len(pcm16), frame_bytes)`, on what is left from `i` on. Each round takes a byte
-- or more, so the length is fuel enough.
unfoldable pub frames_from : ℕ → ℕ → Bytes → List Bytes
unfolding pad
frames_from zero n rest = []
frames_from (suc fuel) n rest =
    let more = frames_from fuel n (drop n rest) in
    if is_empty rest then [] else pad n (take n rest) ∷ more

-- `none` stands for the ValueError.
unfoldable pub frame_pcm16 : Bytes → ℕ → Option (List Bytes)
unfolding frames_from
frame_pcm16 pcm16 frame_bytes =
    if frame_bytes == 0 then none else some (frames_from (length pcm16) frame_bytes pcm16)

-- The whole-buffer decode, with miniaudio's decoder as an argument.
unfoldable pub decode_mp3_to_pcm16 : (Bytes → ℕ → Bytes) → Bytes → ℕ → Bytes
decode_mp3_to_pcm16 miniaudio_decode mp3 sample_rate =
    if is_empty mp3 then [] else miniaudio_decode mp3 sample_rate

pub record Pcm16Reframer : Type 0 where
  pub frame_bytes : ℕ
  pub buf : Bytes

unfoldable pub new_reframer : ℕ → Option Pcm16Reframer
new_reframer frame_bytes =
    if frame_bytes == 0 then none else some (record { frame_bytes = frame_bytes; buf = [] })

-- The loop of `push`: the whole frames at the front of the buffer, and the rest of it.
unfoldable pub carve : ℕ → ℕ → Bytes → List Bytes × Bytes
carve zero n buf = ([], buf)
carve (suc fuel) n buf =
    let more = carve fuel n (drop n buf) in
    if leb n (length buf) then (take n buf ∷ more.0, more.1) else ([], buf)

unfoldable pub push : Pcm16Reframer → Bytes → Pcm16Reframer × List Bytes
unfolding carve
push r pcm16 =
    let buf = r.buf ++ pcm16 in
    let carved = carve (length buf) r.frame_bytes buf in (record r { buf = carved.1 }, carved.0)

unfoldable pub flush : Pcm16Reframer → Pcm16Reframer × Option Bytes
flush r =
    if is_empty r.buf
    then (r, none)
    else (record r { buf = [] }, some (r.buf ++ replicate (r.frame_bytes - length r.buf) 0))

abbrev pub tail_frame : Option Bytes → List Bytes
tail_frame none = []
tail_frame (some frame) = frame ∷ []

-- The loop over the chunks that the decoder yields, and the flush behind it.
unfoldable pub reframe_all : Pcm16Reframer → List Bytes → List Bytes
unfolding push flush
reframe_all r [] = tail_frame (flush r).1
reframe_all r (chunk ∷ chunks) =
    let pushed = push r chunk in pushed.1 ++ reframe_all pushed.0 chunks

unfoldable pub stream_mp3_frames : List Bytes → ℕ → Option (List Bytes)
unfolding new_reframer reframe_all
stream_mp3_frames decoded frame_bytes = elim (new_reframer frame_bytes) [
  | none ↦ none
  | some r ↦ some (reframe_all r decoded)
]

-- The queue's items from the front: bytes, or `none` for the end of the stream.
pub record QueueStreamSource : Type 0 where
  pub feed : List (Option Bytes)
  pub buf : Bytes
  pub eof : Bool

-- The waiting loop of `read`. `none`: it blocks, since the queue is empty.
unfoldable pub fill : ℕ → List (Option Bytes) → Bytes → Bool → Option QueueStreamSource
fill num_bytes [] buf eof =
    if ltb (length buf) num_bytes && not eof
    then none
    else some (record { feed = []; buf = buf; eof = eof })
fill num_bytes (none ∷ feed) buf eof =
    let rest = fill num_bytes feed buf true in
    if ltb (length buf) num_bytes && not eof
    then rest
    else some (record { feed = none ∷ feed; buf = buf; eof = eof })
fill num_bytes (some item ∷ feed) buf eof =
    let rest = fill num_bytes feed (buf ++ item) eof in
    if ltb (length buf) num_bytes && not eof
    then rest
    else some (record { feed = some item ∷ feed; buf = buf; eof = eof })

unfoldable pub take_bytes : ℕ → QueueStreamSource → QueueStreamSource × Bytes
take_bytes num_bytes s =
    if is_empty s.buf
    then (s, [])
    else (record s { buf = drop num_bytes s.buf }, take num_bytes s.buf)

unfoldable pub read : ℕ → QueueStreamSource → Option (QueueStreamSource × Bytes)
unfolding fill take_bytes
read num_bytes s = elim (fill num_bytes s.feed s.buf s.eof) [
  | none ↦ none
  | some s' ↦ some (take_bytes num_bytes s')
]
