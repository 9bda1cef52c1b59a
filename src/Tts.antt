-- ===== src/Tts.antt =====
-- onset/tts.py: one synthesis, buffered and streaming. `json.loads`, the base64 decoding and miniaudio's
-- decoders are arguments, and so is what the socket gives. The thread of the decoder and the tasks around it
-- pass on what they get through two queues in order: each is a function on the sequence of its inputs.
pub mod Modes
use telnyx_onset.Prelude.{
  ℕ, zero, suc, ◌+◌, Bool, true, false, not, ◌||◌, Option, none, some, List, [], ◌∷◌, ◌++◌, map,
  ◌==◌, if◌then◌else◌, is_empty, Text, codes, strip,
}
use telnyx_onset.Json.{Json, boolean, Fields, get, truthy, as_object}
use telnyx_onset.Audio.{Bytes, frame_pcm16, Pcm16Reframer, new_reframer, push, stream_mp3_frames}
use telnyx_onset.Audio.Source.{queued, has_end}
use telnyx_onset.Retry
use telnyx_onset.Retry.{Attempt}

pub data TtsError : Type 0 where
  connect_error recv_error recv_timeout malformed decode_error value_error : TtsError

-- What `ws.recv()` gives, a text already parsed if `json.loads` parses it.
pub data Received : Type 0 where
  binary : Bytes → Received
  message : Option Json → Received
  closed timed_out : Received

-- `b64decode` gives `none` where it raises. `decode` is the whole-buffer decoder, which may give priming samples
-- (leading silence) that the streaming decoder strips; `stream` the chunks that the streaming decoder yields for a source with these bytes, and whether it ends without an exception.
pub record Codec : Type 0 where
  pub b64decode : Json → Option Bytes
  pub decode : Bytes → Option Bytes
  pub stream : Bytes → List Bytes × Bool

-- What a received frame is to the loop: it goes on, it is the last, or an exception leaves it.
pub data Part : Type 0 where
  goes_on last : Option Bytes → Part
  breaks : TtsError → Part

abbrev pub is_true : Json → Bool
is_true (boolean b) = b
is_true _ = false

abbrev pub part_of : Fields → Option Bytes → Part
part_of fields audio =
    if is_true (get (codes "isFinal") fields)
      || truthy (get (codes "error") fields)
      || truthy (get (codes "errors") fields)
    then last audio
    else goes_on audio

abbrev pub part_with : Fields → Option Bytes → Part
part_with fields none = breaks malformed
part_with fields (some bytes) = part_of fields (some bytes)

unfoldable pub read_part : Codec → Received → Part
read_part codec (binary bytes) = goes_on (some bytes)
read_part codec closed = breaks recv_error
read_part codec timed_out = breaks recv_timeout
read_part codec (message none) = breaks malformed
read_part codec (message (some value)) = elim (as_object value) [
  | none ↦ breaks malformed
  | some fields ↦
      let chunk = get (codes "audio") fields in
      if truthy chunk then part_with fields (codec.b64decode chunk) else part_of fields none
]

abbrev pub bytes_of : Option Bytes → Bytes
bytes_of none = []
bytes_of (some bytes) = bytes

-- The loop of the buffered path. `waits`: it still waits behind the last frame.
pub data Collected : Type 0 where
  whole : Bytes → Collected
  raised : TtsError → Collected
  waits : Collected

unfoldable pub collect : Codec → List Received → Bytes → Collected
unfolding read_part
collect codec [] mp3 = waits
collect codec (r ∷ rs) mp3 = elim (read_part codec r) [
  | goes_on audio ↦ collect codec rs (mp3 ++ bytes_of audio)
  | last audio ↦ whole (mp3 ++ bytes_of audio)
  | breaks e ↦ raised e
]

abbrev pub Synthesis : Type 0
Synthesis = Attempt Bytes TtsError

abbrev pub fails : TtsError → Synthesis
fails e = record { items = []; ending = Retry.failed e }

abbrev pub plays : List Bytes → Synthesis
plays frames = record { items = frames; ending = Retry.finished }

abbrev pub framed : Option (List Bytes) → Synthesis
framed none = fails value_error
framed (some frames) = plays frames

abbrev pub play_pcm : ℕ → Option Bytes → Synthesis
play_pcm frame_bytes none = fails decode_error
play_pcm frame_bytes (some pcm) = framed (frame_pcm16 pcm frame_bytes)

-- `none`: it still waits for the socket.
abbrev pub play_mp3 : Codec → ℕ → Collected → Option Synthesis
play_mp3 codec frame_bytes waits = none
play_mp3 codec frame_bytes (raised e) = some (fails e)
play_mp3 codec frame_bytes (whole mp3) =
    some (if is_empty mp3 then plays [] else play_pcm frame_bytes (codec.decode mp3))

unfoldable pub synthesize_buffered : Codec → ℕ → List Received → Option Synthesis
unfolding collect frame_pcm16
synthesize_buffered codec frame_bytes received =
    play_mp3 codec frame_bytes (collect codec received [])

abbrev pub puts : Option Bytes → List (Option Bytes)
puts none = []
puts (some bytes) = some bytes ∷ []

-- What the pump puts into `feed_q`; it marks the end however it ends.
unfoldable pub pump : Codec → List Received → List (Option Bytes)
unfolding read_part
pump codec [] = []
pump codec (r ∷ rs) = elim (read_part codec r) [
  | goes_on audio ↦ puts audio ++ pump codec rs
  | last audio ↦ puts audio ++ (none ∷ [])
  | breaks e ↦ none ∷ []
]

-- What the decoder's thread puts into `out_q`.
pub data Item : Type 0 where
  frame : Bytes → Item
  done : Option TtsError → Item

-- The frames up to an exception of the decoder: what is left in the reframer is lost.
unfoldable pub push_all : Pcm16Reframer → List Bytes → List Bytes
unfolding push
push_all r [] = []
push_all r (chunk ∷ chunks) = let pushed = push r chunk in pushed.1 ++ push_all pushed.0 chunks

abbrev pub out_items : Option (List Bytes) → Option TtsError → List Item
out_items none error = done (some value_error) ∷ []
out_items (some frames) error = map frame frames ++ (done error ∷ [])

-- The reframer is made before the first read. `none`: the thread blocks in a read, since no end is marked.
abbrev pub decode_with : ℕ → Option Pcm16Reframer → Bool → List Bytes × Bool → Option (List Item)
decode_with frame_bytes none ended decoded = some (done (some value_error) ∷ [])
decode_with frame_bytes (some r) false decoded = none
decode_with frame_bytes (some r) true (chunks, true) =
    some (out_items (stream_mp3_frames chunks frame_bytes) none)
decode_with frame_bytes (some r) true (chunks, false) =
    some (out_items (some (push_all r chunks)) (some decode_error))

unfoldable pub decode_loop : Codec → ℕ → List (Option Bytes) → Option (List Item)
unfolding push_all stream_mp3_frames new_reframer
decode_loop codec frame_bytes feed =
    decode_with frame_bytes (new_reframer frame_bytes) (has_end feed) (codec.stream (queued feed))

abbrev pub after_done : ℕ → Option TtsError → Synthesis
after_done emitted none = plays []
after_done zero (some e) = fails e
after_done (suc n) (some e) = plays []

-- The loop over `out_q`, with the number of frames so far.
unfoldable pub consume : ℕ → List Item → Option Synthesis
consume emitted [] = none
consume emitted (frame f ∷ items) = elim (consume (suc emitted) items) [
  | none ↦ none
  | some rest ↦ some (record rest { items = f ∷ rest.items })
]
consume emitted (done error ∷ items) = some (after_done emitted error)

abbrev pub consumed : Option (List Item) → Option Synthesis
consumed none = none
consumed (some items) = consume 0 items

unfoldable pub synthesize_streaming : Codec → ℕ → List Received → Option Synthesis
unfolding pump decode_loop consume
synthesize_streaming codec frame_bytes received =
    consumed (decode_loop codec frame_bytes (pump codec received))

pub record Settings : Type 0 where
  pub tts_streaming_decode : Bool
  pub frame_bytes : ℕ

-- The texts that are sent before anything is received.
abbrev pub sent_texts : Text → List Text
sent_texts text = codes " " ∷ text ∷ [] ∷ []

abbrev pub opened : (List Received → Option Synthesis) → Option (List Received) → Option Synthesis
opened f none = some (fails connect_error)
opened f (some received) = f received

-- What a socket gives for the texts that it is sent; `none` where it cannot be opened.
unfoldable pub synthesize :
    Codec → Settings → (List Text → Option (List Received)) → Text → Option Synthesis
unfolding synthesize_buffered synthesize_streaming
synthesize codec settings socket text =
    let received = socket (sent_texts (strip text)) in
    if is_empty (strip text)
    then some (plays [])
    else if settings.tts_streaming_decode
    then opened (synthesize_streaming codec settings.frame_bytes) received
    else opened (synthesize_buffered codec settings.frame_bytes) received
