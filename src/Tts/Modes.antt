-- ===== src/Tts/Modes.antt =====
-- The two paths of onset/tts.py against one another.
use telnyx_onset.Prelude.{
  ℕ, suc, ◌≡◌, ◌≢◌, refl, sym, ap, ap₂, subst, ◌∙◌, Bool, true, false, Option, none, some, List, [],
  ◌∷◌, ◌++◌, map, append-nil, append_assoc, concat, is_empty, if◌then◌else◌, ◌==◌, Text, strip,
}
use telnyx_onset.Audio.{Bytes, frame_pcm16, stream_mp3_frames, new_reframer}
use telnyx_onset.Audio.Frames.{Framed, frame_pcm16-Framed}
use telnyx_onset.Audio.Source.{queued, has_end}
use telnyx_onset.Audio.Stream.{stream_mp3_frames-eq-frame_pcm16}
use telnyx_onset.Tts.{
  Received, Codec, Part, goes_on, last, breaks, read_part, bytes_of, Collected, whole, raised,
  waits, collect, plays, fails, framed, synthesize_buffered, puts, pump, frame, done, out_items,
  decode_with, opened, play_mp3, decode_loop, consume, consumed, synthesize_streaming, Settings,
  sent_texts, synthesize, TtsError, Synthesis,
}

-- The audio of a reply up to its end.
abbrev pub heard : Codec → List Received → Bytes
heard codec [] = []
heard codec (r ∷ rs) = elim (read_part codec r) [
  | goes_on audio ↦ bytes_of audio ++ heard codec rs
  | last audio ↦ bytes_of audio
  | breaks e ↦ []
]

queued-puts :
    (a : Option Bytes) (feed : List (Option Bytes))
    → queued (puts a ++ feed) ≡ bytes_of a ++ queued feed
queued-puts none feed = refl
queued-puts (some b) feed = refl

has_end-puts :
    (a : Option Bytes) (feed : List (Option Bytes)) → has_end (puts a ++ feed) ≡ has_end feed
has_end-puts none feed = refl
has_end-puts (some b) feed = refl

queued-pump : (codec : Codec) (rs : List Received) → queued (pump codec rs) ≡ heard codec rs
unfolding pump
queued-pump codec [] = refl
queued-pump codec (r ∷ rs) = go (read_part codec r) (queued-pump codec rs)
  where
    go :
        (p : Part)
        → queued (pump codec rs) ≡ heard codec rs
        → queued (elim p [
          | goes_on audio ↦ puts audio ++ pump codec rs
          | last audio ↦ puts audio ++ (none ∷ [])
          | breaks e ↦ none ∷ []
        ])
          ≡ (elim p [
            | goes_on audio ↦ bytes_of audio ++ heard codec rs
            | last audio ↦ bytes_of audio
            | breaks e ↦ []
          ])
    go (goes_on a) ih = queued-puts a (pump codec rs) ∙ ap (λ t. bytes_of a ++ t) ih
    go (last a) ih = queued-puts a (none ∷ []) ∙ append-nil (bytes_of a)
    go (breaks e) ih = refl

-- What the buffered loop comes to, against what the pump passes on.
abbrev Agrees : Collected → Bytes → Bytes → Bool → Type 0
Agrees (whole x) mp3 audio ended = (x ≡ mp3 ++ audio) × (ended ≡ true)
Agrees (raised e) mp3 audio ended = ended ≡ true
Agrees waits mp3 audio ended = ended ≡ false

Agrees-append :
    (c : Collected) (mp3 a audio : Bytes) (b b' : Bool)
    → b' ≡ b
    → Agrees c (mp3 ++ a) audio b
    → Agrees c mp3 (a ++ audio) b'
Agrees-append (whole x) mp3 a audio b b' e (p, q) = (p ∙ append_assoc mp3 a audio, e ∙ q)
Agrees-append (raised error) mp3 a audio b b' e q = e ∙ q
Agrees-append waits mp3 a audio b b' e q = e ∙ q

collect-Agrees :
    (codec : Codec) (rs : List Received) (mp3 : Bytes)
    → Agrees (collect codec rs mp3) mp3 (heard codec rs) (has_end (pump codec rs))
unfolding collect pump
collect-Agrees codec [] mp3 = refl
collect-Agrees codec (r ∷ rs) mp3 =
    go (read_part codec r) (λ a. collect-Agrees codec rs (mp3 ++ bytes_of a))
  where
    go :
        (p : Part)
        → ((a : Option Bytes)
            → Agrees
                (collect codec rs (mp3 ++ bytes_of a))
                (mp3 ++ bytes_of a)
                (heard codec rs)
                (has_end (pump codec rs)))
        → Agrees
            (elim p [
              | goes_on audio ↦ collect codec rs (mp3 ++ bytes_of audio)
              | last audio ↦ whole (mp3 ++ bytes_of audio)
              | breaks e ↦ raised e
            ])
            mp3
            (elim p [
              | goes_on audio ↦ bytes_of audio ++ heard codec rs
              | last audio ↦ bytes_of audio
              | breaks e ↦ []
            ])
            (has_end (elim p [
              | goes_on audio ↦ puts audio ++ pump codec rs
              | last audio ↦ puts audio ++ (none ∷ [])
              | breaks e ↦ none ∷ []
            ]))
    go (goes_on a) ih =
        Agrees-append (collect codec rs (mp3 ++ bytes_of a)) mp3 (bytes_of a) (heard codec rs) _ _
          (has_end-puts a (pump codec rs)) (ih a)
    go (last a) ih = (refl, has_end-puts a (none ∷ []))
    go (breaks e) ih = refl

consume-frames :
    (k : ℕ) (fs : List Bytes) → consume k (map frame fs ++ (done none ∷ [])) ≡ some (plays fs)
unfolding consume
consume-frames k [] = refl
consume-frames k (f ∷ fs) = rw (consume-frames (suc k) fs) refl

consumed-framed : (o : Option (List Bytes)) → consumed (some (out_items o none)) ≡ some (framed o)
unfolding consume
consumed-framed none = refl
consumed-framed (some fs) = consume-frames 0 fs

frame_pcm16-zero : (pcm16 : Bytes) (n : ℕ) → (n == 0) ≡ true → frame_pcm16 pcm16 n ≡ none
unfolding frame_pcm16
frame_pcm16-zero pcm16 n e = rw e refl

decoded-framed :
    (n : ℕ) (chunks : List Bytes)
    → consumed (decode_with n (new_reframer n) true (chunks, true))
      ≡ some (framed (frame_pcm16 (concat chunks) n))
unfolding new_reframer consume
decoded-framed n chunks = go (n == 0) refl
  where
    framed_eq :
        some (framed (stream_mp3_frames chunks n)) ≡ some (framed (frame_pcm16 (concat chunks) n))
    framed_eq = ap (λ o. some (framed o)) (stream_mp3_frames-eq-frame_pcm16 chunks n)

    go :
        (zero_size : Bool)
        → (n == 0) ≡ zero_size
        → consumed (
            decode_with n
              (if zero_size then none else some (record { frame_bytes = n; buf = [] }))
              true
              (chunks, true))
          ≡ some (framed (frame_pcm16 (concat chunks) n))
    go true e = ap (λ o. some (framed o)) (sym (frame_pcm16-zero (concat chunks) n e))
    go false e = consumed-framed (stream_mp3_frames chunks n) ∙ framed_eq

-- A reply with an end, which the decoder decodes without an exception.
streaming-framed :
    (codec : Codec) (n : ℕ) (rs : List Received) (chunks : List Bytes)
    → has_end (pump codec rs) ≡ true
    → codec.stream (heard codec rs) ≡ (chunks, true)
    → synthesize_streaming codec n rs ≡ some (framed (frame_pcm16 (concat chunks) n))
unfolding synthesize_streaming decode_loop
streaming-framed codec n rs chunks e h =
    ap₂ (λ ended decoded. consumed (decode_with n (new_reframer n) ended decoded)) e
      (ap codec.stream (queued-pump codec rs) ∙ h)
    ∙ decoded-framed n chunks

-- If the decoder of a whole reply gives what it streams for the reply, behind some priming samples that
-- only the decoder of the whole gives, then for a text that is not blank and a reply that comes to its
-- end with some audio in it, and a frame size that is not 0, both settings end without an error, and
-- they play the same but for the priming: the streaming one the streamed audio, the buffered one the
-- priming and then that audio, each in whole frames and filled up with less than a frame of silence.
pub synthesize_modes :
    (codec : Codec) (settings : Settings) (socket : List Text → Option (List Received))
    (text : Text) (priming : Bytes) {received : List Received} {mp3 : Bytes} {chunks : List Bytes}
    → is_empty (strip text) ≡ false
    → socket (sent_texts (strip text)) ≡ some received
    → collect codec received [] ≡ whole mp3
    → is_empty mp3 ≡ false
    → codec.stream mp3 ≡ (chunks, true)
    → codec.decode mp3 ≡ some (priming ++ concat chunks)
    → settings.frame_bytes ≢ 0
    → (streamed : List Bytes) × (buffered : List Bytes) × (synthesize codec
          (record settings { tts_streaming_decode = true })
          socket
          text
        ≡ some (plays streamed))
      × (synthesize codec (record settings { tts_streaming_decode = false }) socket text
          ≡ some (plays buffered))
      × Framed settings.frame_bytes (concat chunks) streamed
      × Framed settings.frame_bytes (priming ++ concat chunks) buffered
unfolding synthesize synthesize_buffered
synthesize_modes codec settings socket text priming {received} {mp3} {chunks} b connected c m s d
      n =
    let (streamed, f, fs) = frame_pcm16-Framed (concat chunks) settings.frame_bytes n in
    let (buffered, g, gs) = frame_pcm16-Framed (priming ++ concat chunks) settings.frame_bytes n in
    (
      streamed,
      buffered,
      spoken_text (synthesize_streaming codec settings.frame_bytes)
          ∙ streaming-framed codec settings.frame_bytes received chunks agreed.1
              (ap codec.stream (sym agreed.0) ∙ s)
          ∙ ap (λ o. some (framed o)) f,
      spoken_text (synthesize_buffered codec settings.frame_bytes)
          ∙ ap (play_mp3 codec settings.frame_bytes) c
          ∙ rw (m, d, g) refl,
      fs,
      gs,
    )
  where
    agreed : Agrees (whole mp3) [] (heard codec received) (has_end (pump codec received))
    agreed =
        subst (λ x. Agrees x [] (heard codec received) (has_end (pump codec received))) c
          (collect-Agrees codec received [])

    spoken_text :
        (f : List Received → Option Synthesis)
        → (if is_empty (strip text)
            then some (plays [])
            else opened f (socket (sent_texts (strip text))))
          ≡ f received
    spoken_text f = rw (b, connected) refl

-- A reply that breaks off (by a timeout, a closed socket or a malformed message): the buffered path plays
-- nothing and fails, whatever came before; the streaming path plays the frames of all audio that came
-- before and ends without an error, if the decoder decodes that and the frame size is not 0.
pub broken_reply :
    (codec : Codec) (n : ℕ) (received : List Received) {e : TtsError} {chunks : List Bytes}
    {frames : List Bytes}
    → collect codec received [] ≡ raised e
    → codec.stream (heard codec received) ≡ (chunks, true)
    → frame_pcm16 (concat chunks) n ≡ some frames
    → (synthesize_buffered codec n received ≡ some (fails e))
      × (synthesize_streaming codec n received ≡ some (plays frames))
unfolding synthesize_buffered
broken_reply codec n received {e} {chunks} c s f = (
  ap (play_mp3 codec n) c,
  streaming-framed codec n received chunks
        (subst (λ x. Agrees x [] (heard codec received) (has_end (pump codec received))) c
          (collect-Agrees codec received []))
        s
      ∙ ap (λ o. some (framed o)) f,
)
