-- ===== src/Tests/Speech.antt =====
-- Concrete runs of onset/stt.py, of onset/tts.py and of the streams of onset/telnyx.py.
use telnyx_onset.Prelude.{
  codes, strip, ℕ, ◌++◌, Option, none, some, ◌≡◌, refl, true, false, List, [], ◌∷◌, arith,
}
use telnyx_onset.Audio.{Bytes}
use telnyx_onset.Types.{text_delta, tool_call}
use telnyx_onset.Retry
use telnyx_onset.Llm.{Delta, Accumulators, text_events, call_events, stream_response}
use telnyx_onset.Llm.Calls.{fragments, IsCallsOf, stream_response-IsCallsOf}
use telnyx_onset.Json.{boolean, text, object, empty_object, field}
use telnyx_onset.Audio.{frame_pcm16}
use telnyx_onset.Audio.Frames.{Framed}
use telnyx_onset.Tts.{
  Received, binary, message, timed_out, recv_timeout, Codec, Settings, plays, fails, collect,
  synthesize_buffered, synthesize_streaming, synthesize,
}
use telnyx_onset.Tts.Modes.{synthesize_modes, broken_reply}
use telnyx_onset.Stt.{Session, gave_up, receive_loop}
use telnyx_onset.Stt.Reconnect.{waits_from, receive_loop-gave_up}

abbrev three_frames : List Bytes
three_frames = (1 ∷ []) ∷ (2 ∷ []) ∷ (3 ∷ []) ∷ []

abbrev dead : Session
dead = record { messages = []; is_cancelled = false; reopens = false }

receive_loop-gave_up_example :
    receive_loop (λ value. []) 2 0 true (dead ∷ dead ∷ dead ∷ [])
    ≡ record { heard = []; waits = waits_from 0 2; progress = gave_up }
receive_loop-gave_up_example =
    receive_loop-gave_up (λ value. []) 2 0 true (dead ∷ dead ∷ dead ∷ []) (refl, (refl, (refl, tt)))
      (omega arith)

-- A completion of onset/telnyx.py whose two calls come interleaved.
abbrev two_calls : List (Option Delta)
two_calls =
    some (record {
      content = 72 ∷ [];
      tool_calls =
          record { index = 1; id = 5 ∷ []; name = 7 ∷ []; arguments = [] }
          ∷ record { index = 0; id = 4 ∷ []; name = 6 ∷ []; arguments = 1 ∷ [] }
          ∷ [];
    })
    ∷ none
    ∷ some (record {
      content = [];
      tool_calls =
          record { index = 1; id = []; name = []; arguments = 2 ∷ [] }
          ∷ record { index = 0; id = []; name = []; arguments = 3 ∷ [] }
          ∷ [];
    })
    ∷ []

stream_response_run :
    (stream_response {E = ℕ} two_calls Retry.finished).items
    ≡ text_delta (72 ∷ [])
      ∷ tool_call (record { id = 4 ∷ []; name = 6 ∷ []; arguments = 1 ∷ 3 ∷ [] })
      ∷ tool_call (record { id = 5 ∷ []; name = 7 ∷ []; arguments = 2 ∷ [] })
      ∷ []
unfolding stream_response
stream_response_run = refl

stream_response-IsCallsOf_example :
    (calls : Accumulators) × ((stream_response {E = ℕ} two_calls Retry.finished).items
      ≡ text_events two_calls ++ call_events calls)
    × IsCallsOf (fragments two_calls) calls
stream_response-IsCallsOf_example = stream_response-IsCallsOf ℕ two_calls

-- A codec whose MP3 is the PCM itself, streamed byte by byte, and decoded as a whole with two samples in
-- front of it.
abbrev each : Bytes → List Bytes
each [] = []
each (b ∷ bs) = (b ∷ []) ∷ each bs

abbrev plain : Codec
plain = record {
  b64decode = λ value. some (7 ∷ []);
  decode = λ mp3. some (0 ∷ 0 ∷ mp3);
  stream = λ mp3. (each mp3, true);
}

abbrev reply : List Received
reply =
    binary (1 ∷ 2 ∷ [])
    ∷ message (some (object (field (codes "audio") (text (codes "Bw==")) empty_object)))
    ∷ message (some (object (field (codes "isFinal") (boolean true) empty_object)))
    ∷ []

abbrev two_bytes : Settings
two_bytes = record { tts_streaming_decode = true; frame_bytes = 2 }

synthesize_modes_example :
    (streamed : List Bytes) × (buffered : List Bytes) × (synthesize plain two_bytes
        (λ texts. some reply)
        (codes "hi")
      ≡ some (plays streamed))
    × (synthesize plain
          (record two_bytes { tts_streaming_decode = false })
          (λ texts. some reply)
          (codes "hi")
        ≡ some (plays buffered))
    × Framed 2 (1 ∷ 2 ∷ 7 ∷ []) streamed
    × Framed 2 (0 ∷ 0 ∷ 1 ∷ 2 ∷ 7 ∷ []) buffered
unfolding collect strip
synthesize_modes_example =
    synthesize_modes plain two_bytes (λ texts. some reply) (codes "hi") (0 ∷ 0 ∷ []) refl refl refl
      refl refl refl (ground arith)

spoken_reply :
    synthesize plain two_bytes (λ texts. some reply) (codes "hi")
    ≡ some (plays ((1 ∷ 2 ∷ []) ∷ (7 ∷ 0 ∷ []) ∷ []))
unfolding synthesize strip
spoken_reply = refl

broken_reply_example :
    (synthesize_buffered plain 2 (binary (1 ∷ 2 ∷ []) ∷ timed_out ∷ []) ≡ some (fails recv_timeout))
    × (synthesize_streaming plain 2 (binary (1 ∷ 2 ∷ []) ∷ timed_out ∷ [])
        ≡ some (plays ((1 ∷ 2 ∷ []) ∷ [])))
unfolding collect frame_pcm16
broken_reply_example = broken_reply plain 2 (binary (1 ∷ 2 ∷ []) ∷ timed_out ∷ []) refl refl refl
