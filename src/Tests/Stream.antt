-- ===== src/Tests/Stream.antt =====
-- Concrete runs of onset/audio.py, onset/vad.py and onset/media.py.
use telnyx_onset.Prelude.{
  ℕ, ◌⊎◌, ◌+◌, ◌≤◌, ◌<◌, ◌≡◌, refl, Bool, true, false, ◌||◌, none, some, List, [], ◌∷◌, ◌++◌, arith,
  ltb, length, take, drop, All,
}
use telnyx_onset.Audio.{Bytes, frame_pcm16, QueueStreamSource, read}
use telnyx_onset.Audio.Frames.{Framed, frame_pcm16-Framed}
use telnyx_onset.Audio.Source.{remaining, has_end, read-remaining}
use telnyx_onset.Vad.{VadEngine, VadDetector, idle, process}
use telnyx_onset.Vad.Runs.{onsets, decisions, spec_run, onsets-eq-spec_run}
use telnyx_onset.Vad.Chunks.{process-append}
use telnyx_onset.Media.{
  audio, mark, Sent, clear_message, new_stream, start, flush, Action, audio_frame, mark_fence,
  pacer_takes, pacer_looks, closes, run,
}
use telnyx_onset.Media.Flush.{flush-separates}
use telnyx_onset.Media.Bounds.{run-start-bounded, ClosedFor, run-start-ClosedFor}
use telnyx_onset.Media.Producer.{
  Item, Choice, produces, resumes, looks, takes, talk, spoken, live, talk_total,
}

abbrev some_bytes : Bytes
some_bytes = 1 ∷ 2 ∷ 3 ∷ 4 ∷ 5 ∷ []

frame_pcm16_example :
    (frames : List Bytes) × (frame_pcm16 some_bytes 2 ≡ some frames) × Framed 2 some_bytes frames
frame_pcm16_example = frame_pcm16-Framed some_bytes 2 (ground arith)

three_frames : frame_pcm16 some_bytes 2 ≡ some ((1 ∷ 2 ∷ []) ∷ (3 ∷ 4 ∷ []) ∷ (5 ∷ 0 ∷ []) ∷ [])
unfolding frame_pcm16
three_frames = refl

abbrev some_chunks : List Bytes
some_chunks = (1 ∷ []) ∷ [] ∷ (2 ∷ 3 ∷ 4 ∷ []) ∷ []

abbrev some_source : QueueStreamSource
some_source = record {
  feed = some (1 ∷ 2 ∷ []) ∷ some (3 ∷ []) ∷ none ∷ [];
  buf = 9 ∷ [];
  eof = false;
}

abbrev after_read : QueueStreamSource
after_read = record { feed = []; buf = []; eof = true }

short_read : read 7 some_source ≡ some (after_read, 9 ∷ 1 ∷ 2 ∷ 3 ∷ [])
unfolding read
short_read = refl

read_example :
    (9 ∷ 1 ∷ 2 ∷ 3 ∷ [] ≡ take 7 (remaining some_source))
    × (remaining after_read ≡ drop 7 (remaining some_source))
    × ((length {A = ℕ} (9 ∷ 1 ∷ 2 ∷ 3 ∷ []) ≡ 7)
        ⊎ (((some_source.eof || has_end some_source.feed) ≡ true)
            × (after_read.eof ≡ true)
            × (remaining after_read ≡ [])))
read_example = read-remaining 7 some_source short_read

abbrev loud_frame : Bytes → Bool
loud_frame [] = false
loud_frame (b ∷ bs) = ltb 0 b

-- An engine without state to which a frame is speech if its first byte is not 0.
abbrev loud : VadEngine
loud = record { Vad = Unit; new_vad = λ n. tt; is_speech = λ v frame rate. (v, loud_frame frame) }

abbrev detector : VadDetector Unit
detector = record {
  sample_rate = 100;
  frame_ms = 10;
  frame_bytes = 2;
  aggressiveness = 2;
  speech_onset_ms = 20;
  silence_rearm_ms = 20;
  vad = tt;
  buffer = [];
  state = idle;
  speech_run_ms = 0;
  silence_run_ms = 0;
}

abbrev some_frames : List Bytes
some_frames =
    (1 ∷ 1 ∷ []) ∷ (2 ∷ 0 ∷ []) ∷ (0 ∷ 0 ∷ []) ∷ (0 ∷ 1 ∷ []) ∷ (3 ∷ 3 ∷ []) ∷ (3 ∷ 3 ∷ []) ∷ []

onsets_example :
    onsets loud detector some_frames
    ≡ spec_run 10 20 20 idle [] (decisions loud detector some_frames)
onsets_example = onsets-eq-spec_run loud detector [] some_frames (ground arith) refl

two_onsets : onsets loud detector some_frames ≡ false ∷ true ∷ false ∷ false ∷ false ∷ true ∷ []
unfolding onsets process
two_onsets = refl

process-append_example :
    let (d1, o1) = process loud detector (1 ∷ 1 ∷ 2 ∷ []) in
    let (d2, o2) = process loud d1 (0 ∷ 0 ∷ []) in
    (process loud detector (1 ∷ 1 ∷ 2 ∷ 0 ∷ 0 ∷ []) ≡ (d2, o2 || o1)) × (length d1.buffer < 2)
process-append_example = process-append loud detector (1 ∷ 1 ∷ 2 ∷ []) (0 ∷ 0 ∷ []) (ground arith)

abbrev first_half : List Action
first_half = audio_frame 0 (1 ∷ []) ∷ audio_frame 0 (2 ∷ []) ∷ pacer_looks ∷ pacer_takes false ∷ []

abbrev second_half : List Action
second_half =
    audio_frame 0 (3 ∷ [])
    ∷ audio_frame 1 (4 ∷ [])
    ∷ pacer_takes false
    ∷ mark_fence 1 (5 ∷ [])
    ∷ closes
    ∷ []

flush-separates_example :
    let s = run first_half (new_stream 2 true) in
    let t = run second_half (flush (1, 2, 3) none s).0 in
    (new : List Sent) × (t.wire
      ≡ new ++ (record { epoch = s.epoch + 1; message = clear_message } ∷ s.wire))
    × All (λ x. s.epoch < x.epoch) new
    × All (λ x. x.epoch ≤ s.epoch) s.wire
flush-separates_example = flush-separates 2 true first_half second_half (1, 2, 3) none

run-start-bounded_example :
    let s = run first_half (start (new_stream 2 true)) in (length s.out ≤ 2) × (s.notified ≤ 1)
run-start-bounded_example = run-start-bounded 2 true first_half (ground arith)

first_half-closed : (run (closes ∷ first_half) (start (new_stream 2 true))).closed ≡ true
unfolding run start new_stream
first_half-closed = refl

run-start-ClosedFor_example :
    let s = run (closes ∷ first_half) (start (new_stream 2 true)) in ClosedFor s (run second_half s)
run-start-ClosedFor_example =
    run-start-ClosedFor 2 true (closes ∷ first_half) second_half first_half-closed

abbrev utterance : List Item
utterance = (audio, 1 ∷ []) ∷ (audio, 2 ∷ []) ∷ (mark, 3 ∷ []) ∷ []

abbrev schedule : List Choice
schedule = produces ∷ produces ∷ looks ∷ takes ∷ resumes ∷ produces ∷ takes ∷ []

talk_total_example :
    let (left, t) = talk 0 schedule utterance (new_stream 1 false) in
    spoken 0 t.wire ++ (live 0 t.out ++ (live 0 t.waiting ++ left)) ≡ utterance
unfolding new_stream
talk_total_example = talk_total utterance schedule (new_stream 1 false) refl
