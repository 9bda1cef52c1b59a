-- ===== src/Vad.antt =====
-- onset/vad.py: the onset of the caller's speech. The scoring engine, webrtcvad, is an argument: its
-- state, how it is built for an aggressiveness, and the decision on a frame. `int(sample_rate *
-- frame_ms / 1000)` is the integer quotient; milliseconds and rates are natural numbers.
pub mod Chunks
pub mod Runs
use telnyx_onset.Prelude.{
  ℕ, zero, suc, ◌+◌, ◌-◌, ◌*◌, ◌/◌, ◌%◌, ◌^◌, ◌≤◌, ◌<◌, min, max, ◌≡◌, refl, sym, ap, ap₂, ◌∙◌,
  subst, ◌≢◌, ◌↔◌, ◌⊎◌, inl, inr, Bool, true, false, not, ◌&&◌, ◌||◌, Option, none, some, List, [],
  ◌∷◌, ◌++◌, map, append-nil, append_assoc, arith, ltb, leb, ◌==◌, if◌then◌else◌, ltb→lt, lt→ltb,
  ltb→le, leb→le, le→leb, leb→lt, lt→leb, ==_iff, ==_refl, Bool-cases, Option-cases, length, take,
  drop, replicate, concat, is_empty, All, length-append, take-append-drop, length-take, length-drop,
  length-replicate, take-append, drop-append, All-append, All-map, Text, codes, text_eq, text_eq→eq,
  text_eq_refl, is_space, lstrip, rstrip, strip,
}
use telnyx_onset.Audio.{Bytes}

pub record VadEngine : Type 1 where
  pub Vad : Type 0
  pub new_vad : ℕ → Vad
  pub is_speech : Vad → Bytes → ℕ → Vad × Bool

pub data VadState : Type 0 where
  idle speaking : VadState

pub record VadDetector (V : Type 0) : Type 0 where
  pub sample_rate : ℕ
  pub frame_ms : ℕ
  pub frame_bytes : ℕ
  pub aggressiveness : ℕ
  pub speech_onset_ms : ℕ
  pub silence_rearm_ms : ℕ
  pub vad : V
  pub buffer : Bytes
  pub state : VadState
  pub speech_run_ms : ℕ
  pub silence_run_ms : ℕ

module _ (engine : VadEngine) where
  open engine use {Vad, new_vad, is_speech}

  -- `none` stands for the ValueError.
  unfoldable pub new_detector : ℕ → ℕ → ℕ → ℕ → ℕ → Option (VadDetector Vad)
  new_detector sample_rate frame_ms aggressiveness speech_onset_ms silence_rearm_ms =
      if (frame_ms == 10) || (frame_ms == 20) || (frame_ms == 30)
      then some (record {
        sample_rate = sample_rate;
        frame_ms = frame_ms;
        frame_bytes = sample_rate * frame_ms / 1000 * 2;
        aggressiveness = aggressiveness;
        speech_onset_ms = speech_onset_ms;
        silence_rearm_ms = silence_rearm_ms;
        vad = new_vad aggressiveness;
        buffer = [];
        state = idle;
        speech_run_ms = 0;
        silence_run_ms = 0;
      })
      else none

  unfoldable pub rearm : VadDetector Vad → VadDetector Vad
  rearm d = record d {
    state = idle;
    speech_run_ms = 0;
    silence_run_ms = 0;
    vad = new_vad d.aggressiveness;
  }

  -- A frame in each state, once the engine has decided whether it is speech.
  unfoldable pub on_frame : VadState → Bool → VadDetector Vad → VadDetector Vad × Bool
  unfolding rearm
  on_frame idle speech d =
      let run = if speech then d.speech_run_ms + d.frame_ms else 0 in
      if leb d.speech_onset_ms run
      then (record d { speech_run_ms = run; state = speaking; silence_run_ms = 0 }, true)
      else (record d { speech_run_ms = run }, false)
  on_frame speaking speech d =
      let run = d.silence_run_ms + d.frame_ms in
      let silent = record d { silence_run_ms = run } in
      if speech
      then (record d { silence_run_ms = 0 }, false)
      else if leb d.silence_rearm_ms run
      then (rearm silent, false)
      else (silent, false)

  unfoldable pub process_frame : VadDetector Vad → Bytes → VadDetector Vad × Bool
  unfolding on_frame
  process_frame d frame =
      let (vad', speech) = is_speech d.vad frame d.sample_rate in
      on_frame d.state speech (record d { vad = vad' })

  -- The loop of `process`. A round takes a frame off the buffer, so with a frame size that is not 0
  -- the buffer's length is fuel enough.
  unfoldable pub process_loop : ℕ → VadDetector Vad → Bool → VadDetector Vad × Bool
  unfolding process_frame
  process_loop zero d onset = (d, onset)
  process_loop (suc fuel) d onset =
      let n = d.frame_bytes in
      let (d', fired) = process_frame (record d { buffer = drop n d.buffer }) (take n d.buffer) in
      let rest = process_loop fuel d' (fired || onset) in
      if leb n (length d.buffer) then rest else (d, onset)

  unfoldable pub process : VadDetector Vad → Bytes → VadDetector Vad × Bool
  unfolding process_loop
  process d pcm16 =
      let d' = record d { buffer = d.buffer ++ pcm16 } in process_loop (length d'.buffer) d' false
