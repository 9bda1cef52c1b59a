-- ===== src/Lib.antt =====
-- telnyx-onset, a voice agent on the telephone: a model of its parts and what is proved of them.
--
-- A call is a set of coroutines on one event loop. The media socket hands frames of the caller to
-- `VoiceAgent.handle_audio`, which feeds the speech recogniser and a voice activity detector. Their
-- events, the echoes of the mark fences and the hangups go into one queue, which the run loop of
-- `VoiceAgent.run` handles one by one: it stops the playback when the caller speaks, asks the turn
-- manager for completed turns, and starts a response task for each. A response asks the model, runs
-- its tools, speaks over the media stream and writes the history.
--
--   * Types: onset/types.py, events and messages.
--   * Limits: onset/limits.py, the limit of calls and the token budget (Calls, Budget).
--   * Turn: onset/turn_manager.py, turns from transcription events (ExactlyOnce).
--   * BargeIn: onset/barge_in.py, the flags of an interruption.
--   * Retry: onset/retry.py, a stream opened anew while it has produced nothing (Once).
--   * Conversation: onset/conversation.py, the history and its trimming (Window).
--   * Audio: onset/audio.py, frames of PCM, the reframer and the source of the decoder (Frames, Stream,
--     Source).
--   * Vad: onset/vad.py, the detector of onsets over a speech engine (Runs, Chunks).
--   * Media: onset/media.py, the outbound side of the media socket (Flush, Bounds, Producer).
--   * Benchmark: the interruption sources and milestones of onset/benchmark.py, and the duplex policy of
--     onset/settings.py.
--   * Agent: onset/agent.py. The state of a call and the callbacks of its sockets; Loop is the handling
--     of one item of the queue, with Trigger, Ownership, Gate and Supersede on it; Others is what other
--     tasks do while a response awaits; Response is one response or greeting from its prompt to its
--     teardown, with History, Rounds, Teardown, Owner and Unheard on it.
--   * Json: the values of json.loads, for Media.Inbound, which decodes the messages of onset/media.py (Raises).
--   * Llm: the stream of a completion in onset/telnyx.py, and the tool calls it puts together (Calls).
--   * Tools: onset/tools.py, the registry (Outcome) and its three tools (Demo, Reservation).
--   * Stt: onset/stt.py, the client of the speech recogniser (Newest, Reconnect).
--   * Tts: onset/tts.py, a synthesis on both of its paths (Modes).
--   * Server: onset/server.py. The state of the process and the webhooks; Socket is the route of the media
--     sockets, with Cases, Slots, Served, Admission and SecondCall on it; Marks reads the names of marks.
--   * Bench: bench/phase3.py (Phase3), bench/media_capture.py (Tokens, Frames, Capture), bench/acoustic_stop.py
--     (AcousticStop) and bench/acoustic_probe.py (Probe): the classification of benchmark trials, the one-time stream
--     tokens, the messages of a stream, the bounded
--     capture of audio, the end of speech in it, and a run of the probe. In Probe, Calls has the webhooks, Schedule
--     their stretches in any order, Watch the watchdog, and Rule what every proof about a run goes by.
--   * Prelude: numbers, lists and strings for all of these. Tests: runs of the code at concrete inputs.
--
-- A state is a record with the fields of the object, an operation a function on it, an exception or an
-- absent value a sum or an option. Python's integers are natural numbers where the code never makes
-- them negative; strings are lists of code points and bytes are lists of numbers. One stretch between
-- two awaits is one function. What happens during an await is an argument: in Media a list of the
-- stretches of all tasks in any order, in Agent.Response a list of actions of the other tasks for each
-- await. Clock readings, outcomes of sends, scores of the speech engine, the events of the model, the
-- results of tools and the frames of the speech socket are arguments too.
--
-- Loops over a stream or a list are structural. Those of `frame_pcm16`, `Pcm16Reframer.push` and
-- `VadDetector.process` run on fuel, the length of their input: each step takes at least one byte, and
-- the theorems on them show that the result is that of the loop run to its end. The rounds of a response
-- count down from `max_tool_rounds`, as the code does, and a retried stream from its number of attempts.
--
-- Not modelled: the shutdown of onset/server.py, the sending of onset/stt.py, the teardown of a
-- synthesis in onset/tts.py, the requests and signatures of onset/telnyx.py, the schemas of onset/tools.py, prompt texts, the JSON and base64 texts of
-- messages, the start and the teardown of the run loop, timing, logging, and the network programs and reports of bench
-- and scripts. The decoder of MP3, the queue and tasks of asyncio beyond what the code uses of them, and
-- the shuffle of `random` are libraries. Of the MP3 decoder the comparison of the two paths of a synthesis
-- takes what docs/streaming-tts-decode-plan.md and scripts/validate_streaming_decode.py record: the decoder
-- of a whole reply gives the streamed audio behind leading priming samples. Where an awaited tool is
-- cancelled, the cancellation is that of the response (Agent.Response), not an outcome of Tools.
pub mod Prelude
pub mod Types
pub mod Limits
pub mod Turn
pub mod BargeIn
pub mod Retry
pub mod Conversation
pub mod Audio
pub mod Vad
pub mod Media
pub mod Benchmark
pub mod Json
pub mod Agent
pub mod Llm
pub mod Tools
pub mod Stt
pub mod Tts
pub mod Server
pub mod Bench
pub mod Tests
