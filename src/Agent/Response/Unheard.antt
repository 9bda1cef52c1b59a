-- ===== src/Agent/Response/Unheard.antt =====
-- A response of onset/agent.py that is superseded without an interruption.
use telnyx_onset.Prelude.{
  ℕ, zero, suc, ◌+◌, ◌≡◌, refl, ap, ◌∙◌, inl, inr, Bool, true, false, none, List, [], ◌∷◌,
  append-nil, arith, ltb, if◌then◌else◌, Bool-cases, is_empty, Text, lstrip, rstrip, strip,
}
use native.Mathlib.Numerals.{add-one}
use telnyx_onset.Types.{LlmEvent, text_delta, LlmMessage}
use telnyx_onset.Limits.{TokenBudget, exhausted, record_text}
use telnyx_onset.Retry
use telnyx_onset.Retry.{Attempt, retry_stream}
use telnyx_onset.BargeIn.{BargeInHandler, was_interrupted}
use telnyx_onset.Conversation.{add_assistant_turn}
use telnyx_onset.Agent.{Agent, record_milestone, request_response_cancellation}
use telnyx_onset.Agent.Trigger.{Own, cancel_task-media, cancel_task-barge_in}
use telnyx_onset.Agent.Others.{supersedes, other, others, others-own}
use telnyx_onset.Agent.Response.{
  AgentConfig, World, Voice, Synthesis, cancelled, queued_frames, send_frames, begin_speak, speak,
  reply, consume, charge, charge_history, stream_of, rounds, respond, handle_exit,
  hang_up_if_ending, finish_response, teardown_response, generate_response,
}

-- The speech socket has given no frame when the response is superseded and cancelled.
abbrev pub cut_at_once : Synthesis
cut_at_once = record {
  frames = [];
  ending = cancelled;
  cancelled_after = none;
  meanwhile = supersedes ∷ [];
}

-- What matters of the call for what the history keeps.
record Same (a b : Agent) : Type 0 where
  media : b.media ≡ a.media
  barged_in : b.barge_in.barged_in ≡ a.barge_in.barged_in
  conversation : b.conversation ≡ a.conversation

trans : (a b c : Agent) → Same a b → Same b c → Same a c
trans a b c x y = record {
  media = y.media ∙ x.media;
  barged_in = y.barged_in ∙ x.barged_in;
  conversation = y.conversation ∙ x.conversation;
}

charge_history-Same :
    (ms : List LlmMessage) (a : Agent)
    → Same a (charge_history ms a) × ((charge_history ms a).budget.max_tokens ≡ a.budget.max_tokens)
unfolding charge_history record_text
charge_history-Same [] a = (record { media = refl; barged_in = refl; conversation = refl }, refl)
charge_history-Same (m ∷ ms) a =
    let ih = charge_history-Same ms (charge m.content a) in
    (
      trans a (charge m.content a) (charge_history ms (charge m.content a))
          (record { media = refl; barged_in = refl; conversation = refl }) ih.0,
      ih.1,
    )

unlimited : (b : TokenBudget) → b.max_tokens ≡ 0 → exhausted b ≡ false
unfolding exhausted
unlimited b h = ground arith

first_round :
    (f : ℕ → Attempt LlmEvent Text) (c : ℕ → Bool) (most b n : ℕ) (text : Text)
    → f 0 ≡ record { items = text_delta text ∷ []; ending = Retry.finished }
    → Retry.attempts_from f c most b (suc n) 0
      ≡ record { yielded = text_delta text ∷ []; slept = []; ending = Retry.finished }
unfolding Retry.attempts_from
first_round f c most b n text h = ground arith

one_delta :
    (w : World) (text : Text)
    → w.llm 0 0 ≡ record { items = text_delta text ∷ []; ending = Retry.finished }
    → stream_of w 0 ≡ record { yielded = text_delta text ∷ []; slept = []; ending = Retry.finished }
unfolding retry_stream
one_delta w text h = rw add-one (
    first_round (w.llm 0) (w.sleep_cancelled 0) w.stream_max_retries w.stream_retry_backoff
      w.stream_max_retries text h)

-- The only round of a response without tool calls.
plain_round :
    (config : AgentConfig) (w : World) (left : ℕ) (text : Text) (a : Agent)
    → stream_of w 0 ≡ record { yielded = text_delta text ∷ []; slept = []; ending = Retry.finished }
    → w.streaming 0 ≡ []
    → exhausted a.budget ≡ false
    → rounds config w left 0 a ≡ reply w (text ∷ []) (charge text a)
unfolding rounds consume others
plain_round config w zero text a s o e = rw (s, o, e)
plain_round config w (suc left) text a s o e = rw (s, o, e)

other-Same : (a : Agent) → Same a (others (supersedes ∷ []) a)
unfolding others other request_response_cancellation
other-Same a = record {
  media = cancel_task-media a.response_task a.current_response_gen a;
  barged_in =
      ap (λ (b : BargeInHandler). b.barged_in)
        (cancel_task-barge_in a.response_task a.current_response_gen a);
  conversation = ap (λ (o : Own). o.conversation) (others-own (supersedes ∷ []) a);
}

-- What the speech leaves that is cut before its first frame.
abbrev cut_speech : Agent → Agent
cut_speech a =
    others (supersedes ∷ [])
      (begin_speak (record a { barge_in = record a.barge_in { agent_is_speaking = true } }))

cut_speech-Same : (a : Agent) → Same a (cut_speech a)
unfolding begin_speak
cut_speech-Same a =
    let b = begin_speak (record a { barge_in = record a.barge_in { agent_is_speaking = true } }) in
    trans a b (cut_speech a) (record { media = refl; barged_in = refl; conversation = refl })
      (other-Same b)

speak_cut :
    (v : Voice) (text : Text) (a : Agent)
    → v.synthesize text ≡ cut_at_once
    → is_empty (strip text) ≡ false
    → speak v (text ∷ []) [] a ≡ (cut_speech a, [], cancelled)
unfolding speak queued_frames send_frames
speak_cut v text a h n = elim (Bool-cases (ltb 0 a.prebuffer_frames)) [
  | inl e ↦ rw (append-nil text, n, h, e) refl
  | inr e ↦ rw (append-nil text, n, h, e) refl
]

reply_cut :
    (w : World) (text : Text) (a : Agent)
    → w.voice.synthesize text ≡ cut_at_once
    → is_empty (strip text) ≡ false
    → reply w (text ∷ []) a
      ≡ record { agent = cut_speech a; full_text = text; spoken_tokens = []; exit = cancelled }
reply_cut w text a h n = rw (append-nil text, n, speak_cut w.voice text a h n) refl

record Claimed (text : Text) (a b : Agent) : Type 0 where
  media : b.media ≡ a.media
  conversation : b.conversation ≡ add_assistant_turn text false [] a.conversation

if-Claimed :
    (t : Bool) (text : Text) (a b c : Agent)
    → Claimed text a b
    → Claimed text a c
    → Claimed text a (if t then b else c)
if-Claimed true text a b c h k = h
if-Claimed false text a b c h k = k

hang_up-Claimed :
    (text : Text) (a b : Agent) → Claimed text a b → Claimed text a (hang_up_if_ending b)
hang_up-Claimed text a b h =
    if-Claimed b.ending text a (record b { hangups = b.hangups + 1 }) b
      (record { media = h.media; conversation = h.conversation }) h

strip-nonempty : (text : Text) → is_empty (strip text) ≡ false → is_empty text ≡ false
unfolding strip lstrip rstrip
strip-nonempty [] n = n
strip-nonempty (c ∷ text) n = refl

finish-Claimed :
    (generation : ℕ) (text : Text) (a b : Agent)
    → Same a b
    → a.barge_in.barged_in ≡ false
    → is_empty text ≡ false
    → Claimed text a (
        finish_response generation
          (record { agent = b; full_text = text; spoken_tokens = []; exit = cancelled }))
unfolding finish_response was_interrupted record_milestone
finish-Claimed generation text a b s q n = record {
  media = s.media;
  conversation = rw (s.barged_in, q, n, s.conversation) refl;
}

responded :
    (config : AgentConfig) (w : World) (text : Text) (a : Agent)
    → w.llm 0 0 ≡ record { items = text_delta text ∷ []; ending = Retry.finished }
    → w.streaming 0 ≡ []
    → w.voice.synthesize text ≡ cut_at_once
    → is_empty (strip text) ≡ false
    → a.budget.max_tokens ≡ 0
    → (b : Agent) × Same a b
      × (handle_exit config w (respond config w a)
          ≡ (record { agent = b; full_text = text; spoken_tokens = []; exit = cancelled }, false))
unfolding respond handle_exit
responded config w text a l s y n m =
    let b = charge_history a.conversation.messages (charge (w.prompt a) a) in
    let (same, kept) = charge_history-Same a.conversation.messages (charge (w.prompt a) a) in
    let e =
      plain_round config w config.max_tool_rounds text b (one_delta w text l) s
        (unlimited b.budget (kept ∙ m))
      ∙ reply_cut w text (charge text b) y n in
    (
      cut_speech (charge text b),
      trans a (charge text b) (cut_speech (charge text b))
          (record {
            media = same.media;
            barged_in = same.barged_in;
            conversation = same.conversation;
          })
          (cut_speech-Same (charge text b)),
      rw e refl,
    )

-- A response whose text is not blank is superseded while the speech socket has given no frame yet. The
-- history then keeps the whole text as a completed turn of the agent, although nothing of it was put
-- into the media stream. Here the model's first stream ends with this text alone, no interruption was
-- noted, the call has no token limit, and nothing else runs in between.
pub generate_response-unheard :
    (config : AgentConfig) (w : World) (generation : ℕ) (text : Text) (a : Agent)
    → w.llm 0 0 ≡ record { items = text_delta text ∷ []; ending = Retry.finished }
    → w.streaming 0 ≡ []
    → w.voice.synthesize text ≡ cut_at_once
    → is_empty (strip text) ≡ false
    → a.budget.max_tokens ≡ 0
    → a.barge_in.barged_in ≡ false
    → let b = (generate_response config w generation a).0 in
      (b.media ≡ a.media) × (b.conversation ≡ add_assistant_turn text false [] a.conversation)
unfolding generate_response teardown_response
generate_response-unheard config w generation text a l s y n m q =
    let (b, same, e) = responded config w text a l s y n m in
    let c =
      finish_response generation
        (record { agent = b; full_text = text; spoken_tokens = []; exit = cancelled }) in
    let h =
      hang_up-Claimed text a c
        (finish-Claimed generation text a b same q (strip-nonempty text n)) in
    rw (unlimited a.budget m, e) (h.media, h.conversation)
