-- ===== src/Agent/Response/Teardown.antt =====
-- A whole response of onset/agent.py: what is left of it however it ends.
use telnyx_onset.Prelude.{
  ℕ, zero, suc, ◌+◌, ◌≡◌, refl, sym, ap, ◌∙◌, subst, inl, inr, Bool, true, false, ◌&&◌, List, [],
  ◌∷◌, arith, if◌then◌else◌, Bool-cases, is_empty, Text, strip,
}
use telnyx_onset.Audio.{Bytes}
use telnyx_onset.Types.{LlmEvent, text_delta, tool_call, LlmMessage, ToolCallRequest}
use telnyx_onset.Limits.{exhausted}
use telnyx_onset.Retry
use telnyx_onset.Retry.{retry_stream}
use telnyx_onset.BargeIn.{was_interrupted}
use telnyx_onset.Conversation.{Conversation, add_assistant_turn}
use telnyx_onset.Agent.{Agent, record_milestone}
use telnyx_onset.Agent.Trigger.{own_of, Own}
use telnyx_onset.Agent.Others.{Other, others, others-own}
use telnyx_onset.Agent.Response.{
  AgentConfig, World, Voice, Exit, done, raised, cancelled, Body, join, queued_frames, send_frames,
  begin_speak, fence, enqueued, speak, say, reply, after_apology, on_exit, consume, charge,
  charge_history, stream_of, after_stream, after_round, use_tools, rounds, respond, handle_exit,
  remember, hang_up_if_ending, finish_response, finish_greeting, teardown_response,
  generate_response, tool_round, greet,
}
use telnyx_onset.Agent.Response.Rounds.{IsSettled, tool_round-IsSettled, assistant-IsSettled}

send_frames-own :
    (epoch : ℕ) (frames : List (List Other × Bytes)) (a : Agent)
    → own_of (send_frames epoch frames a) ≡ own_of a
unfolding send_frames
send_frames-own epoch [] a = refl
send_frames-own epoch ((os, frame) ∷ more) a = send_frames-own epoch more _ ∙ others-own os a

enqueued-own :
    (v : Voice) (epoch g : ℕ) (tokens spoken : List Text) (a : Agent) (exit : Exit)
    → own_of (enqueued v epoch g tokens spoken a exit).0 ≡ own_of a
unfolding fence
enqueued-own v epoch g tokens spoken a done = others-own v.waiting _
enqueued-own v epoch g tokens spoken a raised = refl
enqueued-own v epoch g tokens spoken a cancelled = refl

-- Speaking leaves the conversation, the budget and the place in the flow.
pub speak-own :
    (v : Voice) (tokens spoken : List Text) (a : Agent)
    → own_of (speak v tokens spoken a).0 ≡ own_of a
unfolding speak begin_speak
speak-own v tokens spoken a =
    let c = begin_speak (record a { barge_in = record a.barge_in { agent_is_speaking = true } }) in
    let y = v.synthesize (join tokens) in
    let (frames, exit) = queued_frames c.prebuffer_frames y in
    let b = send_frames c.media.epoch frames c in
    let e =
      enqueued-own v c.media.epoch c.speak_gen tokens spoken (others y.meanwhile b) exit
      ∙ others-own y.meanwhile b
      ∙ send_frames-own c.media.epoch frames c in
    elim (Bool-cases (is_empty (strip (join tokens)))) [ inl t ↦ rw t refl | inr t ↦ rw t e ]

conversation_of : (a b : Agent) → own_of a ≡ own_of b → a.conversation ≡ b.conversation
conversation_of a b e = ap (λ (o : Own). o.conversation) e

abbrev pub Settled : Agent → Type 0
Settled a = IsSettled a.conversation

own-Settled : (a b : Agent) → own_of b ≡ own_of a → Settled a → Settled b
own-Settled a b e h = subst IsSettled (sym (conversation_of b a e)) h

say-Settled :
    (v : Voice) (text : Text) (tokens spoken : List Text) (a : Agent)
    → Settled a
    → Settled (say v text tokens spoken a).agent
say-Settled v text tokens spoken a h =
    own-Settled a (speak v tokens spoken a).0 (speak-own v tokens spoken a) h

if-Settled :
    (t : Bool) (x y : Body) → Settled x.agent → Settled y.agent → Settled (if t then x else y).agent
if-Settled true x y h k = h
if-Settled false x y h k = k

reply-Settled :
    (w : World) (tokens : List Text) (a : Agent) → Settled a → Settled (reply w tokens a).agent
reply-Settled w tokens a h =
    if-Settled (is_empty (strip (join tokens)))
      (record { agent = a; full_text = join tokens; spoken_tokens = []; exit = done })
      (say w.voice (join tokens) tokens [] a) h (say-Settled w.voice (join tokens) tokens [] a h)

consume-conversation :
    (es : List LlmEvent) (tokens : List Text) (calls : List ToolCallRequest) (a : Agent)
    → (consume es tokens calls a).0.conversation ≡ a.conversation
unfolding consume
consume-conversation [] tokens calls a = refl
consume-conversation (text_delta t ∷ es) tokens calls a =
    consume-conversation es _ calls (charge t a)
consume-conversation (tool_call c ∷ es) tokens calls a =
    consume-conversation es tokens _ (charge c.arguments a)

after_round-Settled :
    (next : Agent → Body) (x : Agent × Exit)
    → ((b : Agent) → Settled b → Settled (next b).agent)
    → Settled x.0
    → Settled (after_round next x).agent
after_round-Settled next (a, done) n h = n a h
after_round-Settled next (a, raised) n h = h
after_round-Settled next (a, cancelled) n h = h

after_stream-Settled {ℓ} :
    {E : Type ℓ} (end : Retry.Ending E) (next : Body) (a : Agent)
    → Settled next.agent
    → Settled a
    → Settled (after_stream end next a).agent
after_stream-Settled Retry.finished next a n h = n
after_stream-Settled (Retry.failed e) next a n h = h
after_stream-Settled Retry.cancelled next a n h = h

consumed-Settled :
    (w : World) (round : ℕ) (a : Agent)
    → Settled a
    → Settled (consume (stream_of w round).yielded [] [] (others (w.streaming round) a)).0
consumed-Settled w round a h =
    let b = others (w.streaming round) a in
    subst IsSettled (sym (consume-conversation (stream_of w round).yielded [] [] b))
      (own-Settled a b (others-own (w.streaming round) a) h)

rounds-Settled :
    (config : AgentConfig) (w : World) (left round : ℕ) (a : Agent)
    → Settled a
    → Settled (rounds config w left round a).agent
unfolding rounds
rounds-Settled config w zero round a h =
    let (b, tokens, calls) =
      consume (stream_of w round).yielded [] [] (others (w.streaming round) a) in
    let k = consumed-Settled w round a h in
    let text = config.budget_exceeded_message in
    let sorry_text = config.fallback_message in
    if-Settled (exhausted a.budget) _ _
      (say-Settled w.voice text (text ∷ []) [] (record a { budget_announced = true }) h)
      (after_stream-Settled (stream_of w round).ending _ b
        (if-Settled (use_tools config calls) _ _
          (say-Settled w.voice sorry_text (sorry_text ∷ []) [] b k) (reply-Settled w tokens b k))
        k)
rounds-Settled config w (suc left) round a h =
    let (b, tokens, calls) =
      consume (stream_of w round).yielded [] [] (others (w.streaming round) a) in
    let k = consumed-Settled w round a h in
    let text = config.budget_exceeded_message in
    if-Settled (exhausted a.budget) _ _
      (say-Settled w.voice text (text ∷ []) [] (record a { budget_announced = true }) h)
      (after_stream-Settled (stream_of w round).ending _ b
        (if-Settled (use_tools config calls) _ _
          (after_round-Settled (rounds config w left (round + 1))
            (tool_round config w round calls b) (rounds-Settled config w left (round + 1))
            (tool_round-IsSettled config w round calls b k))
          (reply-Settled w tokens b k))
        k)

charge_history-conversation :
    (ms : List LlmMessage) (a : Agent) → (charge_history ms a).conversation ≡ a.conversation
unfolding charge_history
charge_history-conversation [] a = refl
charge_history-conversation (m ∷ ms) a = charge_history-conversation ms (charge m.content a)

respond-Settled :
    (config : AgentConfig) (w : World) (a : Agent) → Settled a → Settled (respond config w a).agent
unfolding respond
respond-Settled config w a h = rounds-Settled config w config.max_tool_rounds 0 _ (
    subst IsSettled
      (sym (charge_history-conversation a.conversation.messages (charge (w.prompt a) a))) h)

after_apology-Settled :
    (r : Body) (x : Agent × List Text × Exit) → Settled x.0 → Settled (after_apology r x).0.agent
after_apology-Settled r (a, spoken, done) h = h
after_apology-Settled r (a, spoken, raised) h = h
after_apology-Settled r (a, spoken, cancelled) h = h

handle_exit-Settled :
    (config : AgentConfig) (w : World) (r : Body)
    → Settled r.agent
    → Settled (handle_exit config w r).0.agent
unfolding handle_exit
handle_exit-Settled config w r h = go r.exit
  where
    go : (x : Exit) → Settled (on_exit config w x r).0.agent
    go done = h
    go cancelled = h
    go raised =
        let text = config.fallback_message in
        let spoke = speak w.fallback_voice (text ∷ []) r.spoken_tokens r.agent in
        after_apology-Settled r spoke (
          own-Settled r.agent spoke.0
            (speak-own w.fallback_voice (text ∷ []) r.spoken_tokens r.agent) h)

remember-IsSettled :
    (cut : Bool) (text : Text) (spoken : List Text) (c : Conversation)
    → IsSettled c
    → IsSettled (remember cut text spoken c)
remember-IsSettled true text spoken c h = elim (Bool-cases (is_empty (strip (join spoken)))) [
  | inl e ↦
      subst (λ b. IsSettled (if b then c else add_assistant_turn (strip (join spoken)) true [] c))
        (sym e) h
  | inr e ↦
      subst (λ b. IsSettled (if b then c else add_assistant_turn (strip (join spoken)) true [] c))
        (sym e) (assistant-IsSettled (strip (join spoken)) true c h)
]
remember-IsSettled false text spoken c h = elim (Bool-cases (is_empty text)) [
  | inl e ↦ subst (λ b. IsSettled (if b then c else add_assistant_turn text false [] c)) (sym e) h
  | inr e ↦
      subst (λ b. IsSettled (if b then c else add_assistant_turn text false [] c)) (sym e)
        (assistant-IsSettled text false c h)
]

-- The state in which a response, or a greeting, leaves the call.
pub record IsQuiet (a : Agent) : Type 0 where
  pub silent : a.barge_in.agent_is_speaking ≡ false
  pub cleared : a.barge_in.barged_in ≡ false
  pub settled : IsSettled a.conversation

hang_up-IsQuiet : (a : Agent) → IsQuiet a → IsQuiet (hang_up_if_ending a)
hang_up-IsQuiet a h = elim (Bool-cases a.ending) [
  | inl e ↦
      subst (λ b. IsQuiet (if b then record a { hangups = a.hangups + 1 } else a)) (sym e)
        (record { silent = h.silent; cleared = h.cleared; settled = h.settled })
  | inr e ↦ subst (λ b. IsQuiet (if b then record a { hangups = a.hangups + 1 } else a)) (sym e) h
]

finish-IsQuiet :
    (generation : ℕ) (r : Body) → Settled r.agent → IsQuiet (finish_response generation r)
unfolding finish_response was_interrupted record_milestone
finish-IsQuiet generation r h = record {
  silent = refl;
  cleared = refl;
  settled =
      remember-IsSettled r.agent.barge_in.barged_in r.full_text r.spoken_tokens r.agent.conversation
        h;
}

teardown-IsQuiet :
    (w : World) (generation : ℕ) (x : Body × Bool)
    → Settled x.0.agent
    → IsQuiet (teardown_response w generation x).0
unfolding teardown_response
teardown-IsQuiet w generation (r, escapes) h =
    hang_up-IsQuiet (finish_response generation r) (finish-IsQuiet generation r h)

greeted-IsQuiet : (generation : ℕ) (a : Agent) → Settled a → IsQuiet (finish_greeting generation a)
unfolding finish_greeting was_interrupted record_milestone
greeted-IsQuiet generation a h = record { silent = refl; cleared = refl; settled = h }

if-IsQuiet :
    (t : Bool) (x y : Agent × Bool) → IsQuiet x.0 → IsQuiet y.0 → IsQuiet (if t then x else y).0
if-IsQuiet true x y h k = h
if-IsQuiet false x y h k = k

-- However a response ends, by its last word, by an exception of the model, of a tool or of the speech
-- socket, by running out of rounds or tokens, or by a cancellation at any await: the agent does not
-- count as speaking behind it, no interruption is left unread, every tool call in the history has its
-- result and every result its call. This holds if the history was so before, with room for two turns
-- or more, and the response is not skipped for a spent budget.
pub generate_response-IsQuiet :
    (config : AgentConfig) (w : World) (generation : ℕ) (a : Agent)
    → IsSettled a.conversation
    → (exhausted a.budget && a.budget_announced) ≡ false
    → IsQuiet (generate_response config w generation a).0
unfolding generate_response
generate_response-IsQuiet config w generation a h n =
    let text = config.budget_exceeded_message in
    let announced = record a { budget_announced = true } in
    let said = say w.voice text (text ∷ []) [] announced in
    let last =
      teardown-IsQuiet w generation (handle_exit config w said)
        (handle_exit-Settled config w said (say-Settled w.voice text (text ∷ []) [] announced h)) in
    let body =
      teardown-IsQuiet w generation (handle_exit config w (respond config w a))
        (handle_exit-Settled config w (respond config w a) (respond-Settled config w a h)) in
    elim (Bool-cases (exhausted a.budget)) [
      | inl e ↦ let k : a.budget_announced ≡ false = ground arith in rw (e, k) last
      | inr e ↦ rw e body
    ]

-- However a greeting ends, the same holds behind it.
pub greet-IsQuiet :
    (config : AgentConfig) (w : World) (generation : ℕ) (a : Agent)
    → IsSettled a.conversation
    → IsQuiet (greet config w generation a).0
unfolding greet
greet-IsQuiet config w generation a h =
    let spoke = speak w.voice (config.greeting ∷ []) [] a in
    hang_up-IsQuiet (finish_greeting generation spoke.0) (
      greeted-IsQuiet generation spoke.0
        (own-Settled a spoke.0 (speak-own w.voice (config.greeting ∷ []) [] a) h))
