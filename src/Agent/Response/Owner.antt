-- ===== src/Agent/Response/Owner.antt =====
-- A response of onset/agent.py and the ownership of its task.
use telnyx_onset.Prelude.{
  ℕ, zero, suc, ◌+◌, ◌≡◌, refl, Bool, true, false, List, [], ◌∷◌, arith, Text, codes, is_empty,
  strip, if◌then◌else◌, inl, inr, Bool-cases,
}
use telnyx_onset.Audio.{Bytes}
use telnyx_onset.Types.{LlmEvent, text_delta, tool_call, LlmMessage, ToolCallRequest}
use telnyx_onset.Limits.{exhausted}
use telnyx_onset.Retry
use telnyx_onset.Agent.{Agent, record_milestone}
use telnyx_onset.Agent.Ownership.{Owned}
use telnyx_onset.Agent.Others.{Other, others, held_of, held-Owned, others-Owned}
use telnyx_onset.Agent.Response.{
  AgentConfig, World, Voice, Exit, done, raised, cancelled, Body, ToolEnd, answers, raises,
  is_cancelled, join, queued_frames, send_frames, begin_speak, fence, enqueued, speak, say,
  handle_transition, charge, charge_history, consume, add_result, answered_by, after_tool,
  run_tools, has_id, fill_unanswered, tool_round, reply, after_round, stream_of, after_stream,
  use_tools, rounds, respond, after_apology, on_exit, handle_exit, finish_response,
  teardown_response, generate_response,
}

if-Owned : (t : Bool) (a b : Agent) → Owned a → Owned b → Owned (if t then a else b)
if-Owned true a b h k = h
if-Owned false a b h k = k

if-body : (t : Bool) (x y : Body) → Owned x.agent → Owned y.agent → Owned (if t then x else y).agent
if-body true x y h k = h
if-body false x y h k = k

send_frames-Owned :
    (epoch : ℕ) (frames : List (List Other × Bytes)) (a : Agent)
    → Owned a
    → Owned (send_frames epoch frames a)
unfolding send_frames
send_frames-Owned epoch [] a h = h
send_frames-Owned epoch ((os, frame) ∷ more) a h =
    send_frames-Owned epoch more _ (held-Owned (others os a) _ refl (others-Owned os a h))

enqueued-Owned :
    (v : Voice) (epoch g : ℕ) (tokens spoken : List Text) (a : Agent) (exit : Exit)
    → Owned a
    → Owned (enqueued v epoch g tokens spoken a exit).0
unfolding fence
enqueued-Owned v epoch g tokens spoken a done h = others-Owned v.waiting _ (held-Owned a _ refl h)
enqueued-Owned v epoch g tokens spoken a raised h = h
enqueued-Owned v epoch g tokens spoken a cancelled h = h

speak-Owned :
    (v : Voice) (tokens spoken : List Text) (a : Agent)
    → Owned a
    → Owned (speak v tokens spoken a).0
unfolding speak begin_speak
speak-Owned v tokens spoken a h =
    let b = record a { barge_in = record a.barge_in { agent_is_speaking = true } } in
    let c = begin_speak b in
    let y = v.synthesize (join tokens) in
    let (frames, exit) = queued_frames c.prebuffer_frames y in
    let sent = send_frames c.media.epoch frames c in
    let k =
      enqueued-Owned v c.media.epoch c.speak_gen tokens spoken (others y.meanwhile sent) exit (
        others-Owned y.meanwhile sent
          (send_frames-Owned c.media.epoch frames c (held-Owned a c refl h))) in
    elim (Bool-cases (is_empty (strip (join tokens)))) [
      | inl t ↦ rw t (held-Owned a b refl h)
      | inr t ↦ rw t k
    ]

say-Owned :
    (v : Voice) (text : Text) (tokens spoken : List Text) (a : Agent)
    → Owned a
    → Owned (say v text tokens spoken a).agent
say-Owned v text tokens spoken a h = speak-Owned v tokens spoken a h

reply-Owned :
    (w : World) (tokens : List Text) (a : Agent) → Owned a → Owned (reply w tokens a).agent
reply-Owned w tokens a h =
    if-body (is_empty (strip (join tokens)))
      (record { agent = a; full_text = join tokens; spoken_tokens = []; exit = done })
      (say w.voice (join tokens) tokens [] a) h (say-Owned w.voice (join tokens) tokens [] a h)

handle_transition-held :
    (config : AgentConfig) (name : Text) (a : Agent)
    → held_of (handle_transition config name a) ≡ held_of a
unfolding handle_transition
handle_transition-held config name a = ground arith

consume-Owned :
    (es : List LlmEvent) (tokens : List Text) (calls : List ToolCallRequest) (a : Agent)
    → Owned a
    → Owned (consume es tokens calls a).0
unfolding consume
consume-Owned [] tokens calls a h = h
consume-Owned (text_delta t ∷ es) tokens calls a h =
    consume-Owned es _ calls (charge t a) (held-Owned a (charge t a) refl h)
consume-Owned (tool_call c ∷ es) tokens calls a h =
    consume-Owned es tokens _ (charge c.arguments a) (held-Owned a (charge c.arguments a) refl h)

charge_history-Owned : (ms : List LlmMessage) (a : Agent) → Owned a → Owned (charge_history ms a)
unfolding charge_history
charge_history-Owned [] a h = h
charge_history-Owned (m ∷ ms) a h =
    charge_history-Owned ms (charge m.content a) (held-Owned a (charge m.content a) refl h)

answered_by-Owned :
    (config : AgentConfig) (call : ToolCallRequest) (result : Text) (ok : Bool) (a : Agent)
    → Owned a
    → Owned (answered_by config call result ok a)
answered_by-Owned config call result ok a h =
    let b = charge result (add_result call result a) in
    let k = held-Owned a b refl h in
    if-Owned ok (handle_transition config call.name b) b
      (held-Owned b (handle_transition config call.name b)
        (handle_transition-held config call.name b) k)
      k

after_tool-Owned :
    (config : AgentConfig) (call : ToolCallRequest)
    (next : List Text → Agent → Agent × List Text × Exit) (end : ToolEnd) (answered : List Text)
    (a : Agent)
    → ((gone : List Text) (b : Agent) → Owned b → Owned (next gone b).0)
    → Owned a
    → Owned (after_tool config call next end answered a).0
after_tool-Owned config call next (answers result ok) answered a n h =
    n _ _ (answered_by-Owned config call result ok a h)
after_tool-Owned config call next raises answered a n h = h
after_tool-Owned config call next is_cancelled answered a n h = h

run_tools-Owned :
    (config : AgentConfig) (w : World) (round : ℕ) (calls : List ToolCallRequest)
    (answered : List Text) (a : Agent)
    → Owned a
    → Owned (run_tools config w round calls answered a).0
unfolding run_tools
run_tools-Owned config w round [] answered a h = h
run_tools-Owned config w round (call ∷ calls) answered a h =
    after_tool-Owned config call (run_tools config w round calls) (w.tool round call) answered
      (others (w.working round call) a) (run_tools-Owned config w round calls)
      (others-Owned (w.working round call) a h)

fill_unanswered-Owned :
    (calls : List ToolCallRequest) (answered : List Text) (a : Agent)
    → Owned a
    → Owned (fill_unanswered calls answered a)
unfolding fill_unanswered
fill_unanswered-Owned [] answered a h = h
fill_unanswered-Owned (call ∷ calls) answered a h =
    let b = add_result call (codes "(interrupted)") a in
    fill_unanswered-Owned calls answered _
      (if-Owned (has_id call.id answered) a b h (held-Owned a b refl h))

tool_round-Owned :
    (config : AgentConfig) (w : World) (round : ℕ) (calls : List ToolCallRequest) (a : Agent)
    → Owned a
    → Owned (tool_round config w round calls a).0
unfolding tool_round
tool_round-Owned config w round calls a h =
    fill_unanswered-Owned calls _ _
      (run_tools-Owned config w round calls [] _ (held-Owned a _ refl h))

after_round-Owned :
    (next : Agent → Body) (x : Agent × Exit)
    → ((b : Agent) → Owned b → Owned (next b).agent)
    → Owned x.0
    → Owned (after_round next x).agent
after_round-Owned next (a, done) n h = n a h
after_round-Owned next (a, raised) n h = h
after_round-Owned next (a, cancelled) n h = h

after_stream-Owned {ℓ} :
    {E : Type ℓ} (end : Retry.Ending E) (next : Body) (a : Agent)
    → Owned next.agent
    → Owned a
    → Owned (after_stream end next a).agent
after_stream-Owned Retry.finished next a n h = n
after_stream-Owned (Retry.failed e) next a n h = h
after_stream-Owned Retry.cancelled next a n h = h

rounds-Owned :
    (config : AgentConfig) (w : World) (left round : ℕ) (a : Agent)
    → Owned a
    → Owned (rounds config w left round a).agent
unfolding rounds
rounds-Owned config w zero round a h =
    let (b, tokens, calls) =
      consume (stream_of w round).yielded [] [] (others (w.streaming round) a) in
    let k =
      consume-Owned (stream_of w round).yielded [] [] _ (others-Owned (w.streaming round) a h) in
    let text = config.budget_exceeded_message in
    let sorry_text = config.fallback_message in
    if-body (exhausted a.budget) _ _
      (say-Owned w.voice text (text ∷ []) [] (record a { budget_announced = true })
        (held-Owned a _ refl h))
      (after_stream-Owned (stream_of w round).ending _ b
        (if-body (use_tools config calls) _ _
          (say-Owned w.voice sorry_text (sorry_text ∷ []) [] b k) (reply-Owned w tokens b k))
        k)
rounds-Owned config w (suc left) round a h =
    let (b, tokens, calls) =
      consume (stream_of w round).yielded [] [] (others (w.streaming round) a) in
    let k =
      consume-Owned (stream_of w round).yielded [] [] _ (others-Owned (w.streaming round) a h) in
    let text = config.budget_exceeded_message in
    if-body (exhausted a.budget) _ _
      (say-Owned w.voice text (text ∷ []) [] (record a { budget_announced = true })
        (held-Owned a _ refl h))
      (after_stream-Owned (stream_of w round).ending _ b
        (if-body (use_tools config calls) _ _
          (after_round-Owned (rounds config w left (round + 1)) (tool_round config w round calls b)
            (rounds-Owned config w left (round + 1)) (tool_round-Owned config w round calls b k))
          (reply-Owned w tokens b k))
        k)

respond-Owned :
    (config : AgentConfig) (w : World) (a : Agent) → Owned a → Owned (respond config w a).agent
unfolding respond
respond-Owned config w a h =
    rounds-Owned config w config.max_tool_rounds 0 _
      (charge_history-Owned a.conversation.messages (charge (w.prompt a) a) (held-Owned a _ refl h))

after_apology-Owned :
    (r : Body) (x : Agent × List Text × Exit) → Owned x.0 → Owned (after_apology r x).0.agent
after_apology-Owned r (a, spoken, done) h = h
after_apology-Owned r (a, spoken, raised) h = h
after_apology-Owned r (a, spoken, cancelled) h = h

on_exit-Owned :
    (config : AgentConfig) (w : World) (x : Exit) (r : Body)
    → Owned r.agent
    → Owned (on_exit config w x r).0.agent
on_exit-Owned config w done r h = h
on_exit-Owned config w cancelled r h = h
on_exit-Owned config w raised r h =
    after_apology-Owned r
      (speak w.fallback_voice (config.fallback_message ∷ []) r.spoken_tokens r.agent)
      (speak-Owned w.fallback_voice (config.fallback_message ∷ []) r.spoken_tokens r.agent h)

closed-Owned :
    (w : World) (generation : ℕ) (config : AgentConfig) (r : Body)
    → Owned r.agent
    → Owned (teardown_response w generation (handle_exit config w r)).0
unfolding teardown_response handle_exit finish_response record_milestone
closed-Owned w generation config r h =
    let x = (on_exit config w r.exit r).0 in
    let b = finish_response generation x in
    let k = held-Owned x.agent b refl (on_exit-Owned config w r.exit r h) in
    if-Owned b.ending _ b (held-Owned b _ refl k) k

if-pair : (t : Bool) (x y : Agent × Bool) → Owned x.0 → Owned y.0 → Owned (if t then x else y).0
if-pair true x y h k = h
if-pair false x y h k = k

-- From its prompt to its teardown, whatever the sockets, the pacer and the run loop do at each of its
-- awaits and however it ends, a response keeps the ownership of its task: the task stays that of the
-- newest generation, `cancel` was called on it once if its cancellation was requested and never
-- otherwise, and no generation to come is marked, if that holds before.
pub generate_response-Owned :
    (config : AgentConfig) (w : World) (generation : ℕ) (a : Agent)
    → Owned a
    → Owned (generate_response config w generation a).0
unfolding generate_response record_milestone
generate_response-Owned config w generation a h =
    let text = config.budget_exceeded_message in
    let announced = record a { budget_announced = true } in
    let said = say w.voice text (text ∷ []) [] announced in
    if-pair (exhausted a.budget) _ _
      (if-pair a.budget_announced _ _ (held-Owned a _ refl h) (
        closed-Owned w generation config said
          (say-Owned w.voice text (text ∷ []) [] announced (held-Owned a _ refl h))))
      (closed-Owned w generation config (respond config w a) (respond-Owned config w a h))
