-- ===== src/Agent/Response.antt =====
-- onset/agent.py: one response, from its prompt to its teardown, with the tool rounds, the speech and
-- the moves in the flow. What the model, the tools and the speech socket give is an argument, and so
-- are the cancellations and what other tasks do during an await.
pub mod History
pub mod Rounds
pub mod Teardown
pub mod Owner
pub mod Unheard
use telnyx_onset.Prelude.{
  ℕ, zero, suc, ◌+◌, ◌-◌, ◌*◌, ◌/◌, ◌%◌, ◌^◌, ◌≤◌, ◌<◌, min, max, ◌≡◌, refl, sym, ap, ap₂, ◌∙◌,
  subst, ◌≢◌, ◌↔◌, ◌⊎◌, inl, inr, Bool, true, false, not, ◌&&◌, ◌||◌, Option, none, some, List, [],
  ◌∷◌, ◌++◌, map, append-nil, append_assoc, arith, ltb, leb, ◌==◌, if◌then◌else◌, ltb→lt, lt→ltb,
  ltb→le, leb→le, le→leb, leb→lt, lt→leb, ==_iff, ==_refl, Bool-cases, Option-cases, length, take,
  drop, replicate, concat, is_empty, All, length-append, take-append-drop, length-take, length-drop,
  length-replicate, take-append, drop-append, All-append, All-map, Text, codes, decimal, text_eq,
  text_eq→eq, text_eq_refl, is_space, lstrip, rstrip, strip,
}
use telnyx_onset.Audio.{Bytes}
use telnyx_onset.Types.{LlmEvent, text_delta, tool_call, LlmMessage, ToolCallRequest}
use telnyx_onset.Limits.{exhausted, record_text}
use telnyx_onset.Retry
use telnyx_onset.Retry.{Attempt, retry_stream}
use telnyx_onset.BargeIn.{was_interrupted}
use telnyx_onset.Conversation.{Conversation, add_assistant_turn, add_tool_result}
use telnyx_onset.Media
use telnyx_onset.Media.{send_audio_frame, send_mark, begin_utterance}
use telnyx_onset.Benchmark.{Milestone, response_teardown_completed, skipped_budget_exhausted}
use telnyx_onset.Agent.{Agent, record_milestone}
use telnyx_onset.Agent.Others.{Other, others}

-- onset/prompts.py: the parts of the configuration that the response reads. `has_tools` tells that
-- there is a registry, and no nodes stand for None.
pub record FlowNode : Type 0 where
  pub transitions : List (Text × Text)
  pub terminal : Bool

pub record AgentConfig : Type 0 where
  pub greeting : Text
  pub has_tools : Bool
  pub nodes : List (Text × FlowNode)
  pub fallback_message : Text
  pub max_tool_rounds : ℕ
  pub budget_exceeded_message : Text

-- How a stretch of a coroutine ends: behind its last statement, or by an exception.
pub data Exit : Type 0 where
  done raised cancelled : Exit

-- What the generator of `synthesize` yields, with what the others do before each frame is queued, and
-- how it ends. `cancelled_after` counts the frames queued when a cancellation falls into a `put`.
pub record Synthesis : Type 0 where
  pub frames : List (List Other × Bytes)
  pub ending : Exit
  pub cancelled_after : Option ℕ
  pub meanwhile : List Other

-- What one call of `_speak` meets; `waiting` is what happens until the echo or the timeout.
pub record Voice : Type 0 where
  pub synthesize : Text → Synthesis
  pub waiting : List Other
  pub wait_cancelled : Bool

pub data ToolEnd : Type 0 where
  answers : Text → Bool → ToolEnd
  raises is_cancelled : ToolEnd

-- What a response meets: the prompt, in each round the attempts of the stream and the ends of its tool
-- calls, in each speech the socket, and in each await the other tasks.
pub record World : Type 0 where
  pub prompt : Agent → Text
  pub llm : ℕ → ℕ → Attempt LlmEvent Text
  pub sleep_cancelled : ℕ → ℕ → Bool
  pub stream_max_retries : ℕ
  pub stream_retry_backoff : ℕ
  pub tool : ℕ → ToolCallRequest → ToolEnd
  pub voice : Voice
  pub fallback_voice : Voice
  pub streaming : ℕ → List Other
  pub working : ℕ → ToolCallRequest → List Other
  pub hangup_cancelled : Bool

abbrev pub join : List Text → Text
join ts = concat ts

-- The frames that reach the media queue. While the prebuffer fills up nothing is queued.
abbrev pub cut_frames : Synthesis → List (List Other × Bytes) × Exit
cut_frames y = elim y.cancelled_after [
  | none ↦ (y.frames, y.ending)
  | some k ↦ if ltb k (length y.frames) then (take k y.frames, cancelled) else (y.frames, y.ending)
]

unfoldable pub queued_frames : ℕ → Synthesis → List (List Other × Bytes) × Exit
queued_frames prebuffer_frames y = elim y.ending [
  | done ↦ cut_frames y
  | _ ↦ if ltb (length y.frames) prebuffer_frames then ([], y.ending) else cut_frames y
]

unfoldable pub send_frames : ℕ → List (List Other × Bytes) → Agent → Agent
unfolding send_audio_frame
send_frames epoch [] a = a
send_frames epoch ((os, frame) ∷ more) a =
    let b = others os a in
    send_frames epoch more (record b { media = send_audio_frame epoch frame b.media })

-- The name of the mark fence of a speak.
unfoldable pub mark_name : ℕ → Text
mark_name generation = codes "speak:" ++ decimal generation

unfoldable pub begin_speak : Agent → Agent
begin_speak a = record a {
  speak_gen = a.speak_gen + 1;
  current_speak_gen = some (a.speak_gen + 1);
  speak_done = false;
}

-- The end of `_speak`, once all frames are queued: the mark, and the wait for its echo.
unfoldable pub fence : ℕ → ℕ → Voice → Agent → Agent × Exit
unfolding send_mark mark_name
fence epoch generation v a =
    let b = record a { media = send_mark epoch (mark_name generation) a.media } in
    (others v.waiting b, if v.wait_cancelled then cancelled else done)

abbrev pub enqueued :
    Voice → ℕ → ℕ → List Text → List Text → Agent → Exit → Agent × List Text × Exit
enqueued v epoch g tokens spoken a done =
    let (b, exit) = fence epoch g v a in (b, spoken ++ tokens, exit)
enqueued v epoch g tokens spoken a exit = (a, spoken, exit)

unfoldable pub speak : Voice → List Text → List Text → Agent → Agent × List Text × Exit
unfolding queued_frames send_frames begin_speak fence begin_utterance
speak v tokens spoken a =
    let b = record a { barge_in = record a.barge_in { agent_is_speaking = true } } in
    let c = begin_speak b in
    let epoch = begin_utterance c.media in
    let y = v.synthesize (join tokens) in
    let (frames, exit) = queued_frames c.prebuffer_frames y in
    if is_empty (strip (join tokens))
    then (b, spoken, done)
    else enqueued v epoch c.speak_gen tokens spoken
        (others y.meanwhile (send_frames epoch frames c)) exit

abbrev pub find {ℓ} : {A : Type ℓ} → Text → List (Text × A) → Option A
find k [] = none
find k ((k', v) ∷ rest) = let found = find k rest in if text_eq k' k then some v else found

-- An empty name is no node.
unfoldable pub get_current_node : AgentConfig → Agent → Option FlowNode
get_current_node config a = elim a.current_node [
  | none ↦ none
  | some name ↦ if is_empty name then none else find name config.nodes
]

abbrev pub enter_node : AgentConfig → Text → Agent → Agent
enter_node config next a =
    let b = record a { current_node = some next } in
    elim (find next config.nodes) [
      | none ↦ b
      | some node ↦ if node.terminal then record b { ending = true } else b
    ]

unfoldable pub handle_transition : AgentConfig → Text → Agent → Agent
unfolding get_current_node
handle_transition config tool_name a = elim (get_current_node config a) [
  | none ↦ a
  | some node ↦ elim (find tool_name node.transitions) [
    | none ↦ a
    | some next ↦ enter_node config next a
  ]
]

abbrev pub charge : Text → Agent → Agent
charge text a = record a { budget = record_text a.budget text }

unfoldable pub charge_history : List LlmMessage → Agent → Agent
unfolding record_text
charge_history [] a = a
charge_history (m ∷ ms) a = charge_history ms (charge m.content a)

-- The events of one stream: the text, the tool calls, and the charges.
unfoldable pub consume :
    List LlmEvent
    → List Text
    → List ToolCallRequest
    → Agent
    → Agent × List Text × List ToolCallRequest
unfolding record_text
consume [] tokens calls a = (a, tokens, calls)
consume (text_delta text ∷ es) tokens calls a =
    consume es (tokens ++ (text ∷ [])) calls (charge text a)
consume (tool_call call ∷ es) tokens calls a =
    consume es tokens (calls ++ (call ∷ [])) (charge call.arguments a)

abbrev pub add_result : ToolCallRequest → Text → Agent → Agent
add_result call result a = record a { conversation = add_tool_result call.id result a.conversation }

abbrev pub answered_by : AgentConfig → ToolCallRequest → Text → Bool → Agent → Agent
answered_by config call result succeeded a =
    let b = charge result (add_result call result a) in
    if succeeded then handle_transition config call.name b else b

-- One call of a round, with what follows it; the ids answered are kept.
abbrev pub after_tool :
    AgentConfig
    → ToolCallRequest
    → (List Text → Agent → Agent × List Text × Exit)
    → ToolEnd
    → List Text
    → Agent
    → Agent × List Text × Exit
after_tool config call next (answers result succeeded) answered a =
    next (call.id ∷ answered) (answered_by config call result succeeded a)
after_tool config call next raises answered a = (a, answered, raised)
after_tool config call next is_cancelled answered a = (a, answered, cancelled)

unfoldable pub run_tools :
    AgentConfig → World → ℕ → List ToolCallRequest → List Text → Agent → Agent × List Text × Exit
unfolding add_tool_result record_text handle_transition
run_tools config w round [] answered a = (a, answered, done)
run_tools config w round (call ∷ calls) answered a =
    after_tool config call (run_tools config w round calls) (w.tool round call) answered
      (others (w.working round call) a)

abbrev pub has_id : Text → List Text → Bool
has_id x [] = false
has_id x (y ∷ ys) = text_eq y x || has_id x ys

-- The `finally` of a round.
unfoldable pub fill_unanswered : List ToolCallRequest → List Text → Agent → Agent
unfolding add_tool_result
fill_unanswered [] answered a = a
fill_unanswered (call ∷ calls) answered a =
    fill_unanswered calls answered
      (if has_id call.id answered then a else add_result call (codes "(interrupted)") a)

unfoldable pub tool_round : AgentConfig → World → ℕ → List ToolCallRequest → Agent → Agent × Exit
unfolding run_tools fill_unanswered add_assistant_turn
tool_round config w round calls a =
    let b = record a { conversation = add_assistant_turn [] false calls a.conversation } in
    let (c, answered, exit) = run_tools config w round calls [] b in
    (fill_unanswered calls answered c, exit)

-- What the `try` of a response leaves.
pub record Body : Type 0 where
  pub agent : Agent
  pub full_text : Text
  pub spoken_tokens : List Text
  pub exit : Exit

abbrev pub say : Voice → Text → List Text → List Text → Agent → Body
say v full_text tokens spoken a =
    let (b, spoken', exit) = speak v tokens spoken a in
    record { agent = b; full_text = full_text; spoken_tokens = spoken'; exit = exit }

abbrev pub stopped : Exit → Agent → Body
stopped exit a = record { agent = a; full_text = []; spoken_tokens = []; exit = exit }

abbrev pub reply : World → List Text → Agent → Body
reply w tokens a =
    if is_empty (strip (join tokens))
    then record { agent = a; full_text = join tokens; spoken_tokens = []; exit = done }
    else say w.voice (join tokens) tokens [] a

abbrev pub after_round : (Agent → Body) → Agent × Exit → Body
after_round next (a, done) = next a
after_round next (a, exit) = stopped exit a

abbrev pub stream_of : World → ℕ → Retry.Run LlmEvent Text
stream_of w round =
    retry_stream (w.llm round) (w.sleep_cancelled round) w.stream_max_retries w.stream_retry_backoff

-- A stream that failed or was cancelled leaves what it charged; a finished one is answered.
abbrev pub after_stream {ℓ} : {E : Type ℓ} → Retry.Ending E → Body → Agent → Body
after_stream Retry.finished next a = next
after_stream (Retry.failed e) next a = stopped raised a
after_stream Retry.cancelled next a = stopped cancelled a

abbrev pub use_tools : AgentConfig → List ToolCallRequest → Bool
use_tools config calls = not (is_empty calls) && config.has_tools

-- The loop of the rounds, with the number of tool rounds that may still follow.
unfoldable pub rounds : AgentConfig → World → ℕ → ℕ → Agent → Body
unfolding exhausted consume tool_round speak retry_stream
rounds config w zero round a =
    let run = stream_of w round in
    let (b, tokens, calls) = consume run.yielded [] [] (others (w.streaming round) a) in
    if exhausted a.budget
    then say w.voice config.budget_exceeded_message (config.budget_exceeded_message ∷ []) []
        (record a { budget_announced = true })
    else after_stream run.ending
        (if use_tools config calls
          then say w.voice config.fallback_message (config.fallback_message ∷ []) [] b
          else reply w tokens b)
        b
rounds config w (suc left) round a =
    let run = stream_of w round in
    let (b, tokens, calls) = consume run.yielded [] [] (others (w.streaming round) a) in
    let more = after_round (rounds config w left (round + 1)) (tool_round config w round calls b) in
    if exhausted a.budget
    then say w.voice config.budget_exceeded_message (config.budget_exceeded_message ∷ []) []
        (record a { budget_announced = true })
    else after_stream run.ending (if use_tools config calls then more else reply w tokens b) b

-- The body of the `try`, behind the test of the budget.
unfoldable pub respond : AgentConfig → World → Agent → Body
unfolding rounds charge_history
respond config w a =
    rounds config w config.max_tool_rounds 0
      (charge_history a.conversation.messages (charge (w.prompt a) a))

-- `_speak_fallback`: an exception of the apology is dropped, a cancellation is not.
abbrev pub after_apology : Body → Agent × List Text × Exit → Body × Bool
after_apology r (a, spoken, cancelled) = (record r { agent = a; spoken_tokens = spoken }, true)
after_apology r (a, spoken, exit) = (
  record { agent = a; full_text = strip (join spoken); spoken_tokens = spoken; exit = done },
  false,
)

-- The handlers of the exceptions. The flag says that a CancelledError goes on behind the `finally`.
abbrev pub on_exit : AgentConfig → World → Exit → Body → Body × Bool
on_exit config w done r = (r, false)
on_exit config w cancelled r = (r, false)
on_exit config w raised r =
    after_apology r (speak w.fallback_voice (config.fallback_message ∷ []) r.spoken_tokens r.agent)

unfoldable pub handle_exit : AgentConfig → World → Body → Body × Bool
unfolding speak
handle_exit config w r = on_exit config w r.exit r

-- What the history keeps of the response.
abbrev pub remember : Bool → Text → List Text → Conversation → Conversation
remember true full_text spoken c =
    if is_empty (strip (join spoken)) then c else add_assistant_turn (strip (join spoken)) true [] c
remember false full_text spoken c =
    if is_empty full_text then c else add_assistant_turn full_text false [] c

abbrev pub hang_up_if_ending : Agent → Agent
hang_up_if_ending a = if a.ending then record a { hangups = a.hangups + 1 } else a

-- The outer `finally` up to its hangup.
unfoldable pub finish_response : ℕ → Body → Agent
unfolding was_interrupted add_assistant_turn record_milestone
finish_response generation r =
    let a = r.agent in
    let (handler, interrupted) = was_interrupted a.barge_in in
    record_milestone (response_teardown_completed generation) (record a {
      barge_in = record handler { agent_is_speaking = false };
      conversation = remember interrupted r.full_text r.spoken_tokens a.conversation;
    })

-- The outer `finally`, with whether the task ends in a CancelledError.
unfoldable pub teardown_response : World → ℕ → Body × Bool → Agent × Bool
unfolding finish_response
teardown_response w generation (r, escapes) =
    let b = finish_response generation r in
    (hang_up_if_ending b, escapes || (b.ending && w.hangup_cancelled))

unfoldable pub generate_response : AgentConfig → World → ℕ → Agent → Agent × Bool
unfolding exhausted respond speak handle_exit teardown_response record_milestone
generate_response config w generation a =
    let announced = record a { budget_announced = true } in
    let text = config.budget_exceeded_message in
    if exhausted a.budget
    then (if a.budget_announced
        then (record_milestone (skipped_budget_exhausted generation) a, false)
        else teardown_response w generation
            (handle_exit config w (say w.voice text (text ∷ []) [] announced)))
    else teardown_response w generation (handle_exit config w (respond config w a))

-- The `finally` of `_greet` up to its hangup.
unfoldable pub finish_greeting : ℕ → Agent → Agent
unfolding was_interrupted record_milestone
finish_greeting generation a =
    let (handler, interrupted) = was_interrupted a.barge_in in
    record_milestone (response_teardown_completed generation)
      (record a { barge_in = record handler { agent_is_speaking = false } })

-- `_greet` lets an exception of the speech pass, which the run loop suppresses.
unfoldable pub greet : AgentConfig → World → ℕ → Agent → Agent × Bool
unfolding speak finish_greeting
greet config w generation a =
    let b = finish_greeting generation (speak w.voice (config.greeting ∷ []) [] a).0 in
    (hang_up_if_ending b, b.ending && w.hangup_cancelled)
