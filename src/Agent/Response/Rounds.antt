-- ===== src/Agent/Response/Rounds.antt =====
-- The tool rounds of onset/agent.py and the history of the call.
use telnyx_onset.Prelude.{
  ℕ, ◌≤◌, ◌≡◌, refl, sym, ap, ◌∙◌, subst, inl, inr, Bool, true, false, ◌||◌, none, some, List, [],
  ◌∷◌, ◌++◌, arith, if◌then◌else◌, Bool-cases, Text, codes, text_eq, text_eq→eq, text_eq_refl,
}
use telnyx_onset.Types.{user, assistant, tool, ToolCallRequest}
use telnyx_onset.Conversation.{
  Conversation, trim, add_user_turn, add_assistant_turn, add_tool_result,
}
use telnyx_onset.Agent.{Agent}
use telnyx_onset.Agent.Trigger.{Own}
use telnyx_onset.Agent.Others.{Other, others, others-own}
use telnyx_onset.Agent.Response.{
  AgentConfig, World, ToolEnd, answers, raises, is_cancelled, Exit, has_id, handle_transition,
  get_current_node, charge, add_result, answered_by, after_tool, run_tools, fill_unanswered,
  tool_round,
}
use telnyx_onset.Agent.Response.History.{
  ids, without, awaiting, scan, scan_message, scan-append, start_scan, IsPaired, scan-trim_messages,
}

-- A history with room for two turns that awaits the results for the ids of `known` but for `gone`.
pub record Awaits (known gone : List Text) (c : Conversation) : Type 0 where
  pub turns : 2 ≤ c.max_turns
  pub scanned : scan c.messages start_scan ≡ awaiting (without known gone) known

-- A history with nothing open.
pub record IsSettled (c : Conversation) : Type 0 where
  pub turns : 2 ≤ c.max_turns
  pub paired : IsPaired c.messages

abbrev pub Includes : List Text → List Text → Type 0
Includes xs ys = (x : Text) → has_id x xs ≡ true → has_id x ys ≡ true

without-step :
    (x id : Text) (gone : List Text) (b c : Bool) (xs ys : List Text)
    → text_eq id x ≡ b
    → has_id x gone ≡ c
    → without xs (id ∷ []) ≡ ys
    → without ((if c then [] else x ∷ []) ++ xs) (id ∷ []) ≡ (if b || c then [] else x ∷ []) ++ ys
without-step x id gone true true xs ys p q r = r
without-step x id gone false true xs ys p q r = r
without-step x id gone true false xs ys p q r = rw p r
without-step x id gone false false xs ys p q r = rw p (ap (◌∷◌ x) r)

without-without :
    (known gone : List Text) (id : Text)
    → without (without known gone) (id ∷ []) ≡ without known (id ∷ gone)
without-without [] gone id = refl
without-without (x ∷ xs) gone id =
    without-step x id gone (text_eq id x) (has_id x gone) (without xs gone) (without xs (id ∷ gone))
      refl refl (without-without xs gone id)

without-all : (known gone : List Text) → Includes known gone → without known gone ≡ []
without-all [] gone h = refl
without-all (x ∷ xs) gone h =
    let e : has_id x gone ≡ true = h x (ap (λ b. b || has_id x xs) (text_eq_refl x)) in
    rw e (
      without-all xs gone
        (λ y p. h y (let q : text_eq x y || has_id y xs ≡ true = ground arith in q)))

without-nil : (known : List Text) → without known [] ≡ known
without-nil [] = refl
without-nil (x ∷ xs) = ap (◌∷◌ x) (without-nil xs)

result-Awaits :
    (call : ToolCallRequest) (result : Text) (known gone : List Text) (c : Conversation)
    → has_id call.id known ≡ true
    → Awaits known gone c
    → Awaits known (call.id ∷ gone) (add_tool_result call.id result c)
unfolding add_tool_result
result-Awaits call result known gone c k h = record {
  turns = h.turns;
  scanned =
      scan-append c.messages _ start_scan
      ∙ ap (λ s. scan_message tool [] (some call.id) s) h.scanned
      ∙ rw k (ap (λ l. awaiting l known) (without-without known gone call.id));
}

conversation-handle_transition :
    (config : AgentConfig) (name : Text) (a : Agent)
    → (handle_transition config name a).conversation ≡ a.conversation
unfolding handle_transition get_current_node
conversation-handle_transition config name a = ground arith

conversation-others : (os : List Other) (a : Agent) → (others os a).conversation ≡ a.conversation
conversation-others os a = ap (λ (o : Own). o.conversation) (others-own os a)

answered_by-conversation :
    (config : AgentConfig) (call : ToolCallRequest) (result : Text) (ok : Bool) (a : Agent)
    → (answered_by config call result ok a).conversation
      ≡ add_tool_result call.id result a.conversation
answered_by-conversation config call result true a =
    conversation-handle_transition config call.name (charge result (add_result call result a))
answered_by-conversation config call result false a = refl

abbrev AwaitsResult : List Text → Agent × List Text × Exit → Type 0
AwaitsResult known (a, gone, exit) = Awaits known gone a.conversation

after_tool-Awaits :
    (config : AgentConfig) (known : List Text) (call : ToolCallRequest)
    (next : List Text → Agent → Agent × List Text × Exit) (end : ToolEnd) (gone : List Text)
    (a : Agent)
    → ((gone' : List Text) (b : Agent)
        → Awaits known gone' b.conversation
        → AwaitsResult known (next gone' b))
    → has_id call.id known ≡ true
    → Awaits known gone a.conversation
    → AwaitsResult known (after_tool config call next end gone a)
after_tool-Awaits config known call next (answers result ok) gone a n k h =
    n (call.id ∷ gone) (answered_by config call result ok a) (
      subst (Awaits known (call.id ∷ gone)) (sym (answered_by-conversation config call result ok a))
        (result-Awaits call result known gone a.conversation k h))
after_tool-Awaits config known call next raises gone a n k h = h
after_tool-Awaits config known call next is_cancelled gone a n k h = h

head-has_id : (x : Text) (xs : List Text) → has_id x (x ∷ xs) ≡ true
head-has_id x xs = ap (λ b. b || has_id x xs) (text_eq_refl x)

tail-has_id : (x y : Text) (xs : List Text) → has_id x xs ≡ true → has_id x (y ∷ xs) ≡ true
tail-has_id x y xs h = ground arith

-- The loop answers some of the calls, and says which.
run_tools-Awaits :
    (config : AgentConfig) (w : World) (round : ℕ) (known : List Text)
    (calls : List ToolCallRequest) (gone : List Text) (a : Agent)
    → Includes (ids calls) known
    → Awaits known gone a.conversation
    → AwaitsResult known (run_tools config w round calls gone a)
unfolding run_tools
run_tools-Awaits config w round known [] gone a k h = h
run_tools-Awaits config w round known (call ∷ calls) gone a k h =
    after_tool-Awaits config known call (run_tools config w round calls) (w.tool round call) gone
      (others (w.working round call) a)
      (λ gone' b q.
        run_tools-Awaits config w round known calls gone' b
          (λ x p. k x (tail-has_id x call.id (ids calls) p)) q)
      (k call.id (head-has_id call.id (ids calls)))
      (subst (Awaits known gone) (sym (conversation-others (w.working round call) a)) h)

-- What the `finally` leaves answered: what was so before, and all calls of the round.
record Filled (known gone : List Text) (calls : List ToolCallRequest) (c : Conversation)
    : Type 0 where
  now : List Text
  awaits : Awaits known now c
  keeps : Includes gone now
  covers : Includes (ids calls) now

cons-Filled :
    (known gone gone' : List Text) (call : ToolCallRequest) (calls : List ToolCallRequest)
    (c : Conversation)
    → Includes gone gone'
    → has_id call.id gone' ≡ true
    → Filled known gone' calls c
    → Filled known gone (call ∷ calls) c
cons-Filled known gone gone' call calls c i k f = record {
  now = f.now;
  awaits = f.awaits;
  keeps = λ x p. f.keeps x (i x p);
  covers = λ x p. elim (Bool-cases (text_eq call.id x)) [
    | inl e ↦ subst (λ y. has_id y f.now ≡ true) (text_eq→eq call.id x e) (f.keeps call.id k)
    | inr e ↦ f.covers x (subst (λ b. b || has_id x (ids calls) ≡ true) e p)
  ];
}

fill_unanswered-Filled :
    (known answered gone : List Text) (calls : List ToolCallRequest) (a : Agent)
    → Includes (ids calls) known
    → Includes answered gone
    → Awaits known gone a.conversation
    → Filled known gone calls (fill_unanswered calls answered a).conversation
unfolding fill_unanswered
fill_unanswered-Filled known answered gone [] a k i h = record {
  now = gone;
  awaits = h;
  keeps = λ x p. p;
  covers = λ x p. cc;
}
fill_unanswered-Filled known answered gone (call ∷ calls) a k i h =
    let k' : Includes (ids calls) known = λ x p. k x (tail-has_id x call.id (ids calls) p) in
    let more : Includes gone (call.id ∷ gone) = λ x p. tail-has_id x call.id gone p in
    let b = add_result call (codes "(interrupted)") a in
    let P : Bool → Type 0 = λ t.
      Filled known gone (call ∷ calls)
        (fill_unanswered calls answered (if t then a else b)).conversation in
    elim (Bool-cases (has_id call.id answered)) [
      | inl e ↦ subst P (sym e) (
          cons-Filled known gone gone call calls _ (λ x p. p) (i call.id e)
            (fill_unanswered-Filled known answered gone calls a k' i h))
      | inr e ↦ subst P (sym e) (
          cons-Filled known gone (call.id ∷ gone) call calls _ more (head-has_id call.id gone) (
            fill_unanswered-Filled known answered (call.id ∷ gone) calls b k'
              (λ x p. more x (i x p))
              (result-Awaits call (codes "(interrupted)") known gone a.conversation
                (k call.id (head-has_id call.id (ids calls))) h)))
    ]

Awaits-IsSettled :
    (known gone : List Text) (c : Conversation)
    → Includes known gone
    → Awaits known gone c
    → IsSettled c
Awaits-IsSettled known gone c i h = record {
  turns = h.turns;
  paired = (known, h.scanned ∙ ap (λ l. awaiting l known) (without-all known gone i));
}

-- A message of the assistant opens a round, and the trimming behind it closes nothing.
assistant-Awaits :
    (text : Text) (cut : Bool) (calls : List ToolCallRequest) (c : Conversation)
    → IsSettled c
    → Awaits (ids calls) [] (add_assistant_turn text cut calls c)
unfolding add_assistant_turn trim
assistant-Awaits text cut calls c h = record {
  turns = h.turns;
  scanned =
      scan-trim_messages c.max_turns _ h.turns (
        scan-append c.messages _ start_scan
        ∙ ap (λ s. scan_message assistant calls none s) h.paired.1)
      ∙ ap (λ l. awaiting l (ids calls)) (sym (without-nil (ids calls)));
}

pub assistant-IsSettled :
    (text : Text) (cut : Bool) (c : Conversation)
    → IsSettled c
    → IsSettled (add_assistant_turn text cut [] c)
assistant-IsSettled text cut c h =
    Awaits-IsSettled [] [] (add_assistant_turn text cut [] c) (λ x p. p)
      (assistant-Awaits text cut [] c h)

pub user-IsSettled :
    (text : Text) (c : Conversation) → IsSettled c → IsSettled (add_user_turn text c)
unfolding add_user_turn trim
user-IsSettled text c h = record {
  turns = h.turns;
  paired = (
    [],
    scan-trim_messages c.max_turns _ h.turns
        (scan-append c.messages _ start_scan ∙ ap (λ s. scan_message user [] none s) h.paired.1),
  );
}

-- Whether the tools of a round answer, one of them raises, or a cancellation falls between or into them:
-- behind the round every tool call in the history has its result, and every result its call, if that
-- was so before and the history has room for two turns or more.
pub tool_round-IsSettled :
    (config : AgentConfig) (w : World) (round : ℕ) (calls : List ToolCallRequest) (a : Agent)
    → IsSettled a.conversation
    → IsSettled (tool_round config w round calls a).0.conversation
unfolding tool_round
tool_round-IsSettled config w round calls a h =
    let b = record a { conversation = add_assistant_turn [] false calls a.conversation } in
    let (c, gone, exit) = run_tools config w round calls [] b in
    let f =
      fill_unanswered-Filled (ids calls) gone gone calls c (λ x p. p) (λ x p. p)
        (run_tools-Awaits config w round (ids calls) calls [] b (λ x p. p)
          (assistant-Awaits [] false calls a.conversation h)) in
    Awaits-IsSettled (ids calls) f.now _ f.covers f.awaits
