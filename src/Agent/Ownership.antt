-- ===== src/Agent/Ownership.antt =====
-- The generations of onset/agent.py: which response may be cancelled, and how often.
use telnyx_onset.Prelude.{
  ℕ, ◌+◌, ◌≤◌, ◌≡◌, refl, sym, ap, subst, ◌∙◌, inl, inr, Bool, true, false, ◌||◌, ◌==◌, Option,
  none, some, List, [], ◌∷◌, arith, if◌then◌else◌, ==_refl, Bool-cases, is_empty, All, All-map,
  Text,
}
use telnyx_onset.Types.{SttEvent}
use telnyx_onset.Benchmark.{Source, caller_turn_completed, response_cancellation_requested}
use telnyx_onset.Agent.{
  Agent, Task, Item, stt_event, speak_ended, hangup, member, record_milestone, cancel_task,
  request_response_cancellation, on_speak_ended, allocate_response_generation,
}
use telnyx_onset.Agent.Trigger.{trigger-ways, interrupt_eq, before_cancel}
use telnyx_onset.Turn.{handle_event}
use telnyx_onset.Agent.Loop.{
  after_wait, Env, Outcome, goes_on, hung_up, cancelled, start_response, await_superseded,
  supersede, complete_turn, on_stt_event, handle_item, trigger, interrupt,
}

-- The response task is the one of the live generation, the newest one, and `cancel` was called on it
-- once if its cancellation was requested, and not at all otherwise.
abbrev pub Owner : Option Task → Option ℕ → ℕ → List ℕ → Type 0
Owner none live newest gs = Unit
Owner (some t) live newest gs =
    (live ≡ some t.generation)
    × (t.generation ≡ newest)
    × (t.cancels ≡ (if member t.generation gs then 1 else 0))

-- No cancellation was requested for a generation that is yet to come, and the task is owned.
pub record Owned (a : Agent) : Type 0 where
  pub past : All (λ g. g ≤ a.response_gen) a.cancellation_requested
  pub owner : Owner a.response_task a.current_response_gen a.response_gen a.cancellation_requested

member-past : (n : ℕ) (gs : List ℕ) → All (λ g. g ≤ n) gs → member (n + 1) gs ≡ false
member-past n [] h = refl
member-past n (g ∷ gs) (p, h) = let rest = member-past n gs h in ground arith

member-head : (g : ℕ) (gs : List ℕ) → member g (g ∷ gs) ≡ true
member-head g gs = ap (λ b. b || member g gs) (==_refl g)

abbrev cancelled_state : Task → Agent → Agent
cancelled_state t a =
    record_milestone (response_cancellation_requested (some t.generation)) (record a {
      cancellation_requested = t.generation ∷ a.cancellation_requested;
      response_task = some (record t { cancels = t.cancels + 1 });
    })

cancelled_state-Owned :
    (a : Agent) (t : Task)
    → Owned a
    → Owner (some t) a.current_response_gen a.response_gen a.cancellation_requested
    → member t.generation a.cancellation_requested ≡ false
    → Owned (cancelled_state t a)
unfolding record_milestone
cancelled_state-Owned a t h (live, newest, cancels) e = record {
  past = (omega (arith, newest), h.past);
  owner = (live, newest, let f = member-head t.generation a.cancellation_requested in ground arith);
}

cancel_live-Owned :
    (a : Agent) (t : Task)
    → Owned a
    → Owner (some t) a.current_response_gen a.response_gen a.cancellation_requested
    → Owned (cancel_task (some t) (some t.generation) a)
unfolding cancel_task
cancel_live-Owned a t h o =
    elim (Bool-cases (member t.generation a.cancellation_requested || t.done)) [
      | inl e ↦
          let q : cancel_task (some t) (some t.generation) a ≡ a = ground arith in
          subst Owned (sym q) h
      | inr e ↦
          let m : member t.generation a.cancellation_requested ≡ false = ground arith in
          let q : cancel_task (some t) (some t.generation) a ≡ cancelled_state t a = ground arith in
          subst Owned (sym q) (cancelled_state-Owned a t h o m)
    ]

cancel_task-Owned :
    (a : Agent) (task : Option Task)
    → a.response_task ≡ task
    → Owned a
    → Owned (cancel_task task a.current_response_gen a)
unfolding cancel_task
cancel_task-Owned a none e h = h
cancel_task-Owned a (some t) e h =
    let o : Owner (some t) a.current_response_gen a.response_gen a.cancellation_requested =
      subst (λ x. Owner x a.current_response_gen a.response_gen a.cancellation_requested) e
        h.owner in
    subst (λ g. Owned (cancel_task (some t) g a)) (sym o.0) (cancel_live-Owned a t h o)

pub request-Owned :
    (a : Agent) → Owned a → Owned (request_response_cancellation a.current_response_gen a)
unfolding request_response_cancellation
request-Owned a h = cancel_task-Owned a a.response_task refl h

-- After a cancellation request `cancel` was called on a live task exactly once.
pub cancelled_once :
    (a : Agent) (t : Task)
    → a.response_task ≡ some t
    → t.done ≡ false
    → Owned a
    → (request_response_cancellation a.current_response_gen a).response_task
      ≡ some (record t { cancels = 1 })
unfolding request_response_cancellation cancel_task record_milestone
cancelled_once a t e d h =
    let o : Owner (some t) a.current_response_gen a.response_gen a.cancellation_requested =
      subst (λ x. Owner x a.current_response_gen a.response_gen a.cancellation_requested) e
        h.owner in
    subst
      (λ x.
        (cancel_task x a.current_response_gen a).response_task ≡ some (record t { cancels = 1 }))
      (sym e)
      (subst (λ g. (cancel_task (some t) g a).response_task ≡ some (record t { cancels = 1 }))
        (sym o.0)
        (elim (Bool-cases (member t.generation a.cancellation_requested)) [
          | inl q ↦
              let c : t.cancels ≡ 1 = ground arith in
              let f : cancel_task (some t) (some t.generation) a ≡ a = ground arith in
              ap (λ b. b.response_task) f ∙ e ∙ ap (λ n. some (record t { cancels = n })) c
          | inr q ↦
              let c : t.cancels + 1 ≡ 1 = ground arith in
              let f : cancel_task (some t) (some t.generation) a ≡ cancelled_state t a =
                ground arith in
              ap (λ b. b.response_task) f ∙ ap (λ n. some (record t { cancels = n })) c
        ]))

start_response-Owned :
    (text : Text) (id : Option ℕ) (a : Agent) → Owned a → Owned (start_response text id a)
unfolding start_response allocate_response_generation record_milestone
start_response-Owned text id a h = record {
  past =
      All-map (λ g. g ≤ a.response_gen) (λ g. g ≤ a.response_gen + 1) a.cancellation_requested
        (λ g p. omega arith) h.past;
  owner = (
    refl,
    refl,
    let m = member-past a.response_gen a.cancellation_requested h.past in ground arith,
  );
}

-- What an ownership depends on.
pub keep-Owned :
    (a b : Agent)
    → b.response_task ≡ a.response_task
    → b.current_response_gen ≡ a.current_response_gen
    → b.response_gen ≡ a.response_gen
    → b.cancellation_requested ≡ a.cancellation_requested
    → Owned a
    → Owned b
keep-Owned a b t l n g h = record {
  past =
      subst (λ gs. All (λ x. x ≤ b.response_gen) gs) (sym g)
        (subst (λ m. All (λ x. x ≤ m) a.cancellation_requested) (sym n) h.past);
  owner =
      subst (λ x. Owner x b.current_response_gen b.response_gen b.cancellation_requested) (sym t)
        (subst (λ x. Owner a.response_task x b.response_gen b.cancellation_requested) (sym l)
          (subst (λ x. Owner a.response_task a.current_response_gen x b.cancellation_requested)
            (sym n)
            (subst (λ x. Owner a.response_task a.current_response_gen a.response_gen x) (sym g)
              h.owner)));
}

interrupt-Owned :
    (env : Env) (x : Source) (a : Agent)
    → a.barge_in.agent_is_speaking ≡ true
    → Owned a
    → Owned (interrupt env x a)
unfolding before_cancel
interrupt-Owned env x a s h = subst Owned (sym (interrupt_eq env x a s)) (
    request-Owned (before_cancel env x a)
      (keep-Owned a (before_cancel env x a) refl refl refl refl h))

pub trigger-Owned :
    (env : Env) (event : SttEvent) (a : Agent) → Owned a → Owned (trigger env event a)
trigger-Owned env event a h = elim (trigger-ways env event a) [
  | inl (x, s, e) ↦ subst Owned (sym e) (interrupt-Owned env x a s h)
  | inr (c, t) ↦
      keep-Owned a (trigger env event a) c.response_task t.live t.response_gen
        c.cancellation_requested h
]

-- The agent that an outcome leaves.
abbrev pub left : Outcome → Agent
left (goes_on a) = a
left (hung_up a) = a
left (cancelled a) = a

abbrev pub Settles : Env → Type 0
Settles env = (a : Agent) → Owned a → Owned (env.settle a).0

-- What the awaited task becomes, as far as the ownership does not read it.
retask-Owned :
    (a : Agent) (t : Task) (started done : Bool)
    → a.response_task ≡ some t
    → Owned a
    → Owned (record a { response_task = some (record t { started = started; done = done }) })
retask-Owned a t started done e h = record {
  past = h.past;
  owner =
      subst (λ x. Owner x a.current_response_gen a.response_gen a.cancellation_requested) e h.owner;
}

await-Owned :
    (env : Env)
    → Settles env
    → (task : Option Task) (a : Agent) → a.response_task ≡ task
    → Owned a
    → Owned (await_superseded env task a).0
unfolding await_superseded
await-Owned env s none a e h = h
await-Owned env s (some t) a e h = elim (Bool-cases (t.started || t.cancels == 0)) [
  | inl q ↦
      let b = record a { response_task = some (record t { started = true }) } in
      let f : await_superseded env (some t) a ≡ env.settle b = ground arith in
      subst (λ x. Owned x.0) (sym f) (s b (retask-Owned a t true t.done e h))
  | inr q ↦
      let b = record a { response_task = some (record t { done = true }) } in
      let f : await_superseded env (some t) a ≡ (b, true) = ground arith in
      subst (λ x. Owned x.0) (sym f) (retask-Owned a t t.started true e h)
]

after_wait-Owned :
    (text : Text) (id : Option ℕ) (x : Agent × Bool)
    → Owned x.0
    → Owned (left (after_wait text id x))
after_wait-Owned text id (a, true) h = h
after_wait-Owned text id (a, false) h = start_response-Owned text id a h

supersede-Owned :
    (env : Env)
    → Settles env
    → (text : Text) (id : Option ℕ) (task : Option Task) (a : Agent) → Owned a
    → Owned (left (supersede env text id task a))
unfolding supersede
supersede-Owned env s text id none a h = start_response-Owned text id a h
supersede-Owned env s text id (some t) a h = elim (Bool-cases t.done) [
  | inl e ↦
      let q : supersede env text id (some t) a ≡ goes_on (start_response text id a) =
        ground arith in
      subst (λ x. Owned (left x)) (sym q) (start_response-Owned text id a h)
  | inr e ↦
      let b = request_response_cancellation a.current_response_gen a in
      let q : supersede env text id (some t) a
          ≡ after_wait text id (await_superseded env b.response_task b) =
        ground arith in
      subst (λ x. Owned (left x)) (sym q)
        (after_wait-Owned text id (await_superseded env b.response_task b)
          (await-Owned env s b.response_task b refl (request-Owned a h)))
]

complete_turn-Owned :
    (env : Env)
    → Settles env
    → (turn : Option Text) (a : Agent) → Owned a
    → Owned (left (complete_turn env turn a))
unfolding complete_turn record_milestone
complete_turn-Owned env s none a h = h
complete_turn-Owned env s (some text) a h = elim (Bool-cases (is_empty text)) [
  | inl e ↦
      let q : complete_turn env (some text) a ≡ goes_on a = ground arith in
      subst (λ x. Owned (left x)) (sym q) h
  | inr e ↦
      let id = a.turn_manager.last_completed_turn_id in
      let b =
        record_milestone (caller_turn_completed id a.turn_manager.last_completed_source_event_count)
          a in
      let q : complete_turn env (some text) a ≡ supersede env text id b.response_task b =
        ground arith in
      subst (λ x. Owned (left x)) (sym q)
        (supersede-Owned env s text id b.response_task b (keep-Owned a b refl refl refl refl h))
]

on_stt_event-Owned :
    (env : Env)
    → Settles env
    → (event : SttEvent) (a : Agent) → Owned a
    → Owned (left (on_stt_event env event a))
unfolding on_stt_event
on_stt_event-Owned env s event a h =
    let b = trigger env event a in
    let (m, turn) = handle_event b.turn_manager env.now event in
    complete_turn-Owned env s turn (record b { turn_manager = m })
      (keep-Owned b (record b { turn_manager = m }) refl refl refl refl
        (trigger-Owned env event a h))

-- Whatever the item and however its handling ends: the response task stays that of the newest
-- generation, `cancel` was called on it once if its cancellation was requested and never otherwise, and
-- no generation to come is marked, if that holds before and awaiting a superseded response keeps it.
pub handle_item-Owned :
    (env : Env) (s : Settles env) (item : Item) (a : Agent)
    → Owned a
    → Owned (left (handle_item env item a))
unfolding handle_item on_speak_ended
handle_item-Owned env s hangup a h = h
handle_item-Owned env s (speak_ended g) a h =
    keep-Owned a (on_speak_ended g a) (ground arith) (ground arith) (ground arith) (ground arith) h
handle_item-Owned env s (stt_event event) a h = elim (Bool-cases a.ending) [
  | inl e ↦
      let q : handle_item env (stt_event event) a ≡ goes_on a = ground arith in
      subst (λ x. Owned (left x)) (sym q) h
  | inr e ↦
      let q : handle_item env (stt_event event) a ≡ on_stt_event env event a = ground arith in
      subst (λ x. Owned (left x)) (sym q) (on_stt_event-Owned env s event a h)
]
