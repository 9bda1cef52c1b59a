-- ===== src/Agent/Trigger.antt =====
-- The run loop of onset/agent.py: what an event does to the playback and to the response before it
-- reaches the turn manager.
use telnyx_onset.Prelude.{
  ℕ, ◌+◌, ◌≡◌, refl, sym, ap, ◌∙◌, subst, ◌⊎◌, inl, inr, Bool, true, false, not, ◌&&◌, ◌||◌, Option,
  none, some, [], ◌∷◌, arith, if◌then◌else◌, Bool-cases, Text,
}
use telnyx_onset.Types.{
  BenchmarkMode, SttEventType, onset_fd_vad, onset_fd_transcript, onset_half_duplex, production,
  SttEvent, transcript_interim, transcript_final, utterance_end, speech_started,
}
use telnyx_onset.Limits.{TokenBudget}
use telnyx_onset.Conversation.{Conversation}
use telnyx_onset.BargeIn.{handle_barge_in}
use telnyx_onset.Media
use telnyx_onset.Media.{MediaStream, clear_message, Sent}
use telnyx_onset.Benchmark.{
  Source, interruption_source, interruption_requested, Milestone, ineligible_trigger_observed,
  half_duplex_gate,
}
use telnyx_onset.Agent.{
  Agent, Task, is_some, record_milestone, record_flush, cancel_task, request_response_cancellation,
  requested,
}
use telnyx_onset.Agent.Loop.{Env, trigger, trigger_of, on_signal, interrupt, is_trigger_signal}

-- The parts of the agent that an interruption could touch, and those that the turns depend on.
pub record SameCall (a b : Agent) : Type 0 where
  pub media : b.media ≡ a.media
  pub barge_in : b.barge_in ≡ a.barge_in
  pub response_task : b.response_task ≡ a.response_task
  pub cancellation_requested : b.cancellation_requested ≡ a.cancellation_requested

-- The marks that an interruption leaves.
pub record Interrupted (a b : Agent) : Type 0 where
  pub epoch : b.media.epoch ≡ a.media.epoch + 1
  pub queue : b.media.out ≡ []
  pub wire :
      b.media.wire ≡ record { epoch = a.media.epoch + 1; message = clear_message } ∷ a.media.wire
  pub silent : b.barge_in.agent_is_speaking ≡ false
  pub marked : b.barge_in.barged_in ≡ true

-- The part of the state that only the response task and the end of a caller turn write.
pub record Own : Type 0 where
  pub conversation : Conversation
  pub budget : TokenBudget
  pub budget_announced : Bool
  pub current_node : Option Text
  pub ending : Bool

abbrev pub own_of : Agent → Own
own_of a = record {
  conversation = a.conversation;
  budget = a.budget;
  budget_announced = a.budget_announced;
  current_node = a.current_node;
  ending = a.ending;
}

-- What an event does not touch before the turn manager sees it.
pub record SameTurn (a b : Agent) : Type 0 where
  pub turn_manager : b.turn_manager ≡ a.turn_manager
  pub conversation : b.conversation ≡ a.conversation
  pub events : b.events ≡ a.events
  pub response_gen : b.response_gen ≡ a.response_gen
  pub mode : b.mode ≡ a.mode
  pub live : b.current_response_gen ≡ a.current_response_gen
  pub own : own_of b ≡ own_of a

abbrev pub interrupting : SttEvent → Agent → Bool
interrupting event a =
    is_some (interruption_source a.mode event.type event.transcript)
    && (a.barge_in.agent_is_speaking && not a.half_duplex)

same : (a : Agent) → SameCall a a
same a = record {
  media = refl;
  barge_in = refl;
  response_task = refl;
  cancellation_requested = refl;
}

same_turn : (a : Agent) → SameTurn a a
same_turn a = record {
  turn_manager = refl;
  conversation = refl;
  events = refl;
  response_gen = refl;
  mode = refl;
  live = refl;
  own = refl;
}

pub cancel_task-SameTurn :
    (task : Option Task) (g : Option ℕ) (a : Agent) → SameTurn a (cancel_task task g a)
unfolding cancel_task record_milestone
cancel_task-SameTurn none g a = same_turn a
cancel_task-SameTurn (some task) g a =
    elim (Bool-cases (requested g a.cancellation_requested || task.done)) [
      | inl e ↦ record {
        turn_manager = ground arith;
        conversation = ground arith;
        events = ground arith;
        response_gen = ground arith;
        mode = ground arith;
        live = ground arith;
        own = ground arith;
      }
      | inr e ↦ record {
        turn_manager = ground arith;
        conversation = ground arith;
        events = ground arith;
        response_gen = ground arith;
        mode = ground arith;
        live = ground arith;
        own = ground arith;
      }
    ]

pub cancel_task-media :
    (task : Option Task) (g : Option ℕ) (a : Agent) → (cancel_task task g a).media ≡ a.media
unfolding cancel_task record_milestone
cancel_task-media none g a = refl
cancel_task-media (some task) g a = ground arith

pub cancel_task-barge_in :
    (task : Option Task) (g : Option ℕ) (a : Agent) → (cancel_task task g a).barge_in ≡ a.barge_in
unfolding cancel_task record_milestone
cancel_task-barge_in none g a = refl
cancel_task-barge_in (some task) g a = ground arith

-- The state in which the cancellation is requested.
unfoldable pub before_cancel : Env → Source → Agent → Agent
unfolding record_milestone record_flush handle_barge_in
before_cancel env source a =
    record_flush a.current_response_gen (Media.flush env.flush_times env.flush_error a.media).1
      (record (record_milestone (interruption_requested a.current_response_gen source) a) {
        barge_in = record { barged_in = true; agent_is_speaking = false };
        media = (Media.flush env.flush_times env.flush_error a.media).0;
      })

pub interrupt_eq :
    (env : Env) (source : Source) (a : Agent)
    → a.barge_in.agent_is_speaking ≡ true
    → interrupt env source a
      ≡ request_response_cancellation a.current_response_gen (before_cancel env source a)
unfolding interrupt before_cancel handle_barge_in record_milestone record_flush
interrupt_eq env source a h = ground arith

interrupt-Interrupted :
    (env : Env) (source : Source) (a : Agent)
    → a.barge_in.agent_is_speaking ≡ true
    → Interrupted a (interrupt env source a)
unfolding before_cancel request_response_cancellation record_milestone record_flush Media.flush
    Media.drain Media.send
interrupt-Interrupted env source a h =
    let b = before_cancel env source a in
    let media : (interrupt env source a).media ≡ b.media =
      ap (λ x. x.media) (interrupt_eq env source a h)
      ∙ cancel_task-media b.response_task a.current_response_gen b in
    let barge_in : (interrupt env source a).barge_in ≡ b.barge_in =
      ap (λ x. x.barge_in) (interrupt_eq env source a h)
      ∙ cancel_task-barge_in b.response_task a.current_response_gen b in
    record {
      epoch = ap (λ m. m.epoch) media;
      queue = ap (λ m. m.out) media;
      wire = ap (λ m. m.wire) media;
      silent = ap (λ x. x.agent_is_speaking) barge_in;
      marked = ap (λ x. x.barged_in) barge_in;
    }

interrupt-SameTurn :
    (env : Env) (source : Source) (a : Agent)
    → a.barge_in.agent_is_speaking ≡ true
    → SameTurn a (interrupt env source a)
unfolding before_cancel request_response_cancellation record_milestone record_flush
interrupt-SameTurn env source a h =
    let b = before_cancel env source a in
    let t = cancel_task-SameTurn b.response_task a.current_response_gen b in
    let e = interrupt_eq env source a h in
    record {
      turn_manager = ap (λ x. x.turn_manager) e ∙ t.turn_manager;
      conversation = ap (λ x. x.conversation) e ∙ t.conversation;
      events = ap (λ x. x.events) e ∙ t.events;
      response_gen = ap (λ x. x.response_gen) e ∙ t.response_gen;
      mode = ap (λ x. x.mode) e ∙ t.mode;
      live = ap (λ x. x.current_response_gen) e ∙ t.live;
      own = ap own_of e ∙ t.own;
    }

signal :
    (mode : BenchmarkMode) (type : SttEventType) (text : Text) (source : Source)
    → interruption_source mode type text ≡ some source
    → is_trigger_signal type ≡ true
unfolding interruption_source
signal mode transcript_interim text source e = refl
signal mode transcript_final text source e = refl
signal mode speech_started text source e = refl
signal onset_fd_vad utterance_end text source e = ground arith
signal onset_fd_transcript utterance_end text source e = ground arith
signal onset_half_duplex utterance_end text source e = ground arith
signal production utterance_end text source e = ground arith

logged :
    (c : Bool) (m : Milestone) (a : Agent)
    → SameCall a (if c then record_milestone m a else a)
      × SameTurn a (if c then record_milestone m a else a)
unfolding record_milestone
logged true m a = (
  record { media = refl; barge_in = refl; response_task = refl; cancellation_requested = refl },
  record {
    turn_manager = refl;
    conversation = refl;
    events = refl;
    response_gen = refl;
    mode = refl;
    live = refl;
    own = refl;
  },
)
logged false m a = (same a, same_turn a)

unsourced :
    (env : Env) (type : SttEventType) (a : Agent)
    → SameCall a (trigger_of env type none a) × SameTurn a (trigger_of env type none a)
unfolding trigger_of on_signal record_milestone
unsourced env type a =
    logged (is_trigger_signal type && a.barge_in.agent_is_speaking && not a.half_duplex)
      (ineligible_trigger_observed a.current_response_gen type) a

gated :
    (env : Env) (type : SttEventType) (source : Source) (a : Agent)
    → (a.barge_in.agent_is_speaking && not a.half_duplex) ≡ false
    → SameCall a (trigger_of env type (some source) a)
      × SameTurn a (trigger_of env type (some source) a)
unfolding trigger_of record_milestone
gated env type source a h =
    let g = half_duplex_gate a.current_response_gen type in
    let e : trigger_of env type (some source) a
        ≡ (if a.barge_in.agent_is_speaking then record_milestone g a else a) =
      ground arith in
    subst (λ b. SameCall a b × SameTurn a b) (sym e) (logged a.barge_in.agent_is_speaking g a)

live_trigger :
    (env : Env) (type : SttEventType) (source : Source) (a : Agent)
    → is_trigger_signal type ≡ true
    → (a.barge_in.agent_is_speaking && not a.half_duplex) ≡ true
    → trigger_of env type (some source) a ≡ interrupt env source a
unfolding trigger_of on_signal
live_trigger env type source a s h =
    let silent = (interrupt-Interrupted env source a (ground arith)).silent in ground arith

trigger_of_cases :
    (env : Env) (type : SttEventType) (source : Option Source) (a : Agent)
    → (is_some source ≡ true → is_trigger_signal type ≡ true)
    → let speaks = a.barge_in.agent_is_speaking && not a.half_duplex in
      let b = trigger_of env type source a in
      SameTurn a b
      × (((is_some source && speaks ≡ true) × Interrupted a b)
          ⊎ ((is_some source && speaks ≡ false) × SameCall a b))
trigger_of_cases env type none a h = let (s, t) = unsourced env type a in (t, inr (refl, s))
trigger_of_cases env type (some source) a h =
    elim (Bool-cases (a.barge_in.agent_is_speaking && not a.half_duplex)) [
      | inl e ↦
          let q = live_trigger env type source a (h refl) e in
          let s : a.barge_in.agent_is_speaking ≡ true = ground arith in
          (
            subst (SameTurn a) (sym q) (interrupt-SameTurn env source a s),
            inl (e, subst (Interrupted a) (sym q) (interrupt-Interrupted env source a s)),
          )
      | inr e ↦ let (s, t) = gated env type source a e in (t, inr (e, s))
    ]

trigger_of-ways :
    (env : Env) (type : SttEventType) (source : Option Source) (a : Agent)
    → (is_some source ≡ true → is_trigger_signal type ≡ true)
    → ((x : Source) × (a.barge_in.agent_is_speaking ≡ true)
        × (trigger_of env type source a ≡ interrupt env x a))
      ⊎ (SameCall a (trigger_of env type source a) × SameTurn a (trigger_of env type source a))
trigger_of-ways env type none a h = inr (unsourced env type a)
trigger_of-ways env type (some x) a h =
    elim (Bool-cases (a.barge_in.agent_is_speaking && not a.half_duplex)) [
      | inl e ↦ inl (x, ground arith, live_trigger env type x a (h refl) e)
      | inr e ↦ inr (gated env type x a e)
    ]

some_signal :
    (type : SttEventType) (source : Option Source)
    → ((x : Source) → source ≡ some x → is_trigger_signal type ≡ true)
    → is_some source ≡ true
    → is_trigger_signal type ≡ true
some_signal type none h e = ground arith
some_signal type (some x) h e = h x refl

-- An event leaves to the turn manager what it found: the turn under assembly, the conversation, the
-- queue of events and the generations. It interrupts exactly if it has a source, the agent speaks and
-- the call is full duplex: then the media epoch is one higher, the playback queue is empty, a clear
-- frame is the last message sent, and the agent no longer counts as speaking. Otherwise the playback,
-- the speaking flag, the response task and the requested cancellations are as before.
pub trigger_lem :
    (env : Env) (event : SttEvent) (a : Agent)
    → let b = trigger env event a in
      SameTurn a b
      × (((interrupting event a ≡ true) × Interrupted a b)
          ⊎ ((interrupting event a ≡ false) × SameCall a b))
unfolding trigger
trigger_lem env event a =
    trigger_of_cases env event.type (interruption_source a.mode event.type event.transcript) a (
      some_signal event.type (interruption_source a.mode event.type event.transcript)
        (signal a.mode event.type event.transcript))

pub trigger-ways :
    (env : Env) (event : SttEvent) (a : Agent)
    → ((x : Source) × (a.barge_in.agent_is_speaking ≡ true)
        × (trigger env event a ≡ interrupt env x a))
      ⊎ (SameCall a (trigger env event a) × SameTurn a (trigger env event a))
unfolding trigger
trigger-ways env event a =
    trigger_of-ways env event.type (interruption_source a.mode event.type event.transcript) a (
      some_signal event.type (interruption_source a.mode event.type event.transcript)
        (signal a.mode event.type event.transcript))
