-- ===== src/Agent/Supersede.antt =====
-- The end of a caller turn in onset/agent.py while an earlier response is still a task.
use telnyx_onset.Prelude.{
  ℕ, ◌≡◌, refl, ap, ◌∙◌, true, false, Option, none, some, [], arith, is_empty, Text,
}
use telnyx_onset.Types.{
  SttEvent, BenchmarkMode, utterance_end, onset_fd_vad, onset_fd_transcript, onset_half_duplex,
  production,
}
use telnyx_onset.Turn.{handle_event, TurnManager}
use telnyx_onset.Benchmark.{interruption_source, caller_turn_completed}
use telnyx_onset.Agent.{
  Agent, Task, stt_event, record_milestone, cancel_task, request_response_cancellation,
}
use telnyx_onset.Agent.Ownership.{Owned, keep-Owned, cancelled_once}
use telnyx_onset.Agent.Loop.{
  Env, cancelled, await_superseded, after_wait, supersede, complete_turn, on_stt_event, handle_item,
  trigger, trigger_of,
}

no_source : (mode : BenchmarkMode) → interruption_source mode utterance_end [] ≡ none
unfolding interruption_source
no_source onset_fd_vad = refl
no_source onset_fd_transcript = refl
no_source onset_half_duplex = refl
no_source production = refl

utterance_end-trigger :
    (env : Env) (a : Agent) → trigger env (record { type = utterance_end; transcript = [] }) a ≡ a
unfolding trigger trigger_of interruption_source
utterance_end-trigger env a =
    ap (λ source. trigger_of env utterance_end source a) (no_source a.mode) ∙ refl

cancel_task-keeps :
    (task : Option Task) (g : Option ℕ) (a : Agent)
    → ((cancel_task task g a).conversation ≡ a.conversation)
      × ((cancel_task task g a).degraded ≡ a.degraded)
unfolding cancel_task record_milestone
cancel_task-keeps none g a = (refl, refl)
cancel_task-keeps (some t) g a = (ground arith, ground arith)

supersede-unstarted :
    (env : Env) (text : Text) (id : Option ℕ) (t : Task) (a : Agent)
    → Owned a
    → a.response_task ≡ some t
    → t.started ≡ false
    → t.done ≡ false
    → (b : Agent) × (supersede env text id (some t) a ≡ cancelled b)
      × (b.response_task ≡ some (record t { done = true; cancels = 1 }))
      × (b.conversation ≡ a.conversation)
      × (b.degraded ≡ a.degraded)
unfolding supersede await_superseded request_response_cancellation
supersede-unstarted env text id t a o e s d =
    let c = request_response_cancellation a.current_response_gen a in
    let k = cancel_task-keeps a.response_task a.current_response_gen a in
    let b = record c { response_task = some (record t { done = true; cancels = 1 }) } in
    let q : supersede env text id (some t) a
        ≡ after_wait text id (await_superseded env c.response_task c) =
      ground arith in
    let w : await_superseded env (some (record t { cancels = 1 })) c ≡ (b, true) = ground arith in
    (
      b,
      q
          ∙ ap (λ x. after_wait text id (await_superseded env x c)) (cancelled_once a t e d o)
          ∙ ap (after_wait text id) w,
      refl,
      k.0,
      k.1,
    )

abbrev pub the_end : SttEvent
the_end = record { type = utterance_end; transcript = [] }

complete_turn-unstarted :
    (env : Env) (text : Text) (t : Task) (a : Agent) (m : TurnManager)
    → Owned a
    → a.response_task ≡ some t
    → t.started ≡ false
    → t.done ≡ false
    → is_empty text ≡ false
    → (b : Agent) × (complete_turn env (some text) (record a { turn_manager = m }) ≡ cancelled b)
      × (b.response_task ≡ some (record t { done = true; cancels = 1 }))
      × (b.conversation ≡ a.conversation)
      × (b.degraded ≡ a.degraded)
unfolding complete_turn record_milestone
complete_turn-unstarted env text t a m o e s d n =
    let id = m.last_completed_turn_id in
    let c =
      record_milestone (caller_turn_completed id m.last_completed_source_event_count)
        (record a { turn_manager = m }) in
    let (b, q, r, k, g) =
      supersede-unstarted env text id t c (keep-Owned a c refl refl refl refl o) e s d in
    (
      b,
      (let f : complete_turn env (some text) (record a { turn_manager = m })
              ≡ supersede env text id a.response_task c =
            ground arith in
          f ∙ ap (λ x. supersede env text id x c) e ∙ q),
      r,
      k,
      g,
    )

on_stt_event-end :
    (env : Env) (a : Agent)
    → on_stt_event env the_end a
      ≡ complete_turn env
          (handle_event a.turn_manager env.now the_end).1
          (record a { turn_manager = (handle_event a.turn_manager env.now the_end).0 })
unfolding on_stt_event
on_stt_event-end env a =
    ap
      (λ b.
        complete_turn env (handle_event b.turn_manager env.now the_end).1
          (record b { turn_manager = (handle_event b.turn_manager env.now the_end).0 }))
      (utterance_end-trigger env a)

-- If a caller turn is completed while the response task, which is owned as `handle_item-Owned` keeps it,
-- was created but has not yet run, then `cancel` was called on that task exactly once, by this turn or
-- before, it ends without a step, and the run loop ends in a CancelledError: the completed turn is not
-- added to the conversation and the call is not marked as degraded, which alone would hang it up.
pub handle_item-turn_lost :
    (env : Env) (text : Text) (t : Task) (a : Agent)
    → Owned a
    → a.ending ≡ false
    → a.response_task ≡ some t
    → t.started ≡ false
    → t.done ≡ false
    → (handle_event a.turn_manager env.now the_end).1 ≡ some text
    → is_empty text ≡ false
    → (b : Agent) × (handle_item env (stt_event the_end) a ≡ cancelled b)
      × (b.response_task ≡ some (record t { done = true; cancels = 1 }))
      × (b.conversation ≡ a.conversation)
      × (b.degraded ≡ a.degraded)
unfolding handle_item
handle_item-turn_lost env text t a o ending task s d turn n =
    let m = (handle_event a.turn_manager env.now the_end).0 in
    let (b, q, r, k, g) = complete_turn-unstarted env text t a m o task s d n in
    let f : handle_item env (stt_event the_end) a ≡ on_stt_event env the_end a = ground arith in
    (
      b,
      f
          ∙ on_stt_event-end env a
          ∙ ap (λ x. complete_turn env x (record a { turn_manager = m })) turn
          ∙ q,
      r,
      k,
      g,
    )
