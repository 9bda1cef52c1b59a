-- ===== src/Bench/Probe/Rule.antt =====
-- A proof rule for the runs of bench/acoustic_probe.py: what each operation keeps is kept by every run.
use telnyx_onset.Prelude.{
  ℕ, ◌+◌, ◌≡◌, refl, Bool, true, false, not, ◌&&◌, ◌||◌, Option, none, some, List, [], ◌∷◌, ◌++◌,
  if◌then◌else◌, arith, Text, codes, text_eq, if-cases,
}
use telnyx_onset.Json.{Json, Fields}
use telnyx_onset.Bench.Tokens.{StreamRole, probe, agent, monitor, keeper}
use telnyx_onset.Bench.Probe.{
  ProbeState, dial_requested, seen, capture_completed, leg_a_identified, stream_authorized, dial,
  hangup, ProbeController, transition, fail, mark_media_ready, mark_greeting_started, arm,
  arm_fixture_transport, spend, is_refused, is_none, claim_fixture_transport,
  mark_fixture_handoff_started, persist_fixture_handoff_started, mark_fixture_handoff_completed,
  mark_fixture_handoff_failed,
}
use telnyx_onset.Bench.Probe.Calls.{
  Task, awaits_dial, awaits_answer, awaits_bridge, awaits_hangups, awaits_stream, Next, finished,
  raises, waits, Reply, replied, refused, timed_out, started, present, send, start_stream,
  start_keeper, start_monitor, start_probe, bridge_legs, on_initiated, on_answered, mark_bridged,
  on_bridged, caller_of, is_leg, dispatch, after_stream, resume, hangup_of, hangup_both,
  webhook_is_new, parse_hook,
}
use telnyx_onset.Bench.Probe.Schedule.{
  World, settle, receive, take_out, wake, armed, claimed, Step, dials, hangs_up, handoff_starts,
  handoff_persists, handoff_completes, handoff_fails, greets, hooks, resumes, fails, enters, hears,
  arms, claims, step, run,
}

pub either {ℓ} :
    {A : Type ℓ} (P : A → Type 0) (t : Bool) (x y : A) → P x → P y → P (if t then x else y)
either P true x y h k = h
either P false x y h k = k

-- What to show of an invariant of the controller and the number of claims.
pub record Rule (P : ProbeController → ℕ → Type 0) : Type 0 where
  pub enter :
      (s : ProbeState) (now : ℕ) (c : ProbeController) {n : ℕ} → P c n → P (transition s now c) n
  pub failed :
      (category : Text) (now : ℕ) (c : ProbeController) {n : ℕ} → P c n → P (fail category now c) n
  pub dialling : (c : ProbeController) {n : ℕ} → P c n → P (send dial c) n
  pub dialled :
      (leg : Text) (c : ProbeController) {n : ℕ} → P c n → P (record c { leg_a = some leg }) n
  pub initiated :
      (payload : Fields) (ccid : Text) (now : ℕ) (c : ProbeController) {n : ℕ}
      → P c n
      → P (on_initiated payload ccid now c).0 n
  pub answering :
      (ccid : Text) (c : ProbeController) {n : ℕ}
      → P c n
      → P (record c { answered = ccid ∷ c.answered }) n
  pub bridging : (now : ℕ) (c : ProbeController) {n : ℕ} → P c n → P (mark_bridged now c) n
  pub legs :
      (a b : Option Text) (now : ℕ) (c : ProbeController) {n : ℕ}
      → P c n
      → P (bridge_legs a b now c).0 n
  pub stream :
      (token ccid : Text) (role : StreamRole) (now : ℕ) (c : ProbeController) {n : ℕ}
      → started role c.streams_started ≡ false
      → P c n
      → P (start_stream token ccid role now c).0 n
  pub teardown :
      (result : Text) (c : ProbeController) {n : ℕ}
      → P c n
      → P (record c { teardown_result = result }) n
  pub hanging : (c : ProbeController) {n : ℕ} → P c n → P (record c { hangup_started = true }) n
  pub hanging_up : (leg : Text) (c : ProbeController) {n : ℕ} → P c n → P (send (hangup leg) c) n
  pub new_hook :
      (place : ℕ) (event_id : Text) (c : ProbeController) {n : ℕ}
      → P c n
      → P (webhook_is_new place event_id c).0 n
  pub media :
      (channel : Text) (receive_ns : ℕ) (c : ProbeController) {n : ℕ}
      → P c n
      → P (mark_media_ready channel receive_ns c) n
  pub greeting : (now : ℕ) (c : ProbeController) {n : ℕ} → P c n → P (mark_greeting_started now c) n
  pub arming :
      (token : Text) (now : ℕ) (c : ProbeController) {n : ℕ} → P c n → P (arm token now c) n
  pub claiming :
      (c : ProbeController) {n : ℕ} → c.fixture_token_claimed ≡ false → P c n → P (spend c) (n + 1)
  pub start_handoff :
      (now : ℕ) (c : ProbeController) {n : ℕ} → P c n → P (mark_fixture_handoff_started now c) n
  pub persist : (c : ProbeController) {n : ℕ} → P c n → P (persist_fixture_handoff_started c) n
  pub complete :
      (now : ℕ) (c : ProbeController) {n : ℕ} → P c n → P (mark_fixture_handoff_completed now c) n
  pub break_off :
      (now : ℕ) (c : ProbeController) {n : ℕ} → P c n → P (mark_fixture_handoff_failed now c) n

module _ {P : ProbeController → ℕ → Type 0} (rule : Rule P) where
  open rule use {
    enter, failed, dialling, dialled, initiated, answering, bridging, legs, stream, teardown,
    hanging, hanging_up, new_hook, media, greeting, arming, claiming, start_handoff, persist,
    complete, break_off,
  }

  keeper_kept :
      (leg : Option Text) (token : Text) (now : ℕ) (c : ProbeController) {n : ℕ}
      → P c n
      → P (start_keeper leg token now c).0 n
  unfolding start_keeper
  keeper_kept none token now c h = h
  keeper_kept (some a) token now c {n} h =
      if-cases (λ (x : ProbeController × Next). P x.0 n)
        (c.config.probe_receive_only && not (started keeper c.streams_started)) _ _
        (λ e. stream token a keeper now c (ground arith) h) (λ e. h)

  monitor_kept :
      (leg : Option Text) (token : Text) (now : ℕ) (c : ProbeController) {n : ℕ}
      → P c n
      → P (start_monitor leg token now c).0 n
  unfolding start_monitor
  monitor_kept none token now c h = keeper_kept (present c.leg_a) token now c h
  monitor_kept (some b) token now c {n} h =
      if-cases (λ (x : ProbeController × Next). P x.0 n)
        (c.config.probe_receive_only && not (started monitor c.streams_started)) _ _
        (λ e. stream token b monitor now c (ground arith) h)
        (λ e. keeper_kept (present c.leg_a) token now c h)

  probe_kept :
      (leg : Option Text) (token : Text) (now : ℕ) (c : ProbeController) {n : ℕ}
      → P c n
      → P (start_probe leg token now c).0 n
  unfolding start_probe
  probe_kept none token now c h = monitor_kept (present c.leg_b) token now c h
  probe_kept (some a) token now c {n} h =
      if-cases (λ (x : ProbeController × Next). P x.0 n) (started probe c.streams_started) _ _
        (λ e. monitor_kept (present c.leg_b) token now c h) (λ e. stream token a probe now c e h)

  answered_kept :
      (token ccid : Text) (now : ℕ) (c : ProbeController) {n : ℕ}
      → P c n
      → P (on_answered token ccid now c).0 n
  unfolding on_answered
  answered_kept token ccid now c {n} h =
      let d = answering ccid c h in
      if-cases (λ (x : ProbeController × Next). P x.0 n) _ _ _
        (λ e.
          stream token ccid agent now (record c { answered = ccid ∷ c.answered }) (ground arith) d)
        (λ e.
          legs (present c.leg_a) (present c.leg_b) now (record c { answered = ccid ∷ c.answered })
            d)

  dispatch_kept :
      (token event_type : Text) (payload : Fields) (now : ℕ) (c : ProbeController) {n : ℕ}
      → P c n
      → P (dispatch token event_type payload now c).0 n
  unfolding dispatch on_bridged
  dispatch_kept token event_type payload now c {n} h =
      let ours = is_leg (caller_of payload) c.leg_a || is_leg (caller_of payload) c.leg_b in
      go (text_eq event_type (codes "call.initiated"))
        (text_eq event_type (codes "call.answered") && ours)
        (text_eq event_type (codes "call.bridged") && ours)
        (text_eq event_type (codes "call.hangup") && ours && not (seen capture_completed c.states))
    where
      go :
          (initiated_event answered_event bridged_event hangup_event : Bool)
          → P
              (if initiated_event
                then on_initiated payload (caller_of payload) now c
                else if answered_event
                then on_answered token (caller_of payload) now c
                else if bridged_event
                then on_bridged token now c
                else if hangup_event
                then (fail (codes "call_hangup") now c, finished)
                else (c, finished)).0
              n
      go true _ _ _ = initiated payload (caller_of payload) now c h
      go false true _ _ = answered_kept token (caller_of payload) now c h
      go false false true _ =
          probe_kept (present c.leg_a) token now (mark_bridged now c) (bridging now c h)
      go false false false true = failed (codes "call_hangup") now c h
      go false false false false = h

  after_kept :
      (role : StreamRole) (token : Text) (now : ℕ) (c : ProbeController) {n : ℕ}
      → P c n
      → P (after_stream role token now c).0 n
  unfolding after_stream
  after_kept agent token now c h = legs (present c.leg_a) (present c.leg_b) now c h
  after_kept probe token now c h = monitor_kept (present c.leg_b) token now c h
  after_kept monitor token now c h = keeper_kept (present c.leg_a) token now c h
  after_kept keeper token now c h = h

  resume_kept :
      (reply : Reply) (token : Text) (now : ℕ) (task : Task) (c : ProbeController) {n : ℕ}
      → P c n
      → P (resume reply token now task c).0 n
  unfolding resume
  resume_kept (replied leg) token now awaits_dial c h =
      enter leg_a_identified now (record c { leg_a = some leg }) (dialled leg c h)
  resume_kept refused token now awaits_dial c h = failed (codes "dial_failed") now c h
  resume_kept timed_out token now awaits_dial c h = failed (codes "dial_failed") now c h
  resume_kept reply token now awaits_answer c h = h
  resume_kept (replied _) token now awaits_bridge c h = h
  resume_kept refused token now awaits_bridge c h = failed (codes "bridge_failed") now c h
  resume_kept timed_out token now awaits_bridge c h = failed (codes "bridge_failed") now c h
  resume_kept (replied _) token now (awaits_stream role) c h =
      after_kept role token now (transition stream_authorized now c)
        (enter stream_authorized now c h)
  resume_kept refused token now (awaits_stream role) c h =
      failed (codes "stream_start_failed") now c h
  resume_kept timed_out token now (awaits_stream role) c h =
      failed (codes "stream_start_failed") now c h
  resume_kept (replied _) token now awaits_hangups c h = teardown _ c h
  resume_kept refused token now awaits_hangups c h = teardown _ c h
  resume_kept timed_out token now awaits_hangups c h =
      failed (codes "teardown_timeout") now _ (teardown _ c h)

  hangups_kept : (c : ProbeController) {n : ℕ} → P c n → P (hangup_both c).0 n
  unfolding hangup_both
  hangups_kept c {n} h = go c.hangup_started (present c.leg_b) (present c.leg_a)
    where
      d : ProbeController
      d = record c { hangup_started = true }

      go :
          (known : Bool) (a b : Option Text)
          → let x : ProbeController × Next =
              (if known then (c, finished) else elim (hangup_of a ++ hangup_of b) [
                | [] ↦ (
                  record c { hangup_started = true; teardown_result = codes "no_identified_legs" },
                  finished,
                )
                | x ∷ xs ↦ (
                  record c { hangup_started = true; commands = (x ∷ xs) ++ c.commands },
                  waits awaits_hangups,
                )
              ]) in
            P x.0 n
      go true a b = h
      go false none none = teardown _ d (hanging c h)
      go false none (some y) = hanging_up y d (hanging c h)
      go false (some x) none = hanging_up x d (hanging c h)
      go false (some x) (some y) = hanging_up x (send (hangup y) d) (hanging_up y d (hanging c h))

  settle_kept :
      (now : ℕ) (w : World) (x : ProbeController × Next)
      → P x.0 w.claims
      → P (settle now w x).controller (settle now w x).claims
  settle_kept now w (c, finished) h = h
  settle_kept now w (c, raises) h = failed (codes "socket_error") now c h
  settle_kept now w (c, waits task) h = h

  receive_kept :
      (token : Text) (place : ℕ) (body : Json) (now : ℕ) (w : World)
      → P w.controller w.claims
      → P (receive token place body now w).controller (receive token place body now w).claims
  unfolding receive
  receive_kept token place body now w h = go (parse_hook body)
    where
      go :
          (o : Option (Text × Text × Fields))
          → let w' : World = (elim o [
            | none ↦ w
            | some (event_id, event_type, payload) ↦
                let (c, new) = webhook_is_new place event_id w.controller in
                if new then settle now w (dispatch token event_type payload now c) else w
          ]) in
            P w'.controller w'.claims
      go none = h
      go (some (event_id, event_type, payload)) =
          if-cases (λ (w' : World). P w'.controller w'.claims)
            (webhook_is_new place event_id w.controller).1 _ _
            (λ e.
              settle_kept now w
                (dispatch token event_type payload now
                  (webhook_is_new place event_id w.controller).0)
                (dispatch_kept token event_type payload now
                  (webhook_is_new place event_id w.controller).0
                  (new_hook place event_id w.controller h)))
            (λ e. h)

  wake_kept :
      (place : ℕ) (reply : Reply) (token : Text) (now : ℕ) (w : World)
      → P w.controller w.claims
      → P (wake place reply token now w).controller (wake place reply token now w).claims
  unfolding wake
  wake_kept place reply token now w h = go (take_out place w.tasks)
    where
      go :
          (o : Option (Task × List Task))
          → let w' : World = (elim o [
            | none ↦ w
            | some (task, rest) ↦
                settle now (record w { tasks = rest }) (resume reply token now task w.controller)
          ]) in
            P w'.controller w'.claims
      go none = h
      go (some (task, rest)) =
          settle_kept now (record w { tasks = rest }) (resume reply token now task w.controller)
            (resume_kept reply token now task w.controller h)

  step_kept :
      (s : Step) (w : World) → P w.controller w.claims → P (step s w).controller (step s w).claims
  unfolding step arm_fixture_transport claim_fixture_transport
  step_kept (dials now) w h =
      dialling (transition dial_requested now w.controller)
        (enter dial_requested now w.controller h)
  step_kept (hangs_up now) w h =
      settle_kept now w (hangup_both w.controller) (hangups_kept w.controller h)
  step_kept (handoff_starts now) w h = start_handoff now w.controller h
  step_kept (handoff_persists now) w h = persist w.controller h
  step_kept (handoff_completes now) w h = complete now w.controller h
  step_kept (handoff_fails now) w h = break_off now w.controller h
  step_kept (greets now) w h = greeting now w.controller h
  step_kept (hooks token place body now) w h = receive_kept token place body now w h
  step_kept (resumes place reply token now) w h = wake_kept place reply token now w h
  step_kept (fails category now) w h = failed category now w.controller h
  step_kept (enters s now) w h = enter s now w.controller h
  step_kept (hears channel receive_ns) w h = media channel receive_ns w.controller h
  step_kept (arms token now) w h =
      go (is_none w.controller.leg_a || not (is_none w.controller.fixture_token))
    where
      go :
          (refused : Bool)
          → let w' = armed (if refused then none else some (arm token now w.controller)) w in
            P w'.controller w'.claims
      go true = h
      go false = arming token now w.controller h
  step_kept (claims run_id token now) w h =
      go (is_refused run_id token now w.controller) (λ e. ground arith)
    where
      go :
          (refused : Bool)
          → (refused ≡ false → w.controller.fixture_token_claimed ≡ false)
          → let w' =
              claimed (if refused then (w.controller, false) else (spend w.controller, true)) w in
            P w'.controller w'.claims
      go true e = h
      go false e = claiming w.controller (e refl) h

  pub run_kept :
      (steps : List Step) (w : World)
      → P w.controller w.claims
      → P (run steps w).controller (run steps w).claims
  unfolding run
  run_kept [] w h = h
  run_kept (s ∷ steps) w h = run_kept steps (step s w) (step_kept s w h)
