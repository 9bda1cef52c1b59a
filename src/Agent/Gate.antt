-- ===== src/Agent/Gate.antt =====
-- The gate of onset/agent.py in half duplex, and the items that the run loop drops.
use telnyx_onset.Prelude.{
  ℕ, ◌+◌, ◌≡◌, refl, ap, ◌∙◌, Bool, true, false, Option, none, some, ◌∷◌, arith, ltb, if◌then◌else◌,
}
use telnyx_onset.Audio.{Bytes}
use telnyx_onset.Agent.{Agent, handle_audio, listen_gate, hear, feed, record_milestone, put_event}

-- A half-duplex agent that speaks hears only silence: of an inbound frame, whatever it holds, the STT
-- socket gets the silence frame, the queue and the milestones get nothing, and the mute lasts to the
-- end of the guard, counted from this frame.
pub handle_audio-silence :
    (profile : Option (Bytes → Bool)) (detect : Bytes → Bool) (now : ℕ) (pcm16 : Bytes) (a : Agent)
    → a.closed ≡ false
    → a.half_duplex ≡ true
    → a.barge_in.agent_is_speaking ≡ true
    → let b = handle_audio profile detect now pcm16 a in
      (b.stt_fed ≡ a.silence_frame ∷ a.stt_fed)
      × (b.events ≡ a.events)
      × (b.milestones ≡ a.milestones)
      × (b.mute_until ≡ now + a.listen_guard)
unfolding handle_audio listen_gate hear feed record_milestone put_event
handle_audio-silence profile detect now pcm16 a c h s = ground arith

hear-stt_fed :
    (profile : Option (Bytes → Bool)) (onset : Bool) (i : ℕ) (pcm16 : Bytes) (a : Agent)
    → (hear profile onset i pcm16 a).stt_fed ≡ pcm16 ∷ a.stt_fed
unfolding hear feed record_milestone put_event
hear-stt_fed none onset i pcm16 a = ground arith
hear-stt_fed (some test) onset i pcm16 a = ground arith

quiet-stt_fed :
    (profile : Option (Bytes → Bool)) (detect : Bytes → Bool) (now : ℕ) (pcm16 : Bytes) (a : Agent)
    → a.closed ≡ false
    → a.half_duplex ≡ true
    → a.barge_in.agent_is_speaking ≡ false
    → (handle_audio profile detect now pcm16 a).stt_fed
      ≡ (if ltb now a.mute_until then a.silence_frame else pcm16) ∷ a.stt_fed
unfolding handle_audio listen_gate feed
quiet-stt_fed profile detect now pcm16 a c h s =
    let e =
      hear-stt_fed profile (detect pcm16) a.inbound_frame_index pcm16
        (record a { mute_until = a.mute_until; inbound_frame_index = a.inbound_frame_index + 1 }) in
    ground arith

speaking-state :
    (profile : Option (Bytes → Bool)) (detect : Bytes → Bool) (now : ℕ) (pcm16 : Bytes) (a : Agent)
    → a.closed ≡ false
    → a.half_duplex ≡ true
    → a.barge_in.agent_is_speaking ≡ true
    → handle_audio profile detect now pcm16 a ≡ record a {
      inbound_frame_index = a.inbound_frame_index + 1;
      mute_until = now + a.listen_guard;
      stt_fed = a.silence_frame ∷ a.stt_fed;
    }
unfolding handle_audio listen_gate feed
speaking-state profile detect now pcm16 a c h s = ground arith

-- After the agent has fallen silent, the frames of the guard time are still silence to the STT socket,
-- and the first frame at its end reaches it unchanged.
pub handle_audio-guard :
    (profile : Option (Bytes → Bool)) (detect : Bytes → Bool) (now later : ℕ) (first pcm16 : Bytes)
    (a : Agent)
    → a.closed ≡ false
    → a.half_duplex ≡ true
    → a.barge_in.agent_is_speaking ≡ true
    → let b = handle_audio profile detect now first a in
      let quiet = record b { barge_in = record a.barge_in { agent_is_speaking = false } } in
      let c = handle_audio profile detect later pcm16 quiet in
      c.stt_fed
      ≡ (if ltb later (now + a.listen_guard) then a.silence_frame else pcm16)
        ∷ a.silence_frame
        ∷ a.stt_fed
handle_audio-guard profile detect now later first pcm16 a c h s =
    let quiet : Agent → Agent =
      λ x. record x { barge_in = record a.barge_in { agent_is_speaking = false } } in
    let b : Agent = record a {
      inbound_frame_index = a.inbound_frame_index + 1;
      mute_until = now + a.listen_guard;
      stt_fed = a.silence_frame ∷ a.stt_fed;
    } in
    ap (λ x. (handle_audio profile detect later pcm16 (quiet x)).stt_fed)
      (speaking-state profile detect now first a c h s)
    ∙ quiet-stt_fed profile detect later pcm16 (quiet b) c h refl
