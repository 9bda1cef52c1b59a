-- ===== src/Media.antt =====
-- onset/media.py: the outbound side of the media socket. The event loop runs one task at a time, up
-- to its next await: each function below is such a stretch, and `apply` runs the stretches of the
-- agent, of the pacer and of blocked producers in any order. Messages are data in place of their JSON
-- text. The state keeps what was handed to `send_text` (`wire`, newest first), with the epoch of each
-- message. Whether a send raises is an argument.
pub mod Inbound
pub mod Raises
pub mod Flush
pub mod Bounds
pub mod Producer
use telnyx_onset.Prelude.{
  ℕ, zero, suc, ◌+◌, ◌-◌, ◌*◌, ◌/◌, ◌%◌, ◌^◌, ◌≤◌, ◌<◌, min, max, ◌≡◌, refl, sym, ap, ap₂, ◌∙◌,
  subst, ◌≢◌, ◌↔◌, ◌⊎◌, inl, inr, Bool, true, false, not, ◌&&◌, ◌||◌, Option, none, some, List, [],
  ◌∷◌, ◌++◌, map, append-nil, append_assoc, arith, ltb, leb, ◌==◌, if◌then◌else◌, ltb→lt, lt→ltb,
  ltb→le, leb→le, le→leb, leb→lt, lt→leb, ==_iff, ==_refl, Bool-cases, Option-cases, length, take,
  drop, replicate, concat, is_empty, All, length-append, take-append-drop, length-take, length-drop,
  length-replicate, take-append, drop-append, All-append, All-map, Text, codes, text_eq, text_eq→eq,
  text_eq_refl, is_space, lstrip, rstrip, strip,
}
use telnyx_onset.Audio.{Bytes}
use telnyx_onset.Types.{FlushOutcome, completed, failed, MediaFlushResult}

pub data ItemKind : Type 0 where
  audio mark : ItemKind

pub record QueueItem : Type 0 where
  pub epoch : ℕ
  pub kind : ItemKind
  pub payload : Bytes

pub data Message : Type 0 where
  media_message mark_message : Bytes → Message
  clear_message : Message

pub record Sent : Type 0 where
  pub epoch : ℕ
  pub message : Message

-- The local variables of the pacer; `utterance_epoch` is `none` for the source's -1.
pub record Pacer : Type 0 where
  pub starved : ℕ
  pub prev_audio : Bool
  pub awaiting_frame : Bool
  pub utterance_epoch : Option ℕ

-- `waiting` holds the producers that are blocked in `put`, and `pacing` tells that the pacer task
-- has started and not ended. `notified` counts the calls of `on_error`.
pub record MediaStream : Type 0 where
  pub lead_frames : ℕ
  pub out : List QueueItem
  pub waiting : List QueueItem
  pub epoch : ℕ
  pub closed : Bool
  pub on_error : Bool
  pub notified : ℕ
  pub pacing : Bool
  pub pacer : Pacer
  pub wire : List Sent

unfoldable pub new_pacer : Pacer
new_pacer = record {
  starved = 0;
  prev_audio = false;
  awaiting_frame = false;
  utterance_epoch = none;
}

unfoldable pub new_stream : ℕ → Bool → MediaStream
unfolding new_pacer
new_stream lead_frames on_error = record {
  lead_frames = lead_frames;
  out = [];
  waiting = [];
  epoch = 0;
  closed = false;
  on_error = on_error;
  notified = 0;
  pacing = false;
  pacer = new_pacer;
  wire = [];
}

unfoldable pub start : MediaStream → MediaStream
unfolding new_pacer
start s = record s { pacing = true; pacer = new_pacer }

unfoldable pub begin_utterance : MediaStream → ℕ
begin_utterance s = s.epoch

-- `asyncio.Queue.full`: a queue of size 0 has no bound.
unfoldable pub full : MediaStream → Bool
full s = ltb 0 s.lead_frames && leb s.lead_frames (length s.out)

-- `await self._out.put(item)`, up to where the task blocks.
unfoldable pub put : QueueItem → MediaStream → MediaStream
unfolding full
put item s =
    if full s
    then record s { waiting = s.waiting ++ (item ∷ []) }
    else record s { out = s.out ++ (item ∷ []) }

-- The guard that `send_audio_frame` and `send_mark` share.
unfoldable pub stale : ℕ → MediaStream → Bool
stale epoch s = s.closed || not (epoch == s.epoch)

unfoldable pub send_audio_frame : ℕ → Bytes → MediaStream → MediaStream
unfolding stale put
send_audio_frame epoch frame s =
    if stale epoch s then s else put (record { epoch = epoch; kind = audio; payload = frame }) s

unfoldable pub send_mark : ℕ → Bytes → MediaStream → MediaStream
unfolding stale put
send_mark epoch name s =
    if stale epoch s then s else put (record { epoch = epoch; kind = mark; payload = name }) s

-- A producer that waited goes on, if there is room by then; it checks nothing but the room.
unfoldable pub resume : List QueueItem → MediaStream → MediaStream
unfolding full
resume [] s = s
resume (item ∷ others) s =
    if full s then s else record s { out = s.out ++ (item ∷ []); waiting = others }

unfoldable pub drain : MediaStream → MediaStream
drain s = record s { out = [] }

unfoldable pub send : ℕ → Message → MediaStream → MediaStream
send epoch message s = record s { wire = record { epoch = epoch; message = message } ∷ s.wire }

-- `flush` with its clock readings, and with the category of the exception if the send raises.
unfoldable pub flush : ℕ × ℕ × ℕ → Option Text → MediaStream → MediaStream × MediaFlushResult
unfolding drain send
flush (invalidated, started, finished) error s = (
  send (s.epoch + 1) clear_message (drain (record s { epoch = s.epoch + 1 })),
  record {
    old_epoch = s.epoch;
    new_epoch = s.epoch + 1;
    invalidated_ns = invalidated;
    send_started_ns = started;
    send_finished_ns = finished;
    outcome = elim error [ none ↦ completed | some category ↦ failed category ];
  },
)

unfoldable pub fail : MediaStream → MediaStream
unfolding drain
fail s =
    let t = drain (record s { closed = true; epoch = s.epoch + 1 }) in
    if s.on_error then record t { notified = t.notified + 1 } else t

-- The top of the pacer's loop, before `get`.
unfoldable pub pacer_top : MediaStream → MediaStream
pacer_top s =
    if s.pacer.prev_audio && is_empty s.out
    then record s { pacer = record s.pacer { awaiting_frame = true } }
    else s

abbrev pub same_utterance : Option ℕ → ℕ → Bool
same_utterance none e = false
same_utterance (some u) e = u == e

-- The state of the pacer at the first item of a new utterance.
unfoldable pub enter_utterance : ℕ → Pacer → Pacer
enter_utterance epoch p = if same_utterance p.utterance_epoch epoch then p else record {
  utterance_epoch = some epoch;
  prev_audio = false;
  awaiting_frame = false;
  starved = 0;
}

-- The branches for the two kinds of item. The socket fails for good in the first; a failed mark is
-- suppressed.
unfoldable pub pace_item : ItemKind → Bool → ℕ → Bytes → MediaStream → MediaStream
unfolding send fail
pace_item audio raises epoch payload s =
    let p = s.pacer in
    let starved = if p.awaiting_frame then p.starved + 1 else p.starved in
    let t =
      send epoch (media_message payload)
        (record s { pacer = record p { starved = starved; awaiting_frame = false } }) in
    if raises
    then record (fail t) { pacing = false }
    else record t { pacer = record t.pacer { prev_audio = true } }
pace_item mark raises epoch payload s = send epoch (mark_message payload) (record s {
  pacer = record s.pacer { awaiting_frame = false; starved = 0; prev_audio = false };
})

-- The pacer from `get` on to its next await.
unfoldable pub pacer_get : Bool → List QueueItem → MediaStream → MediaStream
unfolding enter_utterance pace_item
pacer_get raises [] s = s
pacer_get raises (item ∷ rest) s =
    let t = record s { out = rest } in
    if not (item.epoch == s.epoch)
    then record t { pacer = record t.pacer { prev_audio = false; awaiting_frame = false } }
    else pace_item item.kind raises item.epoch item.payload
        (record t { pacer = enter_utterance item.epoch t.pacer })

unfoldable pub aclose : MediaStream → MediaStream
unfolding drain
aclose s =
    if s.closed
    then s
    else record (drain (record s { closed = true; epoch = s.epoch + 1 })) { pacing = false }

-- The stretches that the event loop may run next.
pub data Action : Type 0 where
  audio_frame : ℕ → Bytes → Action
  mark_fence : ℕ → Bytes → Action
  producer_resumes : Action
  producers_cancelled : Action
  pacer_looks : Action
  pacer_takes : Bool → Action
  flushes : ℕ × ℕ × ℕ → Option Text → Action
  closes : Action

unfoldable pub apply : Action → MediaStream → MediaStream
unfolding send_audio_frame send_mark resume pacer_top pacer_get flush aclose
apply (audio_frame epoch frame) s = send_audio_frame epoch frame s
apply (mark_fence epoch name) s = send_mark epoch name s
apply producer_resumes s = resume s.waiting s
apply producers_cancelled s = record s { waiting = [] }
apply pacer_looks s = if s.pacing then pacer_top s else s
apply (pacer_takes raises) s = if s.pacing then pacer_get raises s.out s else s
apply (flushes times error) s = (flush times error s).0
apply closes s = aclose s

unfoldable pub run : List Action → MediaStream → MediaStream
unfolding apply
run [] s = s
run (a ∷ as') s = run as' (apply a s)
