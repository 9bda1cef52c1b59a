-- ===== src/Turn/ExactlyOnce.antt =====
-- Every final transcript reaches exactly one user turn of onset/turn_manager.py.
use telnyx_onset.Prelude.{
  ℕ, ◌+◌, ◌≡◌, refl, sym, ap, ◌∙◌, subst, ◌≢◌, Option, none, some, List, [], ◌∷◌, ◌++◌, map,
  append-nil, append_assoc, arith, length, concat, All, Text,
}
use telnyx_onset.Types.{
  SttEvent, SttEventType, transcript_interim, transcript_final, utterance_end, speech_started,
}
use telnyx_onset.Turn.{TurnManager, join_spaces, dispatch, handle_event, end_utterance, count_event}

-- An event with the time at which it is handled.
abbrev pub Timed : Type 0
Timed = ℕ × SttEvent

abbrev pub emit : Option Text → List Text → List Text
emit none out = out
emit (some t) out = t ∷ out

-- The events of a call in order, with the turns that they complete.
unfoldable pub handle_all : TurnManager → List Timed → TurnManager × List Text
handle_all m [] = (m, [])
handle_all m ((now, e) ∷ es) =
    let (m', turn) = handle_event m now e in
    let (m'', turns) = handle_all m' es in (m'', emit turn turns)

abbrev finals_of : SttEventType → Text → List Text
finals_of transcript_final t = t ∷ []
finals_of _ t = []

-- The final transcripts among the events, in order.
abbrev pub finals : List Timed → List Text
finals [] = []
finals ((now, e) ∷ es) = finals_of e.type e.transcript ++ finals es

-- What is known of a manager `m` that became `m'` while it completed `turns` out of `pending`.
pub record Assembled (m m' : TurnManager) (turns : List Text) (pending : List Text) : Type 0 where
  pub groups : List (List Text)
  pub joined : turns ≡ map join_spaces groups
  pub nonempty : All (λ g. g ≢ []) groups
  pub all : concat groups ++ m'.transcript_buffer ≡ pending
  pub counted : m'.turn_sequence ≡ m.turn_sequence + length groups

quiet :
    {m m1 m2 : TurnManager} {turns pending : List Text}
    → m1.turn_sequence ≡ m.turn_sequence
    → Assembled m1 m2 turns pending
    → Assembled m m2 turns pending
quiet e a = record {
  groups = a.groups;
  joined = a.joined;
  nonempty = a.nonempty;
  all = a.all;
  counted = omega (arith, a.counted);
}

ended_lem :
    (buffer : List Text) (m m2 : TurnManager) (turns fs : List Text)
    → m.transcript_buffer ≡ buffer
    → Assembled
        (end_utterance buffer m).0
        m2
        turns
        ((end_utterance buffer m).0.transcript_buffer ++ fs)
    → Assembled m m2 (emit (end_utterance buffer m).1 turns) (buffer ++ fs)
unfolding end_utterance
ended_lem [] m m2 turns fs e a =
    let b : Assembled (end_utterance [] m).0 m2 turns fs =
      subst (λ l. Assembled (end_utterance [] m).0 m2 turns (l ++ fs)) e a in
    quiet {m1 = (end_utterance [] m).0} refl b
ended_lem (t ∷ ts) m m2 turns fs e a = record {
  groups = (t ∷ ts) ∷ a.groups;
  joined = ap (◌∷◌ (join_spaces (t ∷ ts))) a.joined;
  nonempty = ((λ h. cc), a.nonempty);
  all =
      append_assoc (t ∷ ts) (concat a.groups) m2.transcript_buffer ∙ ap (λ l. (t ∷ ts) ++ l) a.all;
  counted = omega (arith, a.counted);
}

step_lem :
    (type : SttEventType) (now : ℕ) (text : Text) (m m2 : TurnManager) (turns fs : List Text)
    → Assembled
        (dispatch type now text m).0
        m2
        turns
        ((dispatch type now text m).0.transcript_buffer ++ fs)
    → Assembled m m2
        (emit (dispatch type now text m).1 turns)
        (m.transcript_buffer ++ (finals_of type text ++ fs))
unfolding dispatch
step_lem transcript_interim now text m m2 turns fs a =
    quiet {m1 = (dispatch transcript_interim now text m).0} refl a
step_lem transcript_final now text m m2 turns fs a =
    quiet {m1 = (dispatch transcript_final now text m).0} refl (
      subst (Assembled (dispatch transcript_final now text m).0 m2 turns)
        (append_assoc m.transcript_buffer (text ∷ []) fs) a)
step_lem utterance_end now text m m2 turns fs a =
    quiet {m1 = count_event m} refl
      (ended_lem m.transcript_buffer (count_event m) m2 turns fs refl a)
step_lem speech_started now text m m2 turns fs a = a

-- From any manager and events on, the turns returned are the joins of non-empty groups of final
-- transcripts; the groups in order, with what is still buffered at the end, are the transcripts
-- buffered at the start with all final ones of the events: none is lost, repeated or reordered.
-- The turn sequence has grown by the number of groups.
pub handle_all-Assembled :
    (m : TurnManager) (es : List Timed)
    → Assembled m (handle_all m es).0 (handle_all m es).1 (m.transcript_buffer ++ finals es)
unfolding handle_all handle_event
handle_all-Assembled m [] = record {
  groups = [];
  joined = refl;
  nonempty = tt;
  all = sym (append-nil m.transcript_buffer);
  counted = omega arith;
}
handle_all-Assembled m ((now, e) ∷ es) =
    step_lem e.type now e.transcript m (handle_all (handle_event m now e).0 es).0
      (handle_all (handle_event m now e).0 es).1 (finals es)
      (handle_all-Assembled (handle_event m now e).0 es)
