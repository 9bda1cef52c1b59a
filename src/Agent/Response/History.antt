-- ===== src/Agent/Response/History.antt =====
-- The tool calls in the history of a call: what onset/agent.py adds to it, and what the trimming of
-- onset/conversation.py takes away.
use telnyx_onset.Prelude.{
  ℕ, ◌≤◌, ◌≡◌, refl, sym, ap, ◌∙◌, subst, ◌⊎◌, inl, inr, Option, none, some, List, [], ◌∷◌, ◌++◌,
  if◌then◌else◌, Text,
}
use telnyx_onset.Types.{LlmMessage, Role, user, assistant, tool, system, ToolCallRequest}
use telnyx_onset.Conversation.{trim_messages}
use telnyx_onset.Conversation.Window.{CutAtUser, trim_messages-Kept}
use telnyx_onset.Agent.Response.{has_id}

abbrev pub ids : List ToolCallRequest → List Text
ids [] = []
ids (c ∷ cs) = c.id ∷ ids cs

-- The ids that stand in the first list and not in the second.
abbrev pub without : List Text → List Text → List Text
without [] gone = []
without (x ∷ xs) gone = (if has_id x gone then [] else x ∷ []) ++ without xs gone

-- Reading a history from its start: the ids of the tool calls of the last assistant message that wait
-- for a result, and all ids of that message; or the history is broken.
pub data Scan : Type 0 where
  awaiting : List Text → List Text → Scan
  broken : Scan

abbrev pub after_plain : List Text → List ToolCallRequest → Scan
after_plain [] calls = awaiting (ids calls) (ids calls)
after_plain (x ∷ xs) calls = broken

abbrev pub after_result : Option Text → List Text → List Text → Scan
after_result none waiting known = broken
after_result (some id) waiting known =
    if has_id id known then awaiting (without waiting (id ∷ [])) known else broken

abbrev pub scan_message : Role → List ToolCallRequest → Option Text → Scan → Scan
scan_message role calls id broken = broken
scan_message tool calls id (awaiting waiting known) = after_result id waiting known
scan_message assistant calls id (awaiting waiting known) = after_plain waiting calls
scan_message user calls id (awaiting waiting known) = after_plain waiting []
scan_message system calls id (awaiting waiting known) = after_plain waiting []

abbrev pub scan : List LlmMessage → Scan → Scan
scan [] s = s
scan (m ∷ ms) s = scan ms (scan_message m.role m.tool_calls m.tool_call_id s)

abbrev pub start_scan : Scan
start_scan = awaiting [] []

-- Every tool call has a result behind its message and before the next message that is none, and every
-- result belongs to a call of the last assistant message.
abbrev pub IsPaired : List LlmMessage → Type 0
IsPaired ms = (known : List Text) × (scan ms start_scan ≡ awaiting [] known)

pub scan-append : (xs ys : List LlmMessage) (s : Scan) → scan (xs ++ ys) s ≡ scan ys (scan xs s)
scan-append [] ys s = refl
scan-append (m ∷ xs) ys s = scan-append xs ys (scan_message m.role m.tool_calls m.tool_call_id s)

scan-broken : (ms : List LlmMessage) → scan ms broken ≡ broken
scan-broken [] = refl
scan-broken (m ∷ ms) = scan-broken ms

-- A message of the user starts the reading anew, unless the history is broken.
scan-user :
    (m : LlmMessage) (s : Scan)
    → m.role ≡ user
    → (scan_message m.role m.tool_calls m.tool_call_id s ≡ start_scan)
      ⊎ (scan_message m.role m.tool_calls m.tool_call_id s ≡ broken)
scan-user m broken e = inr refl
scan-user m (awaiting [] known) e = inl (rw e)
scan-user m (awaiting (x ∷ xs) known) e = inr (rw e)

scan-cut :
    (ds : List LlmMessage) (s : Scan)
    → CutAtUser ds
    → (ds ≡ []) ⊎ ((scan ds s ≡ start_scan) ⊎ (scan ds s ≡ broken))
scan-cut [] s h = inl refl
scan-cut (m ∷ []) s h = inr (scan-user m s h)
scan-cut (m ∷ n ∷ ms) s h =
    elim (scan-cut (n ∷ ms) (scan_message m.role m.tool_calls m.tool_call_id s) h) [
      | inl e ↦ cc
      | inr r ↦ inr r
    ]

-- Trimming does not change how the rest of the history is read.
pub scan-trim_messages :
    (k : ℕ) (ms : List LlmMessage) {waiting known : List Text}
    → 2 ≤ k
    → scan ms start_scan ≡ awaiting waiting known
    → scan (trim_messages k ms) start_scan ≡ awaiting waiting known
scan-trim_messages k ms {waiting} {known} h e =
    let kept = trim_messages-Kept k ms h in
    let rest = trim_messages k ms in
    let split : scan rest (scan kept.dropped start_scan) ≡ awaiting waiting known =
      sym (scan-append kept.dropped rest start_scan)
      ∙ ap (λ l. scan l start_scan) kept.rejoin
      ∙ e in
    elim (scan-cut kept.dropped start_scan kept.cut) [
      | inl d ↦ subst (λ l. scan rest (scan l start_scan) ≡ awaiting waiting known) d split
      | inr (inl s) ↦ subst (λ x. scan rest x ≡ awaiting waiting known) s split
      | inr (inr b) ↦
          let bad = subst (λ x. scan rest x ≡ awaiting waiting known) b split in
          let worse = sym (scan-broken rest) ∙ bad in cc
    ]
