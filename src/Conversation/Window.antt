-- ===== src/Conversation/Window.antt =====
-- What the trimming of onset/conversation.py keeps.
use telnyx_onset.Prelude.{
  ℕ, ◌≤◌, ◌<◌, min, ◌≡◌, refl, ap, subst, inl, inr, true, ◌&&◌, List, [], ◌∷◌, ◌++◌, arith, ltb,
  Bool-cases, length,
}
use telnyx_onset.Types.{LlmMessage, Role, user}
use telnyx_onset.Conversation.{is_user, user_count, trim_messages}

user_count-le-length : (ms : List LlmMessage) → user_count ms ≤ length ms
user_count-le-length [] = omega arith
user_count-le-length (m ∷ ms) = ground (arith, user_count-le-length ms)

-- What was cut off at the front, if anything: messages up to and with one of the user.
abbrev pub CutAtUser : List LlmMessage → Type 0
CutAtUser [] = Unit
CutAtUser (m ∷ []) = m.role ≡ user
CutAtUser (m ∷ n ∷ ms) = CutAtUser (n ∷ ms)

-- With room for two turns or more, the newest `max_turns` user messages stay, with all that follows
-- the last one cut off; the rest is as it was.
pub record Kept (max_turns : ℕ) (before after : List LlmMessage) : Type 0 where
  pub dropped : List LlmMessage
  pub rejoin : dropped ++ after ≡ before
  pub users : user_count after ≡ min max_turns (user_count before)
  pub cut : CutAtUser dropped

is_user→user : (r : Role) → is_user r ≡ true → r ≡ user
is_user→user r h = ground arith

CutAtUser-cons :
    (m : LlmMessage) (ms : List LlmMessage)
    → (ms ≡ [] → m.role ≡ user)
    → CutAtUser ms
    → CutAtUser (m ∷ ms)
CutAtUser-cons m [] h c = h refl
CutAtUser-cons m (n ∷ ms) h c = c

-- If nothing older was cut, the message that made the count too large is one of the user.
oldest_user :
    (k : ℕ) (m : LlmMessage) (ms : List LlmMessage) {after : List LlmMessage} (ih : Kept k ms after)
    → ih.dropped ≡ []
    → k < user_count (m ∷ ms)
    → m.role ≡ user
oldest_user k m ms {after} ih e h =
    let same : after ≡ ms = subst (λ d. d ++ after ≡ ms) e ih.rejoin in
    is_user→user m.role (ground (arith, ih.users, same))

-- With `max_turns` of two or more, trimming keeps the messages in their order but for some at the
-- front: the newest `max_turns` messages of the user stay, or all if there are fewer, and what is cut
-- off ends with a message of the user.
pub trim_messages-Kept :
    (max_turns : ℕ) (ms : List LlmMessage)
    → 2 ≤ max_turns
    → Kept max_turns ms (trim_messages max_turns ms)
unfolding trim_messages
trim_messages-Kept k [] h = record { dropped = []; rejoin = refl; users = omega arith; cut = tt }
trim_messages-Kept k (m ∷ ms) h =
    let ih = trim_messages-Kept k ms h in
    elim (Bool-cases (ltb k (user_count (m ∷ ms)) && ltb 2 (length (m ∷ ms)))) [
      | inl t ↦ rw t (record {
        dropped = m ∷ ih.dropped;
        rejoin = ap (◌∷◌ m) ih.rejoin;
        users = ground (arith, ih.users);
        cut = CutAtUser-cons m ih.dropped (λ e. oldest_user k m ms ih e (ground (arith, t))) ih.cut;
      })
      | inr t ↦ rw t (record {
        dropped = [];
        rejoin = refl;
        users = ground (arith, user_count-le-length (m ∷ ms));
        cut = tt;
      })
    ]
