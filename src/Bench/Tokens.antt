-- ===== src/Bench/Tokens.antt =====
-- The one-use stream tokens of bench/media_capture.py. `hmac.compare_digest` is equality of texts.
use telnyx_onset.Prelude.{
  ℕ, zero, suc, ◌+◌, ◌-◌, ◌*◌, ◌/◌, ◌%◌, ◌^◌, ◌≤◌, ◌<◌, min, max, ◌≡◌, refl, sym, ap, ap₂, ◌∙◌,
  subst, ◌≢◌, ◌↔◌, ◌⊎◌, inl, inr, Bool, true, false, not, ◌&&◌, ◌||◌, Option, none, some, List, [],
  ◌∷◌, ◌++◌, map, append-nil, append_assoc, arith, ltb, leb, ◌==◌, if◌then◌else◌, ltb→lt, lt→ltb,
  ltb→le, leb→le, le→leb, leb→lt, lt→leb, ==_iff, ==_refl, Bool-cases, Option-cases, length, take,
  drop, replicate, concat, is_empty, All, length-append, take-append-drop, length-take, length-drop,
  length-replicate, take-append, drop-append, All-append, All-map, Text, codes, text_eq, text_eq→eq,
  text_eq_refl, is_space, lstrip, rstrip, strip,
}
pub mod Once

-- The ProbeProtocolError and CaptureLimitError codes that these operations raise.
pub data CaptureError : Type 0 where
  stream_auth_capacity stream_auth_failed capture_limit_reached track_missing not_media :
      CaptureError

pub data Checked {ℓ} (A : Type ℓ) : Type ℓ where
  ok : A → Checked A
  raised : CaptureError → Checked A

pub data StreamRole : Type 0 where
  probe agent monitor keeper : StreamRole

pub record StreamAuthorization : Type 0 where
  pub token : Text
  pub run_id : Text
  pub call_control_id : Text
  pub role : StreamRole
  pub expires_ns : ℕ

abbrev pub token_ttl_ns : ℕ
token_ttl_ns = 60000000000

pub record StreamTokenStore : Type 0 where
  pub maximum : ℕ
  pub pending : List StreamAuthorization

abbrev pub max_pending_tokens : ℕ
max_pending_tokens = 8

-- `none` stands for the ValueError.
unfoldable pub new_store : ℕ → Option StreamTokenStore
new_store maximum =
    if (maximum == 0) || ltb max_pending_tokens maximum
    then none
    else some (record { maximum = maximum; pending = [] })

unfoldable pub unexpired : ℕ → List StreamAuthorization → List StreamAuthorization
unexpired now [] = []
unexpired now (x ∷ xs) =
    let rest = unexpired now xs in if ltb now x.expires_ns then x ∷ rest else rest

unfoldable pub remove_expired : ℕ → StreamTokenStore → StreamTokenStore
unfolding unexpired
remove_expired now s = record s { pending = unexpired now s.pending }

-- `token` is what `secrets.token_urlsafe` returns.
unfoldable pub issue :
    Text → Text → Text → StreamRole → ℕ → StreamTokenStore → StreamTokenStore × Checked Text
unfolding remove_expired
issue token run_id call_control_id role now s =
    let t = remove_expired now s in
    if leb t.maximum (length t.pending) then (t, raised stream_auth_capacity) else (
      record t {
        pending =
            t.pending
            ++ (record {
              token = token;
              run_id = run_id;
              call_control_id = call_control_id;
              role = role;
              expires_ns = now + token_ttl_ns;
            }
                ∷ []);
      },
      ok token,
    )

abbrev pub same_role : StreamRole → StreamRole → Bool
same_role probe probe = true
same_role agent agent = true
same_role monitor monitor = true
same_role keeper keeper = true
same_role _ _ = false

abbrev pub matches : Text → Text → StreamRole → StreamAuthorization → Bool
matches token run_id role x =
    text_eq x.token token && text_eq x.run_id run_id && same_role x.role role

-- The index of the last match, from an index on.
unfoldable pub match_index :
    (StreamAuthorization → Bool) → ℕ → Option ℕ → List StreamAuthorization → Option ℕ
match_index test index found [] = found
match_index test index found (x ∷ xs) =
    match_index test (index + 1) (if test x then some index else found) xs

-- `list.pop(index)`, with the list that is left; `none` out of range.
unfoldable pub pop :
    ℕ → List StreamAuthorization → Option (StreamAuthorization × List StreamAuthorization)
pop i [] = none
pop zero (x ∷ xs) = some (x, xs)
pop (suc i) (x ∷ xs) = elim (pop i xs) [ none ↦ none | some (y, ys) ↦ some (y, x ∷ ys) ]

unfoldable pub consume :
    Text → Text → StreamRole → ℕ → StreamTokenStore → StreamTokenStore × Checked StreamAuthorization
unfolding remove_expired match_index pop
consume presented run_id role now s =
    let t = remove_expired now s in
    elim (match_index (matches presented run_id role) 0 none t.pending) [
      | none ↦ (t, raised stream_auth_failed)
      | some i ↦ elim (pop i t.pending) [
        | none ↦ (t, raised stream_auth_failed)
        | some (x, rest) ↦ (record t { pending = rest }, ok x)
      ]
    ]
