-- ===== src/Server.antt =====
-- onset/server.py: the state of the process, the webhooks and the name of a mark. Signature checks and
-- the outcomes of commands are arguments; log lines are left out.
pub mod Marks
pub mod Socket
pub mod Cases
pub mod Slots
pub mod Served
pub mod Admission
pub mod SecondCall
use telnyx_onset.Prelude.{
  ℕ, ◌+◌, ◌*◌, Bool, true, false, not, ◌||◌, ◌&&◌, Option, none, some, List, [], ◌∷◌, ◌++◌, ltb,
  if◌then◌else◌, length, is_empty, Text, codes, text_eq, drop, int_of,
}
use telnyx_onset.Audio.{Bytes}
use telnyx_onset.Limits.{CallLimiter, new_limiter}

-- The commands that are sent to the call control interface, whether they succeed or not.
pub data Command : Type 0 where
  answer hang_up : Text → Command
  start_streaming : Text → Text → Command

pub record Settings : Type 0 where
  pub telnyx_connection_id : Text
  pub media_stream_url : Text
  pub max_concurrent_calls : ℕ
  pub has_benchmark_profile : Bool

-- `app.state`, with the commands sent so far, newest first. `agents` gives for a call the number of the
-- socket whose agent it is.
pub record App : Type 0 where
  pub settings : Settings
  pub limiter : CallLimiter
  pub benchmark_call_claimed : Bool
  pub agents : List (Text × ℕ)
  pub stream_tokens : List (Text × Text)
  pub commands : List Command

-- The state that `lifespan` sets up.
unfoldable pub new_app : Settings → App
unfolding new_limiter
new_app settings = record {
  settings = settings;
  limiter = new_limiter settings.max_concurrent_calls;
  benchmark_call_claimed = false;
  agents = [];
  stream_tokens = [];
  commands = [];
}

-- What follows a prefix.
abbrev pub after_prefix : Text → Text → Option Text
after_prefix [] t = some t
after_prefix (c ∷ cs) [] = none
after_prefix (c ∷ cs) (d ∷ ds) =
    let rest = after_prefix cs ds in if text_eq (c ∷ []) (d ∷ []) then rest else none

-- `digit` gives the value of a decimal digit of Unicode. A negative number is given as
-- none here: the code returns it, and the only one that it could agree with is the -1 of a call that
-- has not spoken yet.
unfoldable pub parse_speak_generation : (ℕ → Option ℕ) → Text → Option ℕ
unfolding int_of
parse_speak_generation digit mark_name = elim (after_prefix (codes "speak:") mark_name) [
  | none ↦ none
  | some text ↦ int_of digit text
]

-- A dict of texts: a known key keeps its place.
abbrev pub set_key {ℓ} : {A : Type ℓ} → Text → A → List (Text × A) → List (Text × A)
set_key k v [] = (k, v) ∷ []
set_key k v ((k', v') ∷ rest) =
    let others = set_key k v rest in if text_eq k' k then (k', v) ∷ rest else (k', v') ∷ others

abbrev pub remove_key {ℓ} : {A : Type ℓ} → Text → List (Text × A) → List (Text × A)
remove_key k [] = []
remove_key k ((k', v') ∷ rest) =
    let others = remove_key k rest in if text_eq k' k then others else (k', v') ∷ others

abbrev pub get_key {ℓ} : {A : Type ℓ} → Text → List (Text × A) → Option A
get_key k [] = none
get_key k ((k', v') ∷ rest) = let found = get_key k rest in if text_eq k' k then some v' else found

-- The loop that drops the oldest tokens.
unfoldable pub drop_oldest : List (Text × Text) → List (Text × Text)
drop_oldest [] = []
drop_oldest (x ∷ xs) =
    let rest = drop_oldest xs in if ltb 256 (length (x ∷ xs)) then rest else x ∷ xs

abbrev pub has_char : ℕ → Text → Bool
has_char c [] = false
has_char c (d ∷ ds) = text_eq (c ∷ []) (d ∷ []) || has_char c ds

-- `token` is what `secrets.token_urlsafe` returns.
unfoldable pub mint_stream_url : Text → Text → App → App × Text
unfolding drop_oldest
mint_stream_url token call_control_id app =
    let base = app.settings.media_stream_url in
    let sep = if has_char b'?' base then codes "&" else codes "?" in
    (
      record app { stream_tokens = set_key token call_control_id (drop_oldest app.stream_tokens) },
      base ++ (sep ++ (codes "token=" ++ token)),
    )

-- The fields of a webhook that the code reads. A missing one is empty.
pub record Webhook : Type 0 where
  pub event_type : Text
  pub connection_id : Text
  pub direction : Text
  pub call_control_id : Text

unfoldable pub matches_connection : Settings → Webhook → Bool
matches_connection settings hook =
    is_empty settings.telnyx_connection_id
    || is_empty hook.connection_id
    || text_eq hook.connection_id settings.telnyx_connection_id

unfoldable pub is_ours : Settings → Webhook → Bool
unfolding matches_connection
is_ours settings hook =
    matches_connection settings hook && text_eq hook.direction (codes "incoming")

abbrev pub send_command : Command → App → App
send_command c app = record app { commands = c ∷ app.commands }

unfoldable pub on_initiated : Webhook → App → App
unfolding is_ours
on_initiated hook app =
    if is_ours app.settings hook then send_command (answer hook.call_control_id) app else app

-- `accepted` tells that the command to start streaming raised nothing.
unfoldable pub on_answered : Text → Bool → Webhook → App → App
unfolding matches_connection mint_stream_url
on_answered token accepted hook app =
    let id = hook.call_control_id in
    let (minted, url) = mint_stream_url token id app in
    let asked = send_command (start_streaming id url) minted in
    if not (matches_connection app.settings hook) || is_empty app.settings.media_stream_url
    then app
    else if accepted
    then asked
    else send_command (hang_up id) asked

unfoldable pub dispatch : Text → Bool → Webhook → App → App
unfolding on_initiated on_answered
dispatch token accepted hook app =
    if text_eq hook.event_type (codes "call.initiated")
    then on_initiated hook app
    else if text_eq hook.event_type (codes "call.answered")
    then on_answered token accepted hook app
    else app

abbrev pub max_webhook_bytes : ℕ
max_webhook_bytes = 256 * 1024

-- The loop over the chunks of the body, with what was read so far; `none` for the answer 413.
unfoldable pub read_body : List Bytes → Bytes → Option Bytes
read_body [] body = some body
read_body (chunk ∷ chunks) body =
    let rest = read_body chunks (body ++ chunk) in
    if ltb max_webhook_bytes (length (body ++ chunk)) then none else rest

-- What the parsing of the body comes to: the fields that are read; a body that is caught as malformed, as it
-- is no JSON text or has no `data`; or one at which an exception leaves the handler, as its `data` or
-- `payload` is no object, or as it cannot be decoded at all.
pub data Body : Type 0 where
  parsed : Webhook → Body
  malformed uncaught : Body

-- The status of the answer. `verified` is the check of the signature and `parse` what becomes of the text.
unfoldable pub webhook : (Bytes → Bool) → (Bytes → Body) → Text → Bool → List Bytes → App → App × ℕ
unfolding read_body dispatch
webhook verified parse token accepted chunks app = elim (read_body chunks []) [
  | none ↦ (app, 413)
  | some body ↦ if not (verified body) then (app, 403) else elim (parse body) [
    | malformed ↦ (app, 200)
    | uncaught ↦ (app, 500)
    | parsed hook ↦ (dispatch token accepted hook app, 200)
  ]
]
