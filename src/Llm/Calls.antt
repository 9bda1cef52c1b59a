-- ===== src/Llm/Calls.antt =====
-- The tool calls that onset/telnyx.py puts together from fragments.
use telnyx_onset.Prelude.{
  ℕ, ◌+◌, ◌≤◌, ◌≡◌, refl, sym, ap, ◌∙◌, subst, inl, inr, Bool, true, false, not, ◌&&◌, ◌||◌, List,
  [], ◌∷◌, ◌++◌, append-nil, append_assoc, Option, none, some, arith, leb, ◌==◌, if◌then◌else◌,
  Bool-cases, is_empty, Text,
}
use telnyx_onset.Types.{ToolCallRequest}
use telnyx_onset.Retry
use telnyx_onset.Llm.{
  CallDelta, Delta, Accumulators, extend, no_call, accumulate, accumulate_all, accumulate_chunks,
  insert, sorted, text_events, call_events, stream_response,
}

-- The arguments that a list of calls holds for an index.
abbrev pub arguments_at : ℕ → Accumulators → Text
arguments_at i [] = []
arguments_at i ((j, acc) ∷ accs) =
    let rest = arguments_at i accs in if j == i then acc.arguments else rest

-- The indices rise strictly, from a bound on.
abbrev pub rising : ℕ → Accumulators → Bool
rising n [] = true
rising n ((j, acc) ∷ accs) = leb n j && rising (j + 1) accs

-- The fragments of the arguments for an index, joined in their order.
abbrev pub joined : ℕ → List CallDelta → Text
joined i [] = []
joined i (d ∷ ds) = (if d.index == i then d.arguments else []) ++ joined i ds

abbrev pub fragments : List (Option Delta) → List CallDelta
fragments [] = []
fragments (none ∷ chunks) = fragments chunks
fragments (some d ∷ chunks) = d.tool_calls ++ fragments chunks

-- Whether an index is there.
abbrev pub has_index : ℕ → Accumulators → Bool
has_index i [] = false
has_index i ((j, acc) ∷ accs) = (j == i) || has_index i accs

abbrev pub any_index : ℕ → List CallDelta → Bool
any_index i [] = false
any_index i (d ∷ ds) = (d.index == i) || any_index i ds

abbrev distinct : Accumulators → Bool
distinct [] = true
distinct ((j, acc) ∷ accs) = not (has_index j accs) && distinct accs

joined-append : (i : ℕ) (xs ys : List CallDelta) → joined i (xs ++ ys) ≡ joined i xs ++ joined i ys
joined-append i [] ys = refl
joined-append i (x ∷ xs) ys =
    ap (λ t. (if x.index == i then x.arguments else []) ++ t) (joined-append i xs ys)
    ∙ sym (append_assoc (if x.index == i then x.arguments else []) (joined i xs) (joined i ys))

any_index-append :
    (i : ℕ) (xs ys : List CallDelta) → any_index i (xs ++ ys) ≡ (any_index i xs || any_index i ys)
any_index-append i [] ys = refl
any_index-append i (x ∷ xs) ys = let h = any_index-append i xs ys in ground arith

has_index-accumulate :
    (i : ℕ) (d : CallDelta) (accs : Accumulators)
    → has_index i (accumulate d accs) ≡ ((d.index == i) || has_index i accs)
unfolding accumulate
has_index-accumulate i d [] = refl
has_index-accumulate i d ((j, acc) ∷ accs) = let h = has_index-accumulate i d accs in ground arith

distinct-accumulate :
    (d : CallDelta) (accs : Accumulators)
    → distinct accs ≡ true
    → distinct (accumulate d accs) ≡ true
unfolding accumulate
distinct-accumulate d [] h = refl
distinct-accumulate d ((j, acc) ∷ accs) h =
    let ih = distinct-accumulate d accs (ground arith) in
    let k = has_index-accumulate j d accs in ground arith

arguments-extend :
    (d : CallDelta) (acc : ToolCallRequest)
    → (extend d acc).arguments ≡ acc.arguments ++ d.arguments
arguments-extend d acc = go d.arguments
  where
    go :
        (t : Text) → (if is_empty t then acc.arguments else acc.arguments ++ t) ≡ acc.arguments ++ t
    go [] = sym (append-nil acc.arguments)
    go (c ∷ t) = refl

if-append :
    (b : Bool) (old new text rest : Text)
    → new ≡ old ++ text
    → (if b then new else rest) ≡ (if b then old else rest) ++ (if b then text else [])
if-append true old new text rest h = h
if-append false old new text rest h = sym (append-nil rest)

if-append_other :
    (b c : Bool) (a text rest new : Text)
    → (b && c) ≡ false
    → new ≡ rest ++ (if c then text else [])
    → (if b then a else new) ≡ (if b then a else rest) ++ (if c then text else [])
if-append_other true false a text rest new e h = sym (append-nil a)
if-append_other true true a text rest new e h = ground arith
if-append_other false c a text rest new e h = h

arguments_at-accumulate :
    (i : ℕ) (d : CallDelta) (accs : Accumulators)
    → arguments_at i (accumulate d accs)
      ≡ arguments_at i accs ++ (if d.index == i then d.arguments else [])
unfolding accumulate
arguments_at-accumulate i d [] =
    ap (λ t. if d.index == i then t else []) (arguments-extend d no_call)
arguments_at-accumulate i d ((j, acc) ∷ accs) =
    let h = arguments_at-accumulate i d accs in
    elim (Bool-cases (j == d.index)) [
      | inl f ↦
          (let k : (d.index == i) ≡ (j == i) = ground arith in
            rw f (
              rw k (
                if-append (j == i) acc.arguments (extend d acc).arguments d.arguments
                  (arguments_at i accs) (arguments-extend d acc))))
      | inr f ↦ rw f (
          if-append_other (j == i) (d.index == i) acc.arguments d.arguments (arguments_at i accs)
            (arguments_at i (accumulate d accs)) (ground arith) h)
    ]

has_index-insert :
    (i : ℕ) (x : ℕ × ToolCallRequest) (ys : Accumulators)
    → has_index i (insert x ys) ≡ ((x.0 == i) || has_index i ys)
has_index-insert i x [] = refl
has_index-insert i x (y ∷ ys) = let h = has_index-insert i x ys in ground arith

arguments_at-insert :
    (i : ℕ) (x : ℕ × ToolCallRequest) (ys : Accumulators)
    → arguments_at i (insert x ys) ≡ arguments_at i (x ∷ ys)
arguments_at-insert i x [] = refl
arguments_at-insert i x (y ∷ ys) = let h = arguments_at-insert i x ys in ground arith

rising-insert :
    (n : ℕ) (x : ℕ × ToolCallRequest) (ys : Accumulators)
    → n ≤ x.0
    → has_index x.0 ys ≡ false
    → rising n ys ≡ true
    → rising n (insert x ys) ≡ true
rising-insert n x [] h k r = ground arith
rising-insert n x (y ∷ ys) h k r = elim (Bool-cases (leb x.0 y.0)) [
  | inl e ↦ rw e (ground arith)
  | inr e ↦
      (let ih = rising-insert (y.0 + 1) x ys (ground arith) (ground arith) (ground arith) in
        rw e (ground arith))
]

has_index-accumulate_all :
    (i : ℕ) (ds : List CallDelta) (accs : Accumulators)
    → has_index i (accumulate_all ds accs) ≡ (has_index i accs || any_index i ds)
unfolding accumulate_all
has_index-accumulate_all i [] accs = ground arith
has_index-accumulate_all i (d ∷ ds) accs =
    let h = has_index-accumulate_all i ds (accumulate d accs) in
    let k = has_index-accumulate i d accs in ground arith

distinct-accumulate_all :
    (ds : List CallDelta) (accs : Accumulators)
    → distinct accs ≡ true
    → distinct (accumulate_all ds accs) ≡ true
unfolding accumulate_all
distinct-accumulate_all [] accs h = h
distinct-accumulate_all (d ∷ ds) accs h =
    distinct-accumulate_all ds (accumulate d accs) (distinct-accumulate d accs h)

arguments_at-accumulate_all :
    (i : ℕ) (ds : List CallDelta) (accs : Accumulators)
    → arguments_at i (accumulate_all ds accs) ≡ arguments_at i accs ++ joined i ds
unfolding accumulate_all
arguments_at-accumulate_all i [] accs = sym (append-nil (arguments_at i accs))
arguments_at-accumulate_all i (d ∷ ds) accs =
    arguments_at-accumulate_all i ds (accumulate d accs)
    ∙ ap (λ t. t ++ joined i ds) (arguments_at-accumulate i d accs)
    ∙ append_assoc (arguments_at i accs) (if d.index == i then d.arguments else []) (joined i ds)

accumulate_all-append :
    (ds es : List CallDelta) (accs : Accumulators)
    → accumulate_all (ds ++ es) accs ≡ accumulate_all es (accumulate_all ds accs)
unfolding accumulate_all
accumulate_all-append [] es accs = refl
accumulate_all-append (d ∷ ds) es accs = accumulate_all-append ds es (accumulate d accs)

accumulate_chunks-fragments :
    (chunks : List (Option Delta)) (accs : Accumulators)
    → accumulate_chunks chunks accs ≡ accumulate_all (fragments chunks) accs
unfolding accumulate_chunks accumulate_all
accumulate_chunks-fragments [] accs = refl
accumulate_chunks-fragments (none ∷ chunks) accs = accumulate_chunks-fragments chunks accs
accumulate_chunks-fragments (some d ∷ chunks) accs =
    accumulate_chunks-fragments chunks (accumulate_all d.tool_calls accs)
    ∙ sym (accumulate_all-append d.tool_calls (fragments chunks) accs)

has_index-sorted : (i : ℕ) (accs : Accumulators) → has_index i (sorted accs) ≡ has_index i accs
unfolding sorted
has_index-sorted i [] = refl
has_index-sorted i (x ∷ xs) =
    has_index-insert i x (sorted xs) ∙ ap (λ b. (x.0 == i) || b) (has_index-sorted i xs)

arguments_at-sorted :
    (i : ℕ) (accs : Accumulators) → arguments_at i (sorted accs) ≡ arguments_at i accs
unfolding sorted
arguments_at-sorted i [] = refl
arguments_at-sorted i (x ∷ xs) =
    arguments_at-insert i x (sorted xs)
    ∙ ap (λ t. if x.0 == i then x.1.arguments else t) (arguments_at-sorted i xs)

rising-sorted : (accs : Accumulators) → distinct accs ≡ true → rising 0 (sorted accs) ≡ true
unfolding sorted
rising-sorted [] h = refl
rising-sorted ((i, acc) ∷ xs) h =
    rising-insert 0 (i, acc) (sorted xs) (omega arith) (has_index-sorted i xs ∙ ground arith)
      (rising-sorted xs (ground arith))

-- The calls rise strictly in their index, have the indices of the fragments, and hold their arguments joined.
abbrev pub IsCallsOf : List CallDelta → Accumulators → Type 0
IsCallsOf ds calls =
    (rising 0 calls ≡ true)
    × ((i : ℕ) → has_index i calls ≡ any_index i ds)
    × ((i : ℕ) → arguments_at i calls ≡ joined i ds)

sorted-IsCallsOf : (ds : List CallDelta) → IsCallsOf ds (sorted (accumulate_all ds []))
sorted-IsCallsOf ds = (
  rising-sorted (accumulate_all ds []) (distinct-accumulate_all ds [] refl),
  (λ i. has_index-sorted i (accumulate_all ds []) ∙ has_index-accumulate_all i ds []),
  (λ i. arguments_at-sorted i (accumulate_all ds []) ∙ arguments_at-accumulate_all i ds []),
)

-- A completion whose stream ends by itself yields its text first and then tool calls whose indices rise strictly;
-- there is one for each index that a fragment has and for no other, and its arguments are those of
-- the index's fragments joined in the order in which they came.
pub stream_response-IsCallsOf :
    (E : Type 0) (chunks : List (Option Delta))
    → (calls : Accumulators) × ((stream_response {E = E} chunks Retry.finished).items
        ≡ text_events chunks ++ call_events calls)
      × IsCallsOf (fragments chunks) calls
unfolding stream_response
stream_response-IsCallsOf E chunks = (
  sorted (accumulate_chunks chunks []),
  refl,
  subst (λ a. IsCallsOf (fragments chunks) (sorted a)) (sym (accumulate_chunks-fragments chunks []))
      (sorted-IsCallsOf (fragments chunks)),
)
