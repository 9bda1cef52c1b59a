-- ===== src/Bench/Capture.antt =====
-- bench/media_capture.py: the sequencing of a media channel, and the capture with hard limits.
use telnyx_onset.Prelude.{
  ℕ, zero, suc, ◌+◌, ◌-◌, ◌*◌, ◌/◌, ◌%◌, ◌^◌, ◌≤◌, ◌<◌, min, max, ◌≡◌, refl, sym, ap, ap₂, ◌∙◌,
  subst, ◌≢◌, ◌↔◌, ◌⊎◌, inl, inr, Bool, true, false, not, ◌&&◌, ◌||◌, Option, none, some, List, [],
  ◌∷◌, ◌++◌, map, append-nil, append_assoc, arith, ltb, leb, ◌==◌, if◌then◌else◌, ltb→lt, lt→ltb,
  ltb→le, leb→le, le→leb, leb→lt, lt→leb, ==_iff, ==_refl, Bool-cases, Option-cases, length, take,
  drop, replicate, concat, is_empty, All, length-append, take-append-drop, length-take, length-drop,
  length-replicate, take-append, drop-append, All-append, All-map, Text, codes, text_eq, text_eq→eq,
  text_eq_refl, is_space, lstrip, rstrip, strip,
}
use telnyx_onset.Audio.{Bytes}
use telnyx_onset.Bench.Tokens.{CaptureError, capture_limit_reached, track_missing, not_media}
pub mod Limits
pub mod Order

-- What the tracker reads of a frame: a media frame, or another with its sequence number, if it has one.
pub record MediaFrame : Type 0 where
  pub sequence_number : ℕ
  pub track : Text
  pub chunk : ℕ
  pub timestamp : ℕ
  pub pcm16 : Bytes

pub data ProbeFrame : Type 0 where
  media : MediaFrame → ProbeFrame
  lifecycle : Option ℕ → ProbeFrame

pub record OrderingCounts : Type 0 where
  pub duplicates : ℕ
  pub sequence_gaps : ℕ
  pub sequence_regressions : ℕ
  pub chunk_gaps : ℕ
  pub chunk_regressions : ℕ
  pub timestamp_regressions : ℕ

-- `last` is the dict of a track's last chunk and timestamp, newest first; `seen` the set of identities.
pub record OrderingTracker : Type 0 where
  pub counts : OrderingCounts
  pub last : List (Text × (ℕ × ℕ))
  pub last_sequence : Option ℕ
  pub seen : List (Text × (ℕ × (ℕ × ℕ)))

unfoldable pub new_tracker : OrderingTracker
new_tracker = record {
  counts = record {
    duplicates = 0;
    sequence_gaps = 0;
    sequence_regressions = 0;
    chunk_gaps = 0;
    chunk_regressions = 0;
    timestamp_regressions = 0;
  };
  last = [];
  last_sequence = none;
  seen = [];
}

abbrev pub identity : MediaFrame → Text × (ℕ × (ℕ × ℕ))
identity f = (f.track, (f.sequence_number, (f.chunk, f.timestamp)))

abbrev pub same_identity : Text × (ℕ × (ℕ × ℕ)) → Text × (ℕ × (ℕ × ℕ)) → Bool
same_identity (t, (s, (c, u))) (t', (s', (c', u'))) =
    text_eq t t' && (s == s' && (c == c' && u == u'))

abbrev pub was_seen : Text × (ℕ × (ℕ × ℕ)) → List (Text × (ℕ × (ℕ × ℕ))) → Bool
was_seen x [] = false
was_seen x (y ∷ ys) = same_identity y x || was_seen x ys

abbrev pub lookup {ℓ} : {A : Type ℓ} → Text → List (Text × A) → Option A
lookup k [] = none
lookup k ((k', v) ∷ rest) = let found = lookup k rest in if text_eq k' k then some v else found

-- The counts after a sequence number that follows the last one.
abbrev pub count_sequence : Option ℕ → ℕ → OrderingCounts → OrderingCounts
count_sequence none sequence c = c
count_sequence (some last) sequence c =
    if sequence == last
    then record c { duplicates = c.duplicates + 1 }
    else if ltb sequence last
    then record c { sequence_regressions = c.sequence_regressions + 1 }
    else if ltb (last + 1) sequence
    then record c { sequence_gaps = c.sequence_gaps + (sequence - last - 1) }
    else c

unfoldable pub observe_sequence : Option ℕ → OrderingTracker → OrderingTracker
observe_sequence none t = t
observe_sequence (some sequence) t = record t {
  counts = count_sequence t.last_sequence sequence t.counts;
  last_sequence = some sequence;
}

abbrev pub count_chunk : ℕ → ℕ → OrderingCounts → OrderingCounts
count_chunk last chunk c =
    if ltb chunk last
    then record c { chunk_regressions = c.chunk_regressions + 1 }
    else if ltb (last + 1) chunk
    then record c { chunk_gaps = c.chunk_gaps + (chunk - last - 1) }
    else c

abbrev pub count_timestamp : ℕ → ℕ → OrderingCounts → OrderingCounts
count_timestamp last timestamp c =
    if ltb timestamp last
    then record c { timestamp_regressions = c.timestamp_regressions + 1 }
    else c

abbrev pub count_track : Option (ℕ × ℕ) → MediaFrame → OrderingCounts → OrderingCounts
count_track none f c = c
count_track (some (chunk, timestamp)) f c =
    count_timestamp timestamp f.timestamp (count_chunk chunk f.chunk c)

unfoldable pub observe_track : MediaFrame → OrderingTracker → OrderingTracker
observe_track f t = record t {
  counts = count_track (lookup f.track t.last) f t.counts;
  last = (f.track, (f.chunk, f.timestamp)) ∷ t.last;
}

unfoldable pub observe_frame : ProbeFrame → OrderingTracker → OrderingTracker
unfolding observe_sequence observe_track
observe_frame (lifecycle sequence) t = observe_sequence sequence t
observe_frame (media f) t =
    if was_seen (identity f) t.seen
    then record t { counts = record t.counts { duplicates = t.counts.duplicates + 1 } }
    else observe_track f
        (observe_sequence (some f.sequence_number) (record t { seen = identity f ∷ t.seen }))

unfoldable pub unresolved : OrderingTracker → Bool
unresolved t =
    let c = t.counts in
    not (c.duplicates == 0)
    || not (c.sequence_gaps == 0)
    || not (c.sequence_regressions == 0)
    || not (c.chunk_gaps == 0)
    || not (c.chunk_regressions == 0)
    || not (c.timestamp_regressions == 0)

-- `tracks` is the dict of the PCM of each track. `frames` keeps the frames taken, in their order.
pub record BoundedCapture : Type 0 where
  pub maximum : ℕ
  pub max_rows : ℕ
  pub tracks : List (Text × Bytes)
  pub frames : List MediaFrame
  pub ordering : OrderingTracker

unfoldable pub empty_capture : ℕ → ℕ → List Text → BoundedCapture
unfolding new_tracker
empty_capture max_bytes_per_track max_event_rows tracks = record {
  maximum = max_bytes_per_track;
  max_rows = max_event_rows;
  tracks = map (λ track. (track, [])) tracks;
  frames = [];
  ordering = new_tracker;
}

abbrev pub has_track : Text → List Text → Bool
has_track t [] = false
has_track t (u ∷ us) = text_eq u t || has_track t us

-- The test of the lengths of the tuple and of its set, and that of the names.
abbrev pub distinct : List Text → Bool
distinct [] = true
distinct (t ∷ ts) = not (has_track t ts) && distinct ts

abbrev pub some_blank : List Text → Bool
some_blank [] = false
some_blank (t ∷ ts) = is_empty t || some_blank ts

-- `none` stands for the ValueError.
unfoldable pub new_capture : ℕ → ℕ → List Text → Option BoundedCapture
unfolding empty_capture
new_capture max_bytes_per_track max_event_rows tracks =
    if (max_bytes_per_track == 0)
      || (max_event_rows == 0)
      || is_empty tracks
      || not (distinct tracks)
      || some_blank tracks
    then none
    else some (empty_capture max_bytes_per_track max_event_rows tracks)

-- `extend` on the bytearray of a track.
abbrev pub extend : Text → Bytes → List (Text × Bytes) → List (Text × Bytes)
extend k pcm [] = []
extend k pcm ((k', v) ∷ rest) =
    let others = extend k pcm rest in
    if text_eq k' k then (k', v ++ pcm) ∷ rest else (k', v) ∷ others

abbrev pub append_to :
    Option Bytes → MediaFrame → BoundedCapture → BoundedCapture × Option CaptureError
append_to none f c = (c, some track_missing)
append_to (some target) f c =
    if ltb c.maximum (length target + length f.pcm16) then (c, some capture_limit_reached) else (
      record c {
        tracks = extend f.track f.pcm16 c.tracks;
        frames = c.frames ++ (f ∷ []);
        ordering = observe_frame (media f) c.ordering;
      },
      none,
    )

unfoldable pub append : MediaFrame → BoundedCapture → BoundedCapture × Option CaptureError
unfolding observe_frame
append f c =
    if leb c.max_rows (length c.frames)
    then (c, some capture_limit_reached)
    else append_to (lookup f.track c.tracks) f c

unfoldable pub observe_non_media :
    ProbeFrame → BoundedCapture → BoundedCapture × Option CaptureError
unfolding observe_frame
observe_non_media (media f) c = (c, some not_media)
observe_non_media (lifecycle n) c =
    (record c { ordering = observe_frame (lifecycle n) c.ordering }, none)
