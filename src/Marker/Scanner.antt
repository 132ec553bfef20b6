-- ===== src/Marker/Scanner.antt =====
-- `MarkerScanner` of src/marker.rs: it stops at the first match. A failed `assert!` is `none`.
use replstoke.Common.{
  ℕ, ◌+◌, ◌-◌, Bool, true, false, [], ◌++◌, Option, none, some, if◌then◌else◌, Bytes, length, take,
  drop, slice,
}
use replstoke.Marker.Set.{Outcome, Markers, Match, is_empty, find_first, overlap_any}

-- The result of feeding a chunk.
pub data Feed : Type 0 where
  more : Bytes → Feed
  done : Outcome → Bytes → Feed

pub record MarkerScanner : Type 0 where
  pub markers : Markers
  pub strip : Bool
  pub hold : Bytes
  pub finished : Bool  -- `done`

unfoldable pub new : Markers → Bool → Option MarkerScanner
unfolding is_empty
new markers strip =
    if is_empty markers
    then none
    else some (record { markers = markers; strip = strip; hold = []; finished = false })

-- `buf[..pos]`, with the marker behind it unless it is stripped.
unfoldable pub cut_at : Bool → Bytes → ℕ → ℕ → Bytes
cut_at strip buf pos len = if strip then take pos buf else take pos buf ++ slice pos (pos + len) buf

-- `feed` on the held bytes and the chunk.
unfoldable pub feed_buf : MarkerScanner → Bytes → Option Match → MarkerScanner × Feed
unfolding cut_at
feed_buf sc buf (some (pos, len, outcome)) =
    (record sc { hold = []; finished = true }, done outcome (cut_at sc.strip buf pos len))
feed_buf sc buf none =
    let emit_to = length buf - overlap_any sc.markers buf in
    (record sc { hold = drop emit_to buf }, more (take emit_to buf))

unfoldable pub feed : MarkerScanner → Bytes → Option (MarkerScanner × Feed)
unfolding feed_buf
feed sc chunk =
    let buf = sc.hold ++ chunk in
    if sc.finished then none else some (feed_buf sc buf (find_first sc.markers buf))

-- Bytes still held back when the stream ends without a match.
unfoldable pub flush : MarkerScanner → Bytes
flush sc = sc.hold
