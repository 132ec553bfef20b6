-- ===== src/Marker/Response.antt =====
-- `ResponseScanner` of src/marker.rs: it goes on behind each match and counts the matches.
use replstoke.Common.{
  ℕ, zero, suc, ◌+◌, ◌-◌, Bool, [], ◌++◌, none, some, if◌then◌else◌, Bytes, length, take, drop,
  slice,
}
use replstoke.Marker.Set.{Markers, is_empty, find_first, overlap_any}

pub record ResponseScanner : Type 0 where
  pub markers : Markers
  pub strip : Bool
  pub hold : Bytes

unfoldable pub new : Markers → Bool → ResponseScanner
new markers strip = record { markers = markers; strip = strip; hold = [] }

-- The variables of the loop of `feed`.
pub record Progress : Type 0 where
  pub emit : Bytes
  pub found : ℕ
  pub start : ℕ

-- One round behind a match at `rel` in `buf[start..]`.
unfoldable pub advance : Bool → Bytes → Progress → ℕ → ℕ → Progress
advance strip buf v rel len =
    let pos = v.start + rel in
    let before = v.emit ++ slice v.start pos buf in
    record {
      emit = if strip then before else before ++ slice pos (pos + len) buf;
      found = v.found + 1;
      start = pos + len;
    }

-- `while let Some(..) = find(&buf[start..])`. A match is no empty marker, so each round moves `start`
-- and the length of `buf` is enough fuel.
unfoldable pub matches : ℕ → Markers → Bool → Bytes → Progress → Progress
unfolding advance
matches zero ms strip buf v = v
matches (suc fuel) ms strip buf v = elim (find_first ms (drop v.start buf)) [
  | none ↦ v
  | some (rel, len, o) ↦ matches fuel ms strip buf (advance strip buf v rel len)
]

-- The bytes to forward and the number of markers found.
unfoldable pub feed : ResponseScanner → Bytes → ResponseScanner × Bytes × ℕ
unfolding is_empty matches
feed sc chunk =
    let buf = sc.hold ++ chunk in
    let v =
      matches (length buf) sc.markers sc.strip buf (record { emit = []; found = 0; start = 0 }) in
    let rest = drop v.start buf in
    let emit_to = length rest - overlap_any sc.markers rest in
    if is_empty sc.markers
    then (sc, chunk, 0)
    else (record sc { hold = drop emit_to rest }, v.emit ++ take emit_to rest, v.found)

unfoldable pub flush : ResponseScanner → Bytes
flush sc = sc.hold
