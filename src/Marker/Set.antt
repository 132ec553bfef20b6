-- ===== src/Marker/Set.antt =====
-- `Outcome` and `Markers` of src/marker.rs: several markers on one stream.
use replstoke.Common.{
  ℕ, ◌≡◌, refl, Bool, true, List, [], ◌∷◌, Option, none, some, ltb, leb, if◌then◌else◌, Bytes,
  codes, length, is_nil,
}
use replstoke.Marker.Search.{find, overlap}

-- What a matched marker signals about the response.
pub data Outcome : Type 0 where
  end error : Outcome

pub record Markers : Type 0 where
  pub list : List (Bytes × Outcome)

-- A match: its position, the marker's length and its outcome.
abbrev pub Match : Type 0
Match = ℕ × ℕ × Outcome

-- `filter(|(m, _)| !m.is_empty())`.
unfoldable pub keep_nonempty : List (Bytes × Outcome) → List (Bytes × Outcome)
keep_nonempty [] = []
keep_nonempty ((m, o) ∷ ps) = if is_nil m then keep_nonempty ps else (m, o) ∷ keep_nonempty ps

unfoldable pub new : List (Bytes × Outcome) → Markers
unfolding keep_nonempty
new patterns = record { list = keep_nonempty patterns }

unfoldable pub is_empty : Markers → Bool
is_empty ms = is_nil ms.list

-- `best.is_none_or(|(bp, _, _)| pos < bp)`.
abbrev pub is_better : ℕ → Option Match → Bool
is_better pos none = true
is_better pos (some (bp, n, o)) = ltb pos bp

-- One round of the loop of `Markers::find`.
unfoldable pub improve : Bytes → Bytes → Outcome → Option Match → Option Match
improve buf marker outcome best = elim (find buf marker) [
  | none ↦ best
  | some pos ↦ if is_better pos best then some (pos, length marker, outcome) else best
]

unfoldable pub find_loop : Bytes → List (Bytes × Outcome) → Option Match → Option Match
unfolding improve
find_loop buf [] best = best
find_loop buf ((m, o) ∷ ps) best = find_loop buf ps (improve buf m o best)

-- The earliest match, of the marker listed first if two begin at one place.
unfoldable pub find_first : Markers → Bytes → Option Match
unfolding find_loop
find_first ms buf = find_loop buf ms.list none

-- `max().unwrap_or(0)` over the markers.
unfoldable pub max_overlap : Bytes → List (Bytes × Outcome) → ℕ
max_overlap buf [] = 0
max_overlap buf ((m, o) ∷ ps) =
    let k = overlap buf m in let rest = max_overlap buf ps in if leb k rest then rest else k

unfoldable pub overlap_any : Markers → Bytes → ℕ
unfolding max_overlap
overlap_any ms buf = max_overlap buf ms.list

abbrev pub two_markers : Markers
two_markers = record { list = (codes "END", end) ∷ (codes "ERR", error) ∷ [] }

first_wins : find_first two_markers (codes "a ERR END") ≡ some (2, 3, error)
unfolding find_first find
first_wins = refl
