-- ===== src/Marker/Search.antt =====
-- `find` and `overlap` of src/marker.rs: one marker in one buffer.
use replstoke.Common.{
  ℕ, zero, suc, ◌-◌, min, ◌≡◌, refl, List, [], ◌∷◌, Option, none, some, ltb, leb, if◌then◌else◌,
  Bytes, bytes_eq, codes, length, take, drop,
}
use mathlib.Core.Option

-- `windows(n)` for a positive `n`.
unfoldable pub windows : ℕ → Bytes → List Bytes
windows n [] = []
windows n (b ∷ bs) = if leb n (length (b ∷ bs)) then take n (b ∷ bs) ∷ windows n bs else []

-- `position(|w| w == needle)`.
unfoldable pub position_of : Bytes → List Bytes → Option ℕ
position_of needle [] = none
position_of needle (w ∷ ws) =
    if bytes_eq w needle then some 0 else Option.map suc (position_of needle ws)

-- An empty needle would panic in `windows`; `Markers` holds none.
unfoldable pub find : Bytes → Bytes → Option ℕ
unfolding windows position_of
find haystack needle =
    if ltb (length haystack) (length needle)
    then none
    else position_of needle (windows (length needle) haystack)

-- The loop `for len in (1..=max).rev()`.
unfoldable pub overlap_from : ℕ → Bytes → Bytes → ℕ
overlap_from zero buf marker = 0
overlap_from (suc len) buf marker =
    if bytes_eq (drop (length buf - suc len) buf) (take (suc len) marker)
    then suc len
    else overlap_from len buf marker

-- The longest suffix of `buf` that is a proper prefix of `marker`.
unfoldable pub overlap : Bytes → Bytes → ℕ
unfolding overlap_from
overlap buf marker = overlap_from (min (length marker - 1) (length buf)) buf marker

find_second : find (codes "xabab") (codes "ab") ≡ some 1
unfolding find
find_second = refl

overlap_longest : overlap (codes "xaba") (codes "abab") ≡ 3
unfolding overlap
overlap_longest = refl
