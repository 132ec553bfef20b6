-- ===== src/Strings/Utf8.antt =====
-- `String::from_utf8_lossy` and `str::from_utf8`, byte by byte. A maximal ill-formed piece becomes one
-- U+FFFD, and the byte that ends it is read again as a first byte.
use replstoke.Common.{
  ℕ, ◌<◌, ◌≡◌, refl, ◌&&◌, List, [], ◌∷◌, ◌++◌, Option, none, some, arith, ltb, leb, ◌==◌,
  if◌then◌else◌, Bytes, All,
}

-- The ranges of the bytes that are still to come in a sequence, and its bytes so far.
pub record Partial : Type 0 where
  pub ranges : List (ℕ × ℕ)
  pub seen : Bytes

abbrev fresh : Partial
fresh = record { ranges = []; seen = [] }

abbrev cont : ℕ × ℕ
cont = (0x80, 0xBF)

-- The ranges that may follow the first byte of a sequence of two to four bytes; `none` for a byte that
-- begins no sequence.
unfoldable pub follow : ℕ → Option (List (ℕ × ℕ))
follow b =
    if leb 0xC2 b && leb b 0xDF
    then some (cont ∷ [])
    else if b == 0xE0
    then some ((0xA0, 0xBF) ∷ cont ∷ [])
    else if b == 0xED
    then some ((0x80, 0x9F) ∷ cont ∷ [])
    else if leb 0xE1 b && leb b 0xEF
    then some (cont ∷ cont ∷ [])
    else if b == 0xF0
    then some ((0x90, 0xBF) ∷ cont ∷ cont ∷ [])
    else if leb 0xF1 b && leb b 0xF3
    then some (cont ∷ cont ∷ cont ∷ [])
    else if b == 0xF4
    then some ((0x80, 0x8F) ∷ cont ∷ cont ∷ [])
    else none

-- U+FFFD.
abbrev pub replacement : Bytes
replacement = 0xEF ∷ 0xBF ∷ 0xBD ∷ []

-- What a byte at the start of a sequence emits, and the sequence that it begins.
unfoldable pub begin_with : ℕ → Bytes × Partial
unfolding follow
begin_with b = if ltb b 0x80 then (b ∷ [], fresh) else elim (follow b) [
  | none ↦ (replacement, fresh)
  | some rs ↦ ([], record { ranges = rs; seen = b ∷ [] })
]

-- A byte that does not go on ends an ill-formed piece, and is read again as a first byte.
decode_ranges : Bytes → ℕ → List (ℕ × ℕ) → Bytes × Partial
unfolding begin_with
decode_ranges seen b [] = begin_with b
decode_ranges seen b ((lo, hi) ∷ []) =
    if leb lo b && leb b hi
    then (seen ++ b ∷ [], fresh)
    else (replacement ++ (begin_with b).0, (begin_with b).1)
decode_ranges seen b ((lo, hi) ∷ r ∷ rs) =
    if leb lo b && leb b hi
    then ([], record { ranges = r ∷ rs; seen = seen ++ b ∷ [] })
    else (replacement ++ (begin_with b).0, (begin_with b).1)

unfoldable pub decode_step : Partial → ℕ → Bytes × Partial
unfolding decode_ranges
decode_step p b = decode_ranges p.seen b p.ranges

unfoldable pub decode_from : Partial → Bytes → Bytes
unfolding decode_step
decode_from p [] = elim p.ranges [ [] ↦ [] | r ∷ rs ↦ replacement ]
decode_from p (b ∷ bs) = let (out, q) = decode_step p b in out ++ decode_from q bs

-- `String::from_utf8_lossy(b).into_owned()`.
unfoldable pub from_utf8_lossy : Bytes → Bytes
unfolding decode_from
from_utf8_lossy = decode_from fresh

abbrev pub IsAscii : ℕ → Type 0
IsAscii b = b < 0x80

-- A text of ASCII bytes is decoded to itself.
pub from_utf8_lossy-ascii : (s : Bytes) → All IsAscii s → from_utf8_lossy s ≡ s
unfolding from_utf8_lossy
from_utf8_lossy-ascii [] h = refl
from_utf8_lossy-ascii (b ∷ s) h = ground (arith, from_utf8_lossy-ascii s h.1)

lossy_keeps :
    from_utf8_lossy (0x61 ∷ 0xC3 ∷ 0xA9 ∷ 0xE2 ∷ 0x82 ∷ 0xAC ∷ [])
    ≡ 0x61 ∷ 0xC3 ∷ 0xA9 ∷ 0xE2 ∷ 0x82 ∷ 0xAC ∷ []
unfolding from_utf8_lossy
lossy_keeps = refl

-- One mark for a piece cut short, and the next byte is kept.
lossy_replaces :
    from_utf8_lossy (0xE2 ∷ 0x82 ∷ 0x41 ∷ 0xFF ∷ []) ≡ replacement ++ 0x41 ∷ replacement
unfolding from_utf8_lossy
lossy_replaces = refl
