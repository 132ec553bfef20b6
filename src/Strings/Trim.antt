-- ===== src/Strings/Trim.antt =====
-- `str::trim` of a valid UTF-8 text: `char::is_whitespace` is on the characters' encodings.
use replstoke.Common.{
  ℕ, zero, suc, ◌≡◌, refl, Bool, ◌&&◌, ◌||◌, [], ◌∷◌, ◌++◌, Option, none, some, arith,
  if◌then◌else◌, leb, ◌==◌, Bytes, length, is_nil, All,
}
use replstoke.Strings.Decimal.{IsDigit}

-- The white space of one, two and three bytes.
unfoldable pub is_space1 : ℕ → Bool
is_space1 a = (leb 9 a && leb a 13) || a == 32

unfoldable pub is_space2 : ℕ → ℕ → Bool
is_space2 a b = a == 194 && (b == 133 || b == 160)

unfoldable pub is_space3 : ℕ → ℕ → ℕ → Bool
is_space3 a b c =
    (a == 225 && (b == 154 && c == 128))
    || (a == 226
        && (b == 128 && ((leb 128 c && leb c 138) || (c == 168 || (c == 169 || c == 175)))))
    || (a == 226 && (b == 129 && c == 159))
    || (a == 227 && (b == 128 && c == 128))

-- What stands behind a leading white space.
unfoldable pub skip_space : Bytes → Option Bytes
unfolding is_space1 is_space2 is_space3
skip_space [] = none
skip_space (a ∷ []) = if is_space1 a then some [] else none
skip_space (a ∷ b ∷ []) =
    if is_space1 a then some (b ∷ []) else if is_space2 a b then some [] else none
skip_space (a ∷ b ∷ c ∷ s) =
    if is_space1 a
    then some (b ∷ c ∷ s)
    else if is_space2 a b
    then some (c ∷ s)
    else if is_space3 a b c
    then some s
    else none

-- The fuel `length s` is enough, as each round takes a byte.
unfoldable pub trim_loop : ℕ → Bytes → Bytes
trim_loop zero s = s
trim_loop (suc fuel) s = elim (skip_space s) [ none ↦ s | some r ↦ trim_loop fuel r ]

unfoldable pub trim_start : Bytes → Bytes
unfolding trim_loop
trim_start s = trim_loop (length s) s

unfoldable pub trim_end : Bytes → Bytes
trim_end [] = []
trim_end (c ∷ s) = let rest = trim_end s in if is_nil (trim_start (c ∷ s)) then [] else c ∷ rest

unfoldable pub trim : Bytes → Bytes
trim s = trim_end (trim_start s)

skip_space-digit : (c : ℕ) (s : Bytes) → IsDigit c → skip_space (c ∷ s) ≡ none
unfolding skip_space
skip_space-digit c [] h = ground arith
skip_space-digit c (a ∷ []) h = ground arith
skip_space-digit c (a ∷ b ∷ s) h = ground arith

trim_start-digit : (c : ℕ) (s : Bytes) → IsDigit c → trim_start (c ∷ s) ≡ c ∷ s
unfolding trim_start trim_loop
trim_start-digit c s h = ground (arith, skip_space-digit c s h)

trim_start-newline : trim_start (b'\n' ∷ []) ≡ []
unfolding trim_start skip_space
trim_start-newline = refl

trim_end-digits : (s : Bytes) → All IsDigit s → trim_end (s ++ (b'\n' ∷ [])) ≡ s
unfolding trim_end
trim_end-digits [] h = rw trim_start-newline refl
trim_end-digits (c ∷ s) h =
    rw (trim_start-digit c (s ++ (b'\n' ∷ [])) h.0, trim_end-digits s h.1) refl

-- A line of digits is trimmed to them.
pub trim-digits : (s : Bytes) → All IsDigit s → trim (s ++ (b'\n' ∷ [])) ≡ s
unfolding trim
trim-digits [] h = rw trim_start-newline (unfold trim_end in refl)
trim-digits (c ∷ s) h = rw (trim_start-digit c (s ++ (b'\n' ∷ [])) h.0) (trim_end-digits (c ∷ s) h)
