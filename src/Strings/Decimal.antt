-- ===== src/Strings/Decimal.antt =====
-- `u16`, `u32` and `usize` printed by `format!`, zero padded, and read by `str::parse`.
use replstoke.Common.{
  ℕ, zero, suc, ◌+◌, ◌-◌, ◌*◌, ◌/◌, ◌%◌, ◌^◌, ◌≤◌, ◌<◌, ◌≡◌, refl, ◌||◌, [], ◌∷◌, ◌++◌, Option,
  none, some, arith, ltb, ◌==◌, if◌then◌else◌, Bytes, All, All-append, length, length-append, ◌∙◌,
  ap, ◌≢◌,
}

abbrev pub IsDigit : ℕ → Type 0
IsDigit c = (b'0' ≤ c) × (c ≤ b'9')

-- The decimal digits of `n` before `out`. The fuel `n + 1` is enough, as each round divides `n` by ten.
unfoldable pub digits : ℕ → ℕ → Bytes → Bytes
digits zero n out = out
digits (suc fuel) n out =
    let more = digits fuel (n / 10) ((b'0' + n % 10) ∷ out) in
    if ltb n 10 then (b'0' + n % 10) ∷ out else more

-- `format!("{n}")`.
unfoldable pub format_uint : ℕ → Bytes
unfolding digits
format_uint n = digits (n + 1) n []

unfoldable pub replicate_zero : ℕ → Bytes
replicate_zero zero = []
replicate_zero (suc k) = b'0' ∷ replicate_zero k

-- `format!("{n:0width$}")`: at least `width` digits.
unfoldable pub format_padded : ℕ → ℕ → Bytes
unfolding format_uint replicate_zero
format_padded width n = let s = format_uint n in replicate_zero (width - length s) ++ s

-- The loop of `from_str_radix`: checked multiplication and addition below `max`.
unfoldable pub scan_digits : ℕ → Bytes → ℕ → Option ℕ
scan_digits max [] n = some n
scan_digits max (c ∷ s) n =
    let rest = scan_digits max s (n * 10 + (c - b'0')) in
    if ltb c b'0' || ltb b'9' c then none else if ltb max (n * 10 + (c - b'0')) then none else rest

-- `s.parse::<uN>()` with `max` the type's largest value: a leading `+` is allowed before a digit.
unfoldable pub parse_uint : ℕ → Bytes → Option ℕ
unfolding scan_digits
parse_uint max [] = none
parse_uint max (c ∷ []) = if c == b'+' then none else scan_digits max (c ∷ []) 0
parse_uint max (c ∷ d ∷ s) =
    if c == b'+' then scan_digits max (d ∷ s) 0 else scan_digits max (c ∷ d ∷ s) 0

abbrev pub max_u16 : ℕ
max_u16 = 2 ^ 16 - 1

abbrev pub max_u32 : ℕ
max_u32 = 2 ^ 32 - 1

abbrev pub max_u64 : ℕ
max_u64 = 2 ^ 64 - 1

scan-digits :
    (max fuel n : ℕ) (out : Bytes)
    → n < fuel
    → n ≤ max
    → scan_digits max (digits fuel n out) 0 ≡ scan_digits max out n
unfolding digits scan_digits
scan-digits max zero n out h fits = absurd (omega arith)
scan-digits max (suc fuel) n out h fits =
    ground (arith, scan-digits max fuel (n / 10) ((b'0' + n % 10) ∷ out))

pub digits-All : (fuel n : ℕ) (out : Bytes) → All IsDigit out → All IsDigit (digits fuel n out)
unfolding digits
digits-All zero n out h = h
digits-All (suc fuel) n out h = ground (arith, digits-All fuel (n / 10) ((b'0' + n % 10) ∷ out))

-- How many digits a number below 10 ^ k has.
length-digits :
    (k fuel n : ℕ) (out : Bytes)
    → n < 10 ^ suc k
    → n < fuel
    → length (digits fuel n out) ≤ suc k + length out
unfolding digits
length-digits k zero n out h g = absurd (omega arith)
length-digits zero (suc fuel) n out h g = ground arith
length-digits (suc k) (suc fuel) n out h g =
    ground (arith, length-digits k fuel (n / 10) ((b'0' + n % 10) ∷ out))

length-replicate_zero : (k : ℕ) → length (replicate_zero k) ≡ k
unfolding replicate_zero
length-replicate_zero zero = ground arith
length-replicate_zero (suc k) = omega (arith, length-replicate_zero k)

replicate_zero-All : (k : ℕ) → All IsDigit (replicate_zero k)
unfolding replicate_zero
replicate_zero-All zero = tt
replicate_zero-All (suc k) = (omega arith, replicate_zero-All k)

scan-replicate_zero :
    (max k : ℕ) (s : Bytes) → scan_digits max (replicate_zero k ++ s) 0 ≡ scan_digits max s 0
unfolding scan_digits replicate_zero
scan-replicate_zero max zero s = refl
scan-replicate_zero max (suc k) s = ground (arith, scan-replicate_zero max k s)

pub length-format_uint : (k n : ℕ) → n < 10 ^ suc k → length (format_uint n) ≤ suc k
unfolding format_uint
length-format_uint k n h = omega (arith, length-digits k (n + 1) n [] h (omega arith))

-- A number that fits is printed with exactly `width` digits.
pub length-format_padded : (k n : ℕ) → n < 10 ^ suc k → length (format_padded (suc k) n) ≡ suc k
unfolding format_padded
length-format_padded k n h = omega (
  arith,
  length-append (replicate_zero (suc k - length (format_uint n))) (format_uint n),
  length-replicate_zero (suc k - length (format_uint n)),
  length-format_uint k n h,
)

pub format_padded-All : (k n : ℕ) → All IsDigit (format_padded k n)
unfolding format_padded
format_padded-All k n =
    All-append IsDigit (replicate_zero (k - length (format_uint n))) (format_uint n)
      (replicate_zero-All (k - length (format_uint n)))
      (unfold format_uint in digits-All (n + 1) n [] tt)

parse_uint-scan :
    (max : ℕ) (s : Bytes) → All IsDigit s → s ≢ [] → parse_uint max s ≡ scan_digits max s 0
unfolding parse_uint
parse_uint-scan max [] h ne = absurd (ne refl)
parse_uint-scan max (c ∷ []) h ne = ground arith
parse_uint-scan max (c ∷ d ∷ s) h ne = ground arith

-- A padded number is read back.
pub parse_uint-format_padded :
    (max k n : ℕ) → n < 10 ^ suc k → n ≤ max → parse_uint max (format_padded (suc k) n) ≡ some n
parse_uint-format_padded max k n h fits =
    parse_uint-scan max (format_padded (suc k) n) (format_padded-All (suc k) n) nonempty
    ∙ unfold format_padded in
      scan-replicate_zero max (suc k - length (format_uint n)) (format_uint n)
      ∙ unfold format_uint scan_digits in scan-digits max (n + 1) n [] (omega arith) fits
  where
    nonempty : format_padded (suc k) n ≢ []
    nonempty e = omega (arith, length-format_padded k n h, ap length e)

length-digits_le : (fuel n : ℕ) (out : Bytes) → length out ≤ length (digits fuel n out)
unfolding digits
length-digits_le zero n out = omega arith
length-digits_le (suc fuel) n out =
    ground (arith, length-digits_le fuel (n / 10) ((b'0' + n % 10) ∷ out))

format_uint-nonempty : (n : ℕ) → format_uint n ≢ []
unfolding format_uint digits
format_uint-nonempty n e =
    ground (arith, length-digits_le (n + 0) (n / 10) ((b'0' + n % 10) ∷ []), ap length e)

pub format_uint-All : (n : ℕ) → All IsDigit (format_uint n)
unfolding format_uint
format_uint-All n = digits-All (n + 1) n [] tt

-- A number is read back.
pub parse_uint-format_uint : (max n : ℕ) → n ≤ max → parse_uint max (format_uint n) ≡ some n
unfolding scan_digits
parse_uint-format_uint max n fits =
    parse_uint-scan max (format_uint n) (format_uint-All n) (format_uint-nonempty n)
    ∙ unfold format_uint in scan-digits max (n + 1) n [] (omega arith) fits
