-- ===== src/Marker/Clear.antt =====
-- Where a marker cannot begin: the theory behind holding back a suffix.
use replstoke.Common.{
  ℕ, zero, suc, ◌-◌, ◌≤◌, ◌<◌, min, ◌≡◌, ◌≢◌, refl, ap, true, false, [], ◌∷◌, ◌++◌, Option, none,
  some, arith, leb, if◌then◌else◌, Bytes, bytes_eq, bytes_eq_refl, eq_of_bytes_eq, length, take,
  drop, append_assoc, Bool-cases, inl, inr, ◌⊎◌, take-append-drop, length-drop, length-take,
  leb_of_lt, lt_of_leb,
}
use mathlib.Core.Option
use native.Mathlib.Decide.{ℕ_discrete}
use replstoke.Marker.Search.{find, windows, position_of, overlap, overlap_from}

-- Neither text contradicts the other: one is a prefix of the other.
abbrev pub Agrees : Bytes → Bytes → Type 0
Agrees [] t = Unit
Agrees (x ∷ s) [] = Unit
Agrees (x ∷ s) (y ∷ t) = (x ≡ y) × Agrees s t

-- The marker begins at no byte of `passed`, whatever follows `rest`.
abbrev pub Clear : Bytes → Bytes → Bytes → Type 0
Clear m [] rest = Unit
Clear m (b ∷ passed) rest = (¬ Agrees m (b ∷ passed ++ rest)) × Clear m passed rest

Agrees-of_append : (m t c : Bytes) → Agrees m (t ++ c) → Agrees m t
Agrees-of_append [] t c h = tt
Agrees-of_append (x ∷ m) [] c h = tt
Agrees-of_append (x ∷ m) (y ∷ t) c h = (h.0, Agrees-of_append m t c h.1)

-- More input changes nothing.
pub Clear-append : (m passed rest c : Bytes) → Clear m passed rest → Clear m passed (rest ++ c)
Clear-append m [] rest c h = tt
Clear-append m (b ∷ passed) rest c h = (
  λ a. h.0 (Agrees-of_append m (b ∷ passed ++ rest) c (rw append_assoc a)),
  Clear-append m passed rest c h.1,
)

pub Clear-join :
    (m p q rest : Bytes) → Clear m p (q ++ rest) → Clear m q rest → Clear m (p ++ q) rest
Clear-join m [] q rest h k = k
Clear-join m (b ∷ p) q rest h k = (rw append_assoc h.0, Clear-join m p q rest h.1 k)

Agrees-take : (m t : Bytes) → take (length m) t ≡ m → Agrees m t
Agrees-take [] t h = tt
Agrees-take (x ∷ m) [] h = tt
Agrees-take (x ∷ m) (y ∷ t) h = (cc, Agrees-take m t (cc))

-- A text that agrees with the marker holds it in front, or ends within it.
Agrees-cases :
    (m t : Bytes)
    → Agrees m t
    → (take (length m) t ≡ m) ⊎ ((length t < length m) × (take (length t) m ≡ t))
Agrees-cases [] t h = inl refl
Agrees-cases (x ∷ m) [] h = inr (omega arith, refl)
Agrees-cases (x ∷ m) (y ∷ t) h = elim (Agrees-cases m t h.1) [
  | inl whole ↦ inl (cc)
  | inr (short, within) ↦ inr (omega arith, cc)
]

take_short : (m t : Bytes) → length t < length m → bytes_eq (take (length m) t) m ≡ false
take_short m t h = elim (Bool-cases (bytes_eq (take (length m) t) m)) [
  | inr e ↦ e
  | inl e ↦
      absurd (
        omega (arith, length-take (length m) t, ap length (eq_of_bytes_eq (take (length m) t) m e)))
]

search_short : (m t : Bytes) → length t < length m → position_of m (windows (length m) t) ≡ none
unfolding position_of windows
search_short m [] h = refl
search_short m (b ∷ t) h = rw (leb_of_lt (length m) (length (b ∷ t)) h)

find_search : (t m : Bytes) → find t m ≡ position_of m (windows (length m) t)
unfolding find
find_search t m = ground (arith, search_short m t)

-- `find` as a recursion: the marker is in front, or somewhere behind the first byte.
pub find_cons :
    (b : ℕ) (t m : Bytes)
    → find (b ∷ t) m
      ≡ (if bytes_eq (take (length m) (b ∷ t)) m then some 0 else Option.map suc (find t m))
unfolding windows position_of
find_cons b t m = elim (Bool-cases (leb (length m) (length (b ∷ t)))) [
  | inl fits ↦ rw (find_search (b ∷ t) m, find_search t m, windows, fits, position_of)
  | inr short ↦
      let lt : length (b ∷ t) < length m = lt_of_leb _ _ short in
      rw (
        find_search (b ∷ t) m,
        find_search t m,
        search_short m (b ∷ t) lt,
        search_short m t (omega arith),
        take_short m (b ∷ t) lt,
      )
]

abbrev pub shift : ℕ → Option ℕ → Option ℕ
shift zero o = o
shift (suc n) o = Option.map suc (shift n o)

-- A search skips what is clear.
pub find-Clear :
    (m passed rest : Bytes)
    → Clear m passed rest
    → find (passed ++ rest) m ≡ shift (length passed) (find rest m)
find-Clear m [] rest h = refl
find-Clear m (b ∷ passed) rest h =
    rw (find_cons b (passed ++ rest) m, differs, find-Clear m passed rest h.1)
  where
    differs : bytes_eq (take (length m) (b ∷ passed ++ rest)) m ≡ false
    differs = elim (Bool-cases (bytes_eq (take (length m) (b ∷ passed ++ rest)) m)) [
      | inr e ↦ e
      | inl e ↦ absurd (h.0 (Agrees-take m (b ∷ passed ++ rest) (eq_of_bytes_eq _ m e)))
    ]

-- No match, so the marker is in front at no place.
find-none : (m t : Bytes) (q : ℕ) → q < length t → find t m ≡ none → take (length m) (drop q t) ≢ m
find-none m [] q h none_found e = absurd (omega arith)
find-none m (b ∷ t) zero h none_found e =
    let same : bytes_eq (take (length m) (b ∷ t)) m ≡ true = rw e (bytes_eq_refl m) in
    ground (arith, find_cons b t m)
find-none m (b ∷ t) (suc q) h none_found e =
    find-none m t q (omega arith) (ground (arith, find_cons b t m)) e

overlap_from-max :
    (n : ℕ) (buf m : Bytes) (k : ℕ)
    → 0 < k
    → k ≤ n
    → drop (length buf - k) buf ≡ take k m
    → k ≤ overlap_from n buf m
unfolding overlap_from
overlap_from-max zero buf m k h le e = absurd (omega arith)
overlap_from-max (suc n) buf m k h le e = elim (ℕ_discrete k (suc n)) [
  | yes same ↦
      let hit : bytes_eq (drop (length buf - suc n) buf) (take (suc n) m) ≡ true =
        rw (← same, e) (bytes_eq_refl (take k m)) in
      rw hit le
  | no other ↦ ground (arith, overlap_from-max n buf m k h (omega arith) e)
]

overlap_from-le : (n : ℕ) (buf m : Bytes) → overlap_from n buf m ≤ n
unfolding overlap_from
overlap_from-le zero buf m = omega arith
overlap_from-le (suc n) buf m = ground (arith, overlap_from-le n buf m)

pub overlap-le : (buf m : Bytes) → overlap buf m ≤ length buf
unfolding overlap
overlap-le buf m = omega (arith, overlap_from-le (min (length m - 1) (length buf)) buf m)

-- No longer suffix is a proper prefix of the marker.
overlap-max :
    (buf m : Bytes) (q : ℕ)
    → q < length buf
    → length buf - q < length m
    → take (length buf - q) m ≡ drop q buf
    → length buf - q ≤ overlap buf m
unfolding overlap
overlap-max buf m q h short e =
    let back : length buf - (length buf - q) ≡ q = omega arith in
    overlap_from-max (min (length m - 1) (length buf)) buf m (length buf - q) (omega arith)
      (omega arith) (rw (back, e))

-- Before what is held back, a text without a match agrees with the marker nowhere.
not-Agrees-drop :
    (m buf : Bytes) (keep q : ℕ)
    → find buf m ≡ none
    → overlap buf m ≤ keep
    → q < length buf - keep
    → ¬ Agrees m (drop q buf)
not-Agrees-drop m buf keep q none_found bound below agrees =
    elim (Agrees-cases m (drop q buf) agrees) [
      | inl whole ↦ find-none m buf q (omega arith) none_found whole
      | inr (short, within) ↦
          let len : length (drop q buf) ≡ length buf - q = length-drop q buf in
          let held = overlap-max buf m q (omega arith) (omega arith) (rw len at within) in
          omega arith
    ]

Clear-of_drop :
    (m buf : Bytes) (n : ℕ)
    → n ≤ length buf
    → ((q : ℕ) → q < n → ¬ Agrees m (drop q buf))
    → Clear m (take n buf) (drop n buf)
Clear-of_drop m buf zero h all = tt
Clear-of_drop m [] (suc n) h all = absurd (omega arith)
Clear-of_drop m (b ∷ buf) (suc n) h all = (
  rw (take-append-drop n buf) (all 0 (omega arith)),
  Clear-of_drop m buf n (omega arith) (λ q lt. all (suc q) (omega arith)),
)

-- What a scanner lets go is clear, if it keeps at least the overlap.
pub emitted-Clear :
    (m buf : Bytes) (keep : ℕ)
    → find buf m ≡ none
    → overlap buf m ≤ keep
    → Clear m (take (length buf - keep) buf) (drop (length buf - keep) buf)
emitted-Clear m buf keep none_found bound =
    Clear-of_drop m buf (length buf - keep) (omega arith)
      (λ q below. not-Agrees-drop m buf keep q none_found bound below)
