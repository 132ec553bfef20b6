-- ===== src/Marker/Bounds.antt =====
-- The places of a match in a buffer and in a set: src/marker.rs.
use replstoke.Common.{
  ℕ, suc, ◌+◌, ◌≤◌, ◌<◌, ◌≡◌, ap, List, [], ◌∷◌, Option, none, some, arith, false, ltb,
  if◌then◌else◌, Bytes, bytes_eq, eq_of_bytes_eq, length, take, All, Option-cases, Bool-cases, inl,
  inr, length-take,
}
use replstoke.Marker.Search.{find}
use replstoke.Marker.Set.{
  Outcome, Markers, Match, is_better, improve, find_loop, find_first, keep_nonempty, new, is_empty,
}
use replstoke.Marker.Clear.{find_cons}

-- No marker of the set is empty.
abbrev pub NonEmpty : List (Bytes × Outcome) → Type 0
NonEmpty ps = All (λ p. 0 < length p.0) ps

keep_nonempty_lem : (ps : List (Bytes × Outcome)) → NonEmpty (keep_nonempty ps)
unfolding keep_nonempty
keep_nonempty_lem [] = tt
keep_nonempty_lem (([], o) ∷ ps) = keep_nonempty_lem ps
keep_nonempty_lem ((b ∷ m, o) ∷ ps) = (omega arith, keep_nonempty_lem ps)

-- `Markers::new` drops what is empty.
pub new-NonEmpty : (ps : List (Bytes × Outcome)) → NonEmpty (new ps).list
unfolding new
new-NonEmpty ps = keep_nonempty_lem ps

find_in_nil : (m : Bytes) (p : ℕ) → find [] m ≡ some p → ⊥
unfolding find
find_in_nil m p e = ground arith

pub find_fits : (t m : Bytes) (p : ℕ) → find t m ≡ some p → p + length m ≤ length t
find_fits [] m p e = absurd (find_in_nil m p e)
find_fits (b ∷ t) m p e = elim (Bool-cases (bytes_eq (take (length m) (b ∷ t)) m)) [
  | inl here ↦
      let same = ap length (eq_of_bytes_eq (take (length m) (b ∷ t)) m here) in
      let first : p ≡ 0 = ground (arith, find_cons b t m) in
      omega (arith, length-take (length m) (b ∷ t))
  | inr later ↦ elim (Option-cases (find t m)) [
    | inl gone ↦ absurd (ground (arith, find_cons b t m))
    | inr (q, e') ↦
        let next : p ≡ suc q = ground (arith, find_cons b t m) in omega (arith, find_fits t m q e')
  ]
]

abbrev Fits : Bytes → Option Match → Type 0
Fits t none = Unit
Fits t (some (p, n, o)) = (p + n ≤ length t) × (0 < n)

improve-Fits :
    (t m : Bytes) (o : Outcome) (best : Option Match)
    → 0 < length m
    → Fits t best
    → Fits t (improve t m o best)
unfolding improve
improve-Fits t m o best pos h = elim (Option-cases (find t m)) [
  | inl e ↦ rw (improve, e) h
  | inr (p, e) ↦ rw (improve, e) (choose p best (find_fits t m p e) h)
]
  where
    choose :
        (p : ℕ) (b : Option Match)
        → p + length m ≤ length t
        → Fits t b
        → Fits t (if is_better p b then some (p, length m, o) else b)
    choose p none fits k = (fits, pos)
    choose p (some (bp, n, bo)) fits k = elim (Bool-cases (ltb p bp)) [
      | inl e ↦ rw e (fits, pos)
      | inr e ↦ rw e k
    ]

find_loop-Fits :
    (t : Bytes) (ps : List (Bytes × Outcome)) (best : Option Match)
    → NonEmpty ps
    → Fits t best
    → Fits t (find_loop t ps best)
unfolding find_loop
find_loop-Fits t [] best ne h = h
find_loop-Fits t ((m, o) ∷ ps) best ne h =
    find_loop-Fits t ps (improve t m o best) ne.1 (improve-Fits t m o best ne.0 h)

-- A match of a set without an empty marker is not empty and lies in the buffer.
pub find_first_fits :
    (ms : Markers) (t : Bytes) (p n : ℕ) (o : Outcome)
    → NonEmpty ms.list
    → find_first ms t ≡ some (p, n, o)
    → (p + n ≤ length t) × (0 < n)
unfolding find_first
find_first_fits ms t p n o ne e = let fits = find_loop-Fits t ms.list none ne tt in rw e at fits

-- A marker that is found belongs to a set with a marker.
pub found_active :
    (ms : Markers) (p : Bytes) (m : Match) → find_first ms p ≡ some m → is_empty ms ≡ false
unfolding find_first is_empty
found_active ms p m e = ground arith
