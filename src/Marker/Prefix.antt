-- ===== src/Marker/Prefix.antt =====
-- A match found once more bytes have come ends behind the bytes searched before: src/marker.rs.
use replstoke.Common.{
  ℕ, suc, ◌+◌, ◌≤◌, ◌<◌, ◌≡◌, true, List, [], ◌∷◌, ◌++◌, Option, none, some, ap, refl, arith, ltb,
  if◌then◌else◌, Bytes, bytes_eq, length, take, take-append_le, length-take, eq_of_bytes_eq, All,
  Option-cases, Bool-cases, inl, inr,
}
use replstoke.Marker.Search.{find}
use replstoke.Marker.Set.{Outcome, Markers, Match, is_better, improve, find_loop, find_first}
use replstoke.Marker.Clear.{find_cons}
use replstoke.Marker.SetLaws.{find_loop-none}
use replstoke.Marker.Bounds.{NonEmpty, find_fits}

find_behind :
    (u v m : Bytes) (p : ℕ)
    → 0 < length m
    → find u m ≡ none
    → find (u ++ v) m ≡ some p
    → length u < p + length m
find_behind [] v m p pos missed e = omega arith
find_behind (b ∷ u) v m p pos missed e =
    elim (Bool-cases (bytes_eq (take (length m) (b ∷ u ++ v)) m)) [
      | inl here ↦ let first : p ≡ 0 = ground (arith, find_cons b (u ++ v) m) in short first here
      | inr later ↦ elim (Option-cases (find (u ++ v) m)) [
        | inl gone ↦ absurd (ground (arith, find_cons b (u ++ v) m))
        | inr (q, e') ↦
            let next : p ≡ suc q = ground (arith, find_cons b (u ++ v) m) in
            let before : find u m ≡ none = ground (arith, find_cons b u m) in
            omega (arith, find_behind u v m q pos before e')
      ]
    ]
  where
    short : p ≡ 0 → bytes_eq (take (length m) (b ∷ u ++ v)) m ≡ true → length (b ∷ u) < p + length m
    short first here = elim (Bool-cases (ltb (length (b ∷ u)) (length m))) [
      | inl lt ↦ ground arith
      | inr ge ↦
          let le : length m ≤ length (b ∷ u) = ground arith in
          let same = rw (take-append_le (length m) (b ∷ u) v le) at here in
          absurd (ground (arith, find_cons b u m))
    ]

-- The match, if any, ends behind the first `n` bytes.
abbrev Behind : ℕ → Option Match → Type 0
Behind n none = Unit
Behind n (some (p, len, o)) = n < p + len

improve-Behind :
    (u v m : Bytes) (o : Outcome) (best : Option Match)
    → 0 < length m
    → find u m ≡ none
    → Behind (length u) best
    → Behind (length u) (improve (u ++ v) m o best)
unfolding improve
improve-Behind u v m o best pos missed h = elim (Option-cases (find (u ++ v) m)) [
  | inl e ↦ rw (improve, e) h
  | inr (p, e) ↦ rw (improve, e) (choose p best (find_behind u v m p pos missed e) h)
]
  where
    choose :
        (p : ℕ) (b : Option Match)
        → length u < p + length m
        → Behind (length u) b
        → Behind (length u) (if is_better p b then some (p, length m, o) else b)
    choose p none late k = late
    choose p (some (bp, n, bo)) late k = elim (Bool-cases (ltb p bp)) [
      | inl e ↦ rw e late
      | inr e ↦ rw e k
    ]

find_loop-Behind :
    (u v : Bytes) (ps : List (Bytes × Outcome)) (best : Option Match)
    → NonEmpty ps
    → All (λ p. find u p.0 ≡ none) ps
    → Behind (length u) best
    → Behind (length u) (find_loop (u ++ v) ps best)
unfolding find_loop
find_loop-Behind u v [] best ne missed h = h
find_loop-Behind u v ((m, o) ∷ ps) best ne missed h =
    find_loop-Behind u v ps (improve (u ++ v) m o best) ne.1 missed.1
      (improve-Behind u v m o best ne.0 missed.0 h)

-- A search that fails on `u` and succeeds with more bytes has found a match that ends behind `u`.
find_first_behind :
    (ms : Markers) (u v : Bytes) (p n : ℕ) (o : Outcome)
    → NonEmpty ms.list
    → find_first ms u ≡ none
    → find_first ms (u ++ v) ≡ some (p, n, o)
    → length u < p + n
unfolding find_first
find_first_behind ms u v p n o ne missed e =
    let late = find_loop-Behind u v ms.list none ne (find_loop-none u ms.list missed) tt in
    rw e at late

-- A text that holds a match of a longer one to its end has a match itself.
pub find_first_within :
    (ms : Markers) (u v : Bytes) (p n : ℕ) (o : Outcome)
    → NonEmpty ms.list
    → find_first ms (u ++ v) ≡ some (p, n, o)
    → p + n ≤ length u
    → (m : Match) × (find_first ms u ≡ some m)
find_first_within ms u v p n o ne e h = elim (Option-cases (find_first ms u)) [
  | inl missed ↦ absurd (omega (arith, find_first_behind ms u v p n o ne missed e))
  | inr found ↦ found
]

find-prefix_none : (u v m : Bytes) → 0 < length m → find (u ++ v) m ≡ none → find u m ≡ none
find-prefix_none [] v m pos e = elim (Option-cases (find [] m)) [
  | inl gone ↦ gone
  | inr (p, is) ↦ absurd (omega (arith, find_fits [] m p is))
]
find-prefix_none (b ∷ u) v m pos e = elim (Option-cases (find (b ∷ u) m)) [
  | inl gone ↦ gone
  | inr (p, is) ↦ elim (Bool-cases (bytes_eq (take (length m) (b ∷ u)) m)) [
    | inl here ↦
        let fits = ap length (eq_of_bytes_eq (take (length m) (b ∷ u)) m here) in
        let le : length m ≤ length (b ∷ u) = omega (arith, length-take (length m) (b ∷ u)) in
        let same = rw (← take-append_le (length m) (b ∷ u) v le) at here in
        absurd (ground (arith, find_cons b (u ++ v) m))
    | inr later ↦
        let rest : find (u ++ v) m ≡ none = ground (arith, find_cons b (u ++ v) m) in
        absurd (ground (arith, find_cons b u m, find-prefix_none u v m pos rest))
  ]
]

find_loop-prefix_none :
    (u v : Bytes) (ps : List (Bytes × Outcome))
    → NonEmpty ps
    → All (λ p. find (u ++ v) p.0 ≡ none) ps
    → find_loop u ps none ≡ none
unfolding find_loop improve
find_loop-prefix_none u v [] ne missed = refl
find_loop-prefix_none u v ((m, o) ∷ ps) ne missed =
    rw (improve, find-prefix_none u v m ne.0 missed.0) (find_loop-prefix_none u v ps ne.1 missed.1)

-- A text without a match begins with none that has one.
pub find_first-prefix_none :
    (ms : Markers) (u v : Bytes)
    → NonEmpty ms.list
    → find_first ms (u ++ v) ≡ none
    → find_first ms u ≡ none
unfolding find_first
find_first-prefix_none ms u v ne e =
    find_loop-prefix_none u v ms.list ne (find_loop-none (u ++ v) ms.list e)
