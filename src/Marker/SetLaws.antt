-- ===== src/Marker/SetLaws.antt =====
-- Several markers: the earliest match moves with the text that is passed, and one bound on the overlap
-- serves every marker.
use replstoke.Common.{
  ℕ, zero, suc, ◌+◌, ◌-◌, ◌≤◌, ◌≡◌, ◌≢◌, refl, List, [], ◌∷◌, ◌++◌, Option, none, some, arith,
  if◌then◌else◌, Bytes, length, take, drop, All, Option-cases, inl, inr,
}
use replstoke.Marker.Search.{find}
use replstoke.Marker.Set.{
  Outcome, Markers, Match, is_better, improve, find_loop, find_first, max_overlap, overlap_any,
}
use replstoke.Marker.Clear.{
  Clear, Clear-append, Clear-join, shift, find-Clear, emitted-Clear, overlap-le,
}

abbrev pub ClearAll : List (Bytes × Outcome) → Bytes → Bytes → Type 0
ClearAll ps passed rest = All (λ p. Clear p.0 passed rest) ps

-- The match, seen from `n` bytes further to the left.
abbrev pub shift_match : ℕ → Option Match → Option Match
shift_match n none = none
shift_match n (some (p, l, o)) = some (n + p, l, o)

shift-none : (n : ℕ) → shift n none ≡ none
shift-none zero = refl
shift-none (suc n) = rw (shift-none n)

shift-some : (n p : ℕ) → shift n (some p) ≡ some (n + p)
shift-some zero p = ground arith
shift-some (suc n) p = rw (shift-some n p) (ground arith)

find-shift_none :
    (passed rest m : Bytes)
    → Clear m passed rest
    → find rest m ≡ none
    → find (passed ++ rest) m ≡ none
find-shift_none passed rest m clear e =
    rw (find-Clear m passed rest clear, e) (shift-none (length passed))

find-shift_some :
    (passed rest m : Bytes) (p : ℕ)
    → Clear m passed rest
    → find rest m ≡ some p
    → find (passed ++ rest) m ≡ some (length passed + p)
find-shift_some passed rest m p clear e =
    rw (find-Clear m passed rest clear, e) (shift-some (length passed) p)

improve-shift :
    (passed rest m : Bytes) (o : Outcome) (best : Option Match)
    → Clear m passed rest
    → improve (passed ++ rest) m o (shift_match (length passed) best)
      ≡ shift_match (length passed) (improve rest m o best)
unfolding improve
improve-shift passed rest m o best clear = elim (Option-cases (find rest m)) [
  | inl e ↦ rw (improve, e, find-shift_none passed rest m clear e)
  | inr (p, e) ↦ rw (improve, e, find-shift_some passed rest m p clear e) (better p best)
]
  where
    better :
        (p : ℕ) (b : Option Match)
        → (if is_better (length passed + p) (shift_match (length passed) b)
            then some (length passed + p, length m, o)
            else shift_match (length passed) b)
          ≡ shift_match (length passed) (if is_better p b then some (p, length m, o) else b)
    better p none = refl
    better p (some (bp, n, bo)) = ground arith

find_loop-shift :
    (passed rest : Bytes) (ps : List (Bytes × Outcome)) (best : Option Match)
    → ClearAll ps passed rest
    → find_loop (passed ++ rest) ps (shift_match (length passed) best)
      ≡ shift_match (length passed) (find_loop rest ps best)
unfolding find_loop
find_loop-shift passed rest [] best clear = refl
find_loop-shift passed rest ((m, o) ∷ ps) best clear =
    rw (improve-shift passed rest m o best clear.0)
      (find_loop-shift passed rest ps (improve rest m o best) clear.1)

-- The earliest match behind a clear text, seen from its start.
pub find_first-shift :
    (ms : Markers) (passed rest : Bytes)
    → ClearAll ms.list passed rest
    → find_first ms (passed ++ rest) ≡ shift_match (length passed) (find_first ms rest)
unfolding find_first
find_first-shift ms passed rest clear = find_loop-shift passed rest ms.list none clear

find_loop-some :
    (buf : Bytes) (ps : List (Bytes × Outcome)) (b : Match) → find_loop buf ps (some b) ≢ none
unfolding find_loop improve
find_loop-some buf [] b e = cc
find_loop-some buf ((m, o) ∷ ps) b e = elim (Option-cases (improve buf m o (some b))) [
  | inl gone ↦ ground arith
  | inr (b', is) ↦ find_loop-some buf ps b' (rw (← is) e)
]

-- No match in the set, so none of any marker.
pub find_loop-none :
    (buf : Bytes) (ps : List (Bytes × Outcome))
    → find_loop buf ps none ≡ none
    → All (λ p. find buf p.0 ≡ none) ps
unfolding find_loop improve
find_loop-none buf [] e = tt
find_loop-none buf ((m, o) ∷ ps) e = elim (Option-cases (find buf m)) [
  | inl gone ↦ (gone, find_loop-none buf ps (ground arith))
  | inr (p, is) ↦ absurd (find_loop-some buf ps (p, length m, o) (ground arith))
]

max_overlap-le : (buf : Bytes) (ps : List (Bytes × Outcome)) → max_overlap buf ps ≤ length buf
unfolding max_overlap
max_overlap-le buf [] = omega arith
max_overlap-le buf ((m, o) ∷ ps) = ground (arith, overlap-le buf m, max_overlap-le buf ps)

pub overlap_any-le : (ms : Markers) (buf : Bytes) → overlap_any ms buf ≤ length buf
unfolding overlap_any
overlap_any-le ms buf = max_overlap-le buf ms.list

emitted_loop :
    (buf : Bytes) (keep : ℕ) (ps : List (Bytes × Outcome))
    → max_overlap buf ps ≤ keep
    → All (λ p. find buf p.0 ≡ none) ps
    → ClearAll ps (take (length buf - keep) buf) (drop (length buf - keep) buf)
unfolding max_overlap
emitted_loop buf keep [] bound none_found = tt
emitted_loop buf keep ((m, o) ∷ ps) bound none_found = (
  emitted-Clear m buf keep none_found.0 (ground arith),
  emitted_loop buf keep ps (ground arith) none_found.1,
)

-- What a scanner lets go after a failed search is clear of every marker.
pub emitted-ClearAll :
    (ms : Markers) (buf : Bytes)
    → find_first ms buf ≡ none
    → let emit_to = length buf - overlap_any ms buf in
      ClearAll ms.list (take emit_to buf) (drop emit_to buf)
unfolding find_first overlap_any
emitted-ClearAll ms buf e =
    emitted_loop buf (overlap_any ms buf) ms.list (omega arith) (find_loop-none buf ms.list e)

pub ClearAll-append :
    (ps : List (Bytes × Outcome)) (passed rest c : Bytes)
    → ClearAll ps passed rest
    → ClearAll ps passed (rest ++ c)
ClearAll-append [] passed rest c h = tt
ClearAll-append ((m, o) ∷ ps) passed rest c h =
    (Clear-append m passed rest c h.0, ClearAll-append ps passed rest c h.1)

pub ClearAll_join :
    (ps : List (Bytes × Outcome)) (p q rest : Bytes)
    → ClearAll ps p (q ++ rest)
    → ClearAll ps q rest
    → ClearAll ps (p ++ q) rest
ClearAll_join [] p q rest h k = tt
ClearAll_join ((m, o) ∷ ps) p q rest h k =
    (Clear-join m p q rest h.0 k.0, ClearAll_join ps p q rest h.1 k.1)

pub ClearAll_nil : (ps : List (Bytes × Outcome)) (rest : Bytes) → ClearAll ps [] rest
ClearAll_nil [] rest = tt
ClearAll_nil (p ∷ ps) rest = (tt, ClearAll_nil ps rest)
