-- ===== src/Strings/Split.antt =====
-- `str::split_once` at one ASCII byte, and `Iterator::position`.
use replstoke.Common.{
  ℕ, suc, ◌≡◌, ◌≢◌, [], ◌∷◌, ◌++◌, Option, none, some, arith, ◌==◌, if◌then◌else◌, Bytes, All,
  length,
}
use mathlib.Core.Option

-- The index of the first byte equal to `sep`.
unfoldable pub position : ℕ → Bytes → Option ℕ
position sep [] = none
position sep (b ∷ bs) = if b == sep then some 0 else Option.map suc (position sep bs)

-- The parts before and after the first `sep`.
unfoldable pub split_once : ℕ → Bytes → Option (Bytes × Bytes)
split_once sep [] = none
split_once sep (b ∷ bs) =
    if b == sep then some ([], bs) else Option.map (λ p. (b ∷ p.0, p.1)) (split_once sep bs)

abbrev pub Lacks : ℕ → Bytes → Type 0
Lacks sep = All (λ c. c ≢ sep)

pub position-append :
    (sep : ℕ) (xs ys : Bytes) → Lacks sep xs → position sep (xs ++ sep ∷ ys) ≡ some (length xs)
unfolding position
position-append sep [] ys h = ground arith
position-append sep (x ∷ xs) ys h = ground (arith, position-append sep xs ys h.1)

pub split_once-append :
    (sep : ℕ) (xs ys : Bytes) → Lacks sep xs → split_once sep (xs ++ sep ∷ ys) ≡ some (xs, ys)
unfolding split_once
split_once-append sep [] ys h = ground arith
split_once-append sep (x ∷ xs) ys h = ground (arith, split_once-append sep xs ys h.1)
