-- ===== src/Marker/Stream.antt =====
-- `MarkerScanner` over a stream of chunks against a search of the whole stream.
use replstoke.Common.{
  ℕ, suc, ◌+◌, ◌-◌, ◌≡◌, ◌∙◌, sym, refl, ap, Bool, true, false, [], ◌∷◌, ◌++◌, Option, none, some,
  arith, Bytes, length, take, drop, Option-cases, inl, inr, append_assoc, take-append-drop,
  Bool-cases,
}
use mathlib.Core.Path.{subst}
use replstoke.Marker.Set.{Outcome, Markers, Match, is_empty, find_first, overlap_any}
use replstoke.Marker.Scanner.{more, done, MarkerScanner, new, cut_at, feed_buf, feed}
use replstoke.Marker.SetLaws.{
  ClearAll, shift_match, find_first-shift, emitted-ClearAll, ClearAll-append, ClearAll_join,
  ClearAll_nil,
}

-- A scanner that has emitted `out` of the stream `text` and has seen no match in it.
pub record Scanned (sc : MarkerScanner) (out text : Bytes) : Type 0 where
  pub running : sc.finished ≡ false
  pub split : out ++ sc.hold ≡ text
  pub clear : ClearAll sc.markers.list out sc.hold

-- What feeding `c` returns, by the first match in the whole stream `text ++ c`.
abbrev pub FeedsAs : MarkerScanner → Bytes → Bytes → Bytes → Option Match → Type 0
FeedsAs sc out text c none =
    (sc' : MarkerScanner) × (b : Bytes) × (feed sc c ≡ some (sc', more b))
    × (sc'.markers ≡ sc.markers)
    × (sc'.strip ≡ sc.strip)
    × Scanned sc' (out ++ b) (text ++ c)
FeedsAs sc out text c (some (p, n, o)) =
    (sc' : MarkerScanner) × (b : Bytes) × (feed sc c ≡ some (sc', done o b))
    × (out ++ b ≡ cut_at sc.strip (text ++ c) p n)

take-append_more : (xs ys : Bytes) (n : ℕ) → take (length xs + n) (xs ++ ys) ≡ xs ++ take n ys
take-append_more [] ys n = let e : 0 + n ≡ n = omega arith in rw e
take-append_more (x ∷ xs) ys n =
    let e : suc (length xs) + n ≡ suc (length xs + n) = omega arith in
    rw (e, take-append_more xs ys n)

drop-append_more : (xs ys : Bytes) (n : ℕ) → drop (length xs + n) (xs ++ ys) ≡ drop n ys
drop-append_more [] ys n = let e : 0 + n ≡ n = omega arith in rw e
drop-append_more (x ∷ xs) ys n =
    let e : suc (length xs) + n ≡ suc (length xs + n) = omega arith in
    rw (e, drop-append_more xs ys n)

cut_at-append :
    (strip : Bool) (out buf : Bytes) (p n : ℕ)
    → cut_at strip (out ++ buf) (length out + p) n ≡ out ++ cut_at strip buf p n
unfolding cut_at
cut_at-append true out buf p n = take-append_more out buf p
cut_at-append false out buf p n =
    let width : length out + p + n - (length out + p) ≡ p + n - p = omega arith in
    rw (take-append_more out buf p, drop-append_more out buf p, width, append_assoc)

module _ (sc : MarkerScanner) (out text c : Bytes) (s : Scanned sc out text) where
  abbrev buf : Bytes
  buf = sc.hold ++ c

  whole : out ++ buf ≡ text ++ c
  whole = rw (← s.split, append_assoc)

  passed : ClearAll sc.markers.list out buf
  passed = ClearAll-append sc.markers.list out sc.hold c s.clear

  feed_lem : feed sc c ≡ some (feed_buf sc buf (find_first sc.markers buf))
  unfolding feed
  feed_lem = rw s.running

  seen_whole :
      find_first sc.markers (text ++ c) ≡ shift_match (length out) (find_first sc.markers buf)
  seen_whole = rw (← whole) (find_first-shift sc.markers out buf passed)

  feed_none : find_first sc.markers buf ≡ none → FeedsAs sc out text c none
  unfolding feed_buf
  feed_none e =
      let emit_to = length buf - overlap_any sc.markers buf in
      let keeps = take-append-drop emit_to buf in
      let later = emitted-ClearAll sc.markers buf e in
      (
        record sc { hold = drop emit_to buf },
        take emit_to buf,
        rw (feed_lem, e),
        refl,
        refl,
        record {
          running = s.running;
          split =
              append_assoc out (take emit_to buf) (drop emit_to buf)
              ∙ ap (λ t. out ++ t) keeps
              ∙ whole;
          clear =
              ClearAll_join sc.markers.list out (take emit_to buf) (drop emit_to buf)
                (rw keeps passed) later;
        },
      )

  feed_some :
      (p n : ℕ) (o : Outcome)
      → find_first sc.markers buf ≡ some (p, n, o)
      → FeedsAs sc out text c (some (length out + p, n, o))
  unfolding feed_buf
  feed_some p n o e = (
    record sc { hold = []; finished = true },
    cut_at sc.strip buf p n,
    rw (feed_lem, e),
    rw (← whole) (sym (cut_at-append sc.strip out buf p n)),
  )

  -- For a scanner that has seen no match in its stream so far, however the stream was cut into
  -- chunks, feeding a chunk does what a search of the whole stream up to and with that chunk says:
  -- without a match bytes are emitted and the rest is held, with nothing lost; at the first match the
  -- scanner reports its outcome, and everything emitted is the stream up to that match, with the
  -- marker unless stripped.
  pub feed_FeedsAs : FeedsAs sc out text c (find_first sc.markers (text ++ c))
  feed_FeedsAs = elim (Option-cases (find_first sc.markers buf)) [
    | inl e ↦ rw (seen_whole, e) (feed_none e)
    | inr ((p, n, o), e) ↦ rw (seen_whole, e) (feed_some p n o e)
  ]

abbrev fresh_scanner : Markers → Bool → MarkerScanner
fresh_scanner ms strip = record { markers = ms; strip = strip; hold = []; finished = false }

fresh : (ms : Markers) (strip : Bool) → Scanned (fresh_scanner ms strip) [] []
fresh ms strip = record { running = refl; split = refl; clear = ClearAll_nil ms.list [] }

-- A new scanner has seen the empty stream.
pub new-Scanned :
    (ms : Markers) (strip : Bool) {sc : MarkerScanner} → new ms strip ≡ some sc → Scanned sc [] []
unfolding new
new-Scanned ms strip {sc} e = elim (Bool-cases (is_empty ms)) [
  | inl nothing ↦ absurd (ground arith)
  | inr set ↦
      let found : some (fresh_scanner ms strip) ≡ some sc = rw set at e in
      subst (λ sc. Scanned sc [] []) (cc) (fresh ms strip)
]
