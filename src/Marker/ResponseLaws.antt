-- ===== src/Marker/ResponseLaws.antt =====
-- Lemmas on `ResponseScanner.feed`: its loop and what one chunk keeps.
use replstoke.Common.{
  ℕ, zero, suc, ◌+◌, ◌-◌, ◌≤◌, ◌<◌, ◌≡◌, ◌∙◌, refl, ap, Bool, true, false, [], ◌++◌, none, some,
  arith, Bytes, length, take, drop, slice, Option-cases, Bool-cases, inl, inr, append_assoc,
  append-nil, take-append-drop, length-drop, length-append, drop-drop,
}
use replstoke.Marker.Set.{Outcome, Markers, Match, is_empty, find_first, overlap_any}
use replstoke.Marker.Response.{ResponseScanner, Progress, advance, matches, feed}
use replstoke.Marker.Bounds.{NonEmpty, find_first_fits}

-- The loop has emitted the buffer up to `start`.
record Kept (buf : Bytes) (v : Progress) : Type 0 where
  inside : v.start ≤ length buf
  whole : v.emit ++ drop v.start buf ≡ buf

slice_append_drop : (lo hi : ℕ) (xs : Bytes) → lo ≤ hi → slice lo hi xs ++ drop hi xs ≡ drop lo xs
slice_append_drop lo hi xs h =
    let e : lo + (hi - lo) ≡ hi = omega arith in
    let cut = take-append-drop (hi - lo) (drop lo xs) in rw (drop-drop (hi - lo) lo xs, e) at cut

advance-Kept :
    (buf : Bytes) (v : Progress) (rel n : ℕ)
    → v.start + rel + n ≤ length buf
    → Kept buf v
    → Kept buf (advance false buf v rel n)
unfolding advance
advance-Kept buf v rel n fits k = record {
  inside = fits;
  whole =
      let pos = v.start + rel in
      append_assoc (v.emit ++ slice v.start pos buf) (slice pos (pos + n) buf) (drop (pos + n) buf)
      ∙ append_assoc v.emit (slice v.start pos buf) (slice pos (pos + n) buf ++ drop (pos + n) buf)
      ∙ ap (λ t. v.emit ++ (slice v.start pos buf ++ t))
          (slice_append_drop pos (pos + n) buf (omega arith))
      ∙ ap (λ t. v.emit ++ t) (slice_append_drop v.start pos buf (omega arith))
      ∙ k.whole;
}

module _ (ms : Markers) (ne : NonEmpty ms.list) (buf : Bytes) where
  fits_behind :
      (start rel n : ℕ) (o : Outcome)
      → start ≤ length buf
      → find_first ms (drop start buf) ≡ some (rel, n, o)
      → (start + rel + n ≤ length buf) × (0 < n)
  fits_behind start rel n o h e =
      let (fits, pos) = find_first_fits ms (drop start buf) rel n o ne e in
      (omega (arith, length-drop start buf), pos)

  matches-Kept : (fuel : ℕ) (v : Progress) → Kept buf v → Kept buf (matches fuel ms false buf v)
  unfolding matches
  matches-Kept zero v k = k
  matches-Kept (suc fuel) v k = elim (Option-cases (find_first ms (drop v.start buf))) [
    | inl e ↦ rw (matches, e) k
    | inr ((rel, n, o), e) ↦
        rw (matches, e)
          (matches-Kept fuel (advance false buf v rel n)
            (advance-Kept buf v rel n (fits_behind v.start rel n o k.inside e).0 k))
  ]

  -- With a set without empty markers and as much fuel as bytes are left, the loop of the response
  -- scanner's feed ends inside the buffer with no match behind its end.
  pub matches_end :
      (strip : Bool) (fuel : ℕ) (v : Progress)
      → v.start ≤ length buf
      → length buf ≤ v.start + fuel
      → let w = matches fuel ms strip buf v in
        (w.start ≤ length buf) × (find_first ms (drop w.start buf) ≡ none)
  unfolding matches
  matches_end strip zero v h enough = elim (Option-cases (find_first ms (drop v.start buf))) [
    | inl e ↦ (h, e)
    | inr ((rel, n, o), e) ↦ let found = fits_behind v.start rel n o h e in absurd (omega arith)
  ]
  matches_end strip (suc fuel) v h enough = elim (Option-cases (find_first ms (drop v.start buf))) [
    | inl e ↦ rw (matches, e) (h, e)
    | inr ((rel, n, o), e) ↦
        let (fits, pos) = fits_behind v.start rel n o h e in
        rw (matches, e)
          (unfold advance in
            matches_end strip fuel (advance strip buf v rel n) (omega arith) (omega arith))
  ]

  -- No match, no round; a match, at least one.
  found_grows :
      (strip : Bool) (fuel : ℕ) (v : Progress) → v.found ≤ (matches fuel ms strip buf v).found
  unfolding matches advance
  found_grows strip zero v = omega arith
  found_grows strip (suc fuel) v = elim (Option-cases (find_first ms (drop v.start buf))) [
    | inl e ↦ rw (matches, e) (omega arith)
    | inr ((rel, n, o), e) ↦
        rw (matches, e) (omega (arith, found_grows strip fuel (advance strip buf v rel n)))
  ]

  start_grows :
      (strip : Bool) (fuel : ℕ) (v : Progress) → v.start ≤ (matches fuel ms strip buf v).start
  unfolding matches advance
  start_grows strip zero v = omega arith
  start_grows strip (suc fuel) v = elim (Option-cases (find_first ms (drop v.start buf))) [
    | inl e ↦ rw (matches, e) (omega arith)
    | inr ((rel, n, o), e) ↦
        rw (matches, e) (omega (arith, start_grows strip fuel (advance strip buf v rel n)))
  ]

abbrev pub origin : Progress
origin = record { emit = []; found = 0; start = 0 }

pub matches_idle :
    (ms : Markers) (strip : Bool) (fuel : ℕ) (buf : Bytes)
    → find_first ms buf ≡ none
    → matches fuel ms strip buf origin ≡ origin
unfolding matches
matches_idle ms strip zero buf e = refl
matches_idle ms strip (suc fuel) buf e = rw (matches, e)

pub matches_behind :
    (ms : Markers) (strip : Bool) (fuel : ℕ) (buf : Bytes) (p n : ℕ) (o : Outcome)
    → 0 < fuel
    → NonEmpty ms.list
    → find_first ms buf ≡ some (p, n, o)
    → p + n ≤ (matches fuel ms strip buf origin).start
unfolding matches advance
matches_behind ms strip zero buf p n o h ne e = absurd (omega arith)
matches_behind ms strip (suc fuel) buf p n o h ne e =
    rw (matches, e) (omega (arith, start_grows ms ne buf strip fuel (advance strip buf origin p n)))

pub matches_found :
    (ms : Markers) (strip : Bool) (fuel : ℕ) (buf : Bytes) (m : Match)
    → NonEmpty ms.list
    → 0 < fuel
    → find_first ms buf ≡ some m
    → 0 < (matches fuel ms strip buf origin).found
unfolding matches advance
matches_found ms strip zero buf m ne h e = absurd (omega arith)
matches_found ms strip (suc fuel) buf (rel, n, o) ne h e =
    rw (matches, e)
      (omega (arith, found_grows ms ne buf strip fuel (advance strip buf origin rel n)))

-- A response scanner whose set has no empty marker, and which holds nothing if detection is off.
pub record IsSound (sc : ResponseScanner) : Type 0 where
  pub nonempty : NonEmpty sc.markers.list
  pub passes : is_empty sc.markers ≡ true → sc.hold ≡ []

-- What one chunk leaves: the loop's result, the bytes behind the last match, and how many of them go out.
module _ (sc : ResponseScanner) (c : Bytes) where
  abbrev pub buf_of : Bytes
  buf_of = sc.hold ++ c

  abbrev pub last_of : Progress
  last_of = matches (length buf_of) sc.markers sc.strip buf_of origin

  abbrev pub rest_of : Bytes
  rest_of = drop last_of.start buf_of

  abbrev pub cut_of : ℕ
  cut_of = length rest_of - overlap_any sc.markers rest_of

  pub feed_on :
      is_empty sc.markers ≡ false
      → feed sc c ≡ (
        record sc { hold = drop cut_of rest_of },
        last_of.emit ++ take cut_of rest_of,
        last_of.found,
      )
  unfolding feed
  feed_on e = rw e

  pub feed_off : is_empty sc.markers ≡ true → feed sc c ≡ (sc, c, 0)
  unfolding feed
  feed_off e = rw e

  pub feed-settings : ((feed sc c).0.markers ≡ sc.markers) × ((feed sc c).0.strip ≡ sc.strip)
  feed-settings = elim (Bool-cases (is_empty sc.markers)) [
    | inl off ↦ rw (feed_off off) (refl, refl)
    | inr on ↦ rw (feed_on on) (refl, refl)
  ]

  kept_last : IsSound sc → sc.strip ≡ false → last_of.emit ++ rest_of ≡ buf_of
  kept_last s plain =
      let k =
        matches-Kept sc.markers s.nonempty buf_of (length buf_of) origin
          (record { inside = omega arith; whole = refl }) in
      rw plain k.whole

  -- Without stripping, a chunk that completes a match lets at least the match out.
  pub feed_past :
      (p n : ℕ) (o : Outcome)
      → IsSound sc
      → sc.strip ≡ false
      → is_empty sc.markers ≡ false
      → find_first sc.markers buf_of ≡ some (p, n, o)
      → p + n ≤ length (feed sc c).1
  feed_past p n o s plain on e =
      let fits = find_first_fits sc.markers buf_of p n o s.nonempty e in
      let behind =
        matches_behind sc.markers sc.strip (length buf_of) buf_of p n o (omega arith) s.nonempty
          e in
      let k =
        matches-Kept sc.markers s.nonempty buf_of (length buf_of) origin
          (record { inside = omega arith; whole = refl }) in
      let whole = ap length (kept_last s plain) in
      let inside : last_of.start ≤ length buf_of = rw plain k.inside in
      rw (feed_on on) (
        omega (
          arith,
          whole,
          length-drop last_of.start buf_of,
          length-append last_of.emit rest_of,
          length-append last_of.emit (take cut_of rest_of),
        ))

  -- A response scanner without empty markers, which holds nothing if it has no marker, and which does
  -- not strip, loses and adds no byte: what goes out followed by what is held back is what was held
  -- back followed by the chunk.
  pub feed_keeps :
      IsSound sc → sc.strip ≡ false → (feed sc c).1 ++ (feed sc c).0.hold ≡ sc.hold ++ c
  feed_keeps s plain = elim (Bool-cases (is_empty sc.markers)) [
    | inl off ↦ rw (feed_off off, s.passes off) (append-nil c)
    | inr on ↦ rw (feed_on on) (
        append_assoc last_of.emit (take cut_of rest_of) (drop cut_of rest_of)
        ∙ ap (λ t. last_of.emit ++ t) (take-append-drop cut_of rest_of)
        ∙ kept_last s plain)
  ]
