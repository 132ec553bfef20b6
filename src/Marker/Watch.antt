-- ===== src/Marker/Watch.antt =====
-- `ResponseScanner` over a stream of chunks, with the stream since its last boundary: src/marker.rs.
use replstoke.Common.{
  ℕ, ◌<◌, ◌≡◌, ◌∙◌, sym, refl, ap, Bool, false, List, [], ◌++◌, Option, none, some, arith, ◌↔◌,
  Bytes, length, take, drop, Option-cases, inl, inr, append_assoc, take-append-drop,
}
use replstoke.Marker.Set.{Outcome, Match, is_empty, find_first, new as new_markers}
use replstoke.Marker.Response.{ResponseScanner, feed, new}
use replstoke.Marker.SetLaws.{
  ClearAll, shift_match, find_first-shift, emitted-ClearAll, ClearAll-append, ClearAll_join,
  ClearAll_nil,
}
use replstoke.Marker.Bounds.{find_first_fits, new-NonEmpty}
use replstoke.Marker.ResponseLaws.{
  origin, matches_idle, matches_found, matches_end, IsSound, feed_on, buf_of, last_of, rest_of,
  cut_of,
}

-- The stream since the last boundary is `text`: `passed` went out and the rest is held back.
pub record Watches (sc : ResponseScanner) (passed text : Bytes) : Type 0 where
  pub sound : IsSound sc
  pub active : is_empty sc.markers ≡ false
  pub split : passed ++ sc.hold ≡ text
  pub clear : ClearAll sc.markers.list passed sc.hold

pub shift_match-none : (n : ℕ) (m : Option Match) → shift_match n m ≡ none → m ≡ none
shift_match-none n none e = refl
shift_match-none n (some (p, l, o)) e = cc

module _ (sc : ResponseScanner) (passed text c : Bytes) (w : Watches sc passed text) where
  pub seen_whole :
      find_first sc.markers (text ++ c)
      ≡ shift_match (length passed) (find_first sc.markers (buf_of sc c))
  seen_whole =
      let whole : passed ++ buf_of sc c ≡ text ++ c = rw (← w.split, append_assoc) in
      rw (← whole) (
        find_first-shift sc.markers passed (buf_of sc c)
          (ClearAll-append sc.markers.list passed sc.hold c w.clear))

  on : feed sc c ≡ (
    record sc { hold = drop (cut_of sc c) (rest_of sc c) },
    (last_of sc c).emit ++ take (cut_of sc c) (rest_of sc c),
    (last_of sc c).found,
  )
  on = feed_on sc c w.active

  not_found : find_first sc.markers (buf_of sc c) ≡ none → (feed sc c).2 ≡ 0
  not_found e = rw (on, matches_idle sc.markers sc.strip (length (buf_of sc c)) (buf_of sc c) e)

  pub found : (m : Match) → find_first sc.markers (buf_of sc c) ≡ some m → 0 < (feed sc c).2
  found (p, n, o) e =
      let fits = find_first_fits sc.markers (buf_of sc c) p n o w.sound.nonempty e in
      rw on (
        matches_found sc.markers sc.strip (length (buf_of sc c)) (buf_of sc c) (p, n, o)
          w.sound.nonempty (omega arith) e)

  left_clear :
      ClearAll sc.markers.list
        (take (cut_of sc c) (rest_of sc c))
        (drop (cut_of sc c) (rest_of sc c))
  left_clear =
      emitted-ClearAll sc.markers (rest_of sc c)
        (matches_end sc.markers w.sound.nonempty (buf_of sc c) sc.strip (length (buf_of sc c))
          origin (omega arith) (omega arith)).1

  -- A response scanner reports no boundary with a chunk exactly if the stream since the last
  -- boundary, up to and with that chunk, holds no marker, however it was cut into chunks.
  pub boundary_iff : ((feed sc c).2 ≡ 0) ↔ (find_first sc.markers (text ++ c) ≡ none)
  boundary_iff = elim (Option-cases (find_first sc.markers (buf_of sc c))) [
    | inl e ↦ ((λ z. rw (seen_whole, e)), λ z. not_found e)
    | inr (m, e) ↦ (
      (λ z. absurd (omega (arith, found m e))),
      λ z. absurd (some_shift m e (seen_whole ∙ refl) z),
    )
  ]
    where
      some_shift :
          (m : Match)
          → find_first sc.markers (buf_of sc c) ≡ some m
          → find_first sc.markers (text ++ c)
            ≡ shift_match (length passed) (find_first sc.markers (buf_of sc c))
          → find_first sc.markers (text ++ c) ≡ none
          → ⊥
      some_shift m e whole z =
          let gone =
            shift_match-none (length passed) (find_first sc.markers (buf_of sc c))
              (sym whole ∙ z) in
          cc

  kept-IsSound : IsSound (feed sc c).0
  kept-IsSound =
      rw on (record { nonempty = w.sound.nonempty; passes = λ off. absurd (cc (w.active)) })

  -- As long as no marker is seen, what has gone out is what went out before and what the chunk lets out.
  pub feed_quiet :
      find_first sc.markers (text ++ c) ≡ none
      → Watches (feed sc c).0 (passed ++ (feed sc c).1) (text ++ c) × ((feed sc c).2 ≡ 0)
  feed_quiet clear = elim (Option-cases (find_first sc.markers (buf_of sc c))) [
    | inl e ↦
        let whole = take-append-drop (cut_of sc c) (rest_of sc c) in
        let idle = matches_idle sc.markers sc.strip (length (buf_of sc c)) (buf_of sc c) e in
        let same : rest_of sc c ≡ buf_of sc c = rw idle in
        let emits : (feed sc c).1 ≡ take (cut_of sc c) (rest_of sc c) = rw (on, idle) in
        let before = ClearAll-append sc.markers.list passed sc.hold c w.clear in
        (
          record {
            sound = kept-IsSound;
            active = rw on w.active;
            split =
                rw (emits, on)
                  (append_assoc passed (take (cut_of sc c) (rest_of sc c))
                      (drop (cut_of sc c) (rest_of sc c))
                    ∙ ap (λ t. passed ++ t) (whole ∙ same)
                    ∙ sym (append_assoc passed sc.hold c)
                    ∙ ap (λ t. t ++ c) w.split);
            clear =
                rw (emits, on)
                  (ClearAll_join sc.markers.list passed (take (cut_of sc c) (rest_of sc c))
                    (drop (cut_of sc c) (rest_of sc c)) (rw (whole, same) before) left_clear);
          },
          not_found e,
        )
    | inr (m, e) ↦ absurd (omega (arith, found m e, boundary_iff.1 clear))
  ]

  -- A response scanner that watches the stream since the last boundary goes on doing so with each
  -- chunk: the same stream with the chunk if no boundary was in it, else some rest.
  pub feed-Watches :
      (passed' : Bytes) × (text' : Bytes) × Watches (feed sc c).0 passed' text'
      × ((feed sc c).2 ≡ 0 → text' ≡ text ++ c)
  feed-Watches = elim (Option-cases (find_first sc.markers (buf_of sc c))) [
    | inl e ↦ (passed ++ (feed sc c).1, text ++ c, (feed_quiet (rw (seen_whole, e))).0, λ z. refl)
    | inr (m, e) ↦ (
      take (cut_of sc c) (rest_of sc c),
      rest_of sc c,
      record {
        sound = kept-IsSound;
        active = rw on w.active;
        split = rw on (take-append-drop (cut_of sc c) (rest_of sc c));
        clear = rw on left_clear;
      },
      λ z. absurd (omega (arith, found m e)),
    )
  ]

-- A new scanner with a marker to look for has seen the empty stream.
pub new-Watches :
    (ps : List (Bytes × Outcome)) (strip : Bool)
    → is_empty (new_markers ps) ≡ false
    → Watches (new (new_markers ps) strip) [] []
unfolding new
new-Watches ps strip active = record {
  sound = record { nonempty = new-NonEmpty ps; passes = λ off. refl };
  active = active;
  split = refl;
  clear = ClearAll_nil (new_markers ps).list [];
}
