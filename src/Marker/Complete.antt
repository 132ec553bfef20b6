-- ===== src/Marker/Complete.antt =====
-- The chunk that completes a marker, and what `ResponseScanner` has let out by then: src/marker.rs.
use replstoke.Common.{
  ◌+◌, ◌<◌, ◌≡◌, ◌∙◌, sym, ap, false, ◌++◌, some, arith, Bytes, length, length-append, Option-cases,
  inl, inr, append_assoc,
}
use replstoke.Marker.Set.{Match, find_first}
use replstoke.Marker.Response.{ResponseScanner, feed}
use replstoke.Marker.ResponseLaws.{buf_of, feed_keeps, feed_past}
use replstoke.Marker.Prefix.{find_first_within}
use replstoke.Marker.Watch.{Watches, seen_whole, found}

module _ (sc : ResponseScanner) (passed text c : Bytes) (w : Watches sc passed text)
    (plain : sc.strip ≡ false) where
  -- What has gone out and what is held back are the stream.
  pub sent-hold : (passed ++ (feed sc c).1) ++ (feed sc c).0.hold ≡ text ++ c
  sent-hold =
      append_assoc passed (feed sc c).1 (feed sc c).0.hold
      ∙ ap (λ t. passed ++ t) (feed_keeps sc c w.sound plain)
      ∙ sym (append_assoc passed sc.hold c)
      ∙ ap (λ t. t ++ c) w.split

  -- What the chunk that completes a marker lets out completes a marker in what has gone out.
  pub sent_found :
      (m : Match)
      → find_first sc.markers (text ++ c) ≡ some m
      → ((k : Match) × (find_first sc.markers (passed ++ (feed sc c).1) ≡ some k))
        × (0 < (feed sc c).2)
  sent_found m e = elim (Option-cases (find_first sc.markers (buf_of sc c))) [
    | inl gone ↦ absurd (ground (arith, seen_whole sc passed text c w))
    | inr ((p, n, o), here) ↦
        let past = feed_past sc c p n o w.sound plain w.active here in
        let whole : find_first sc.markers ((passed ++ (feed sc c).1) ++ (feed sc c).0.hold)
            ≡ some (length passed + p, n, o) =
          rw (sent-hold, seen_whole sc passed text c w, here) in
        (
          find_first_within sc.markers (passed ++ (feed sc c).1) (feed sc c).0.hold
              (length passed + p) n o w.sound.nonempty whole
              (omega (arith, length-append passed (feed sc c).1)),
          found sc passed text c w (p, n, o) here,
        )
  ]
