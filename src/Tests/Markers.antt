-- ===== src/Tests/Markers.antt =====
-- Marker scanners at concrete inputs: src/marker.rs.
use replstoke.Common.{◌≡◌, ◌↔◌, refl, true, false, List, [], ◌∷◌, ◌++◌, some, none, Bytes, codes}
use replstoke.Marker.Set.{
  Outcome, end, error, two_markers, find_first, is_empty, new as new_markers,
}
use replstoke.Marker.Scanner
use replstoke.Marker.Scanner.{MarkerScanner}
use replstoke.Marker.Stream.{FeedsAs, feed_FeedsAs, new-Scanned}
use replstoke.Marker.Response
use replstoke.Marker.Response.{ResponseScanner, feed, matches}
use replstoke.Marker.ResponseLaws.{feed_keeps}
use replstoke.Marker.Watch.{Watches, boundary_iff, new-Watches}

abbrev pairs : List (Bytes × Outcome)
pairs = (codes "END", end) ∷ (codes "ERR", error) ∷ []

abbrev scanner : MarkerScanner
scanner = record { markers = two_markers; strip = true; hold = []; finished = false }

scanner_new : Scanner.new two_markers true ≡ some scanner
unfolding Scanner.new is_empty
scanner_new = refl

feed_FeedsAs_example : FeedsAs scanner [] [] (codes "a EN") (find_first two_markers (codes "a EN"))
feed_FeedsAs_example =
    feed_FeedsAs scanner [] [] (codes "a EN") (new-Scanned two_markers true scanner_new)

abbrev watcher : ResponseScanner
watcher = Response.new (new_markers pairs) false

active : is_empty (new_markers pairs) ≡ false
unfolding is_empty new_markers
active = refl

watching : Watches watcher [] []
watching = new-Watches pairs false active

boundary_iff_example :
    ((feed watcher (codes "a EN")).2 ≡ 0) ↔ (find_first watcher.markers ([] ++ codes "a EN") ≡ none)
boundary_iff_example = boundary_iff watcher [] [] (codes "a EN") watching

feed_keeps_example :
    (feed watcher (codes "a ENDb EN")).1 ++ (feed watcher (codes "a ENDb EN")).0.hold
    ≡ watcher.hold ++ codes "a ENDb EN"
unfolding Response.new
feed_keeps_example = feed_keeps watcher (codes "a ENDb EN") watching.sound refl
