-- ===== src/Tests/Pumps.antt =====
-- Chunks of the REPL's output at concrete inputs: the pumps in src/server.rs.
use replstoke.Common.{
  ℕ, ◌≡◌, inl, ◌↔◌, refl, Bool, true, false, List, [], ◌∷◌, ◌++◌, some, none, arith, Bytes, codes,
}
use replstoke.Marker.Set.{Outcome, end, error, find_first, is_empty, new as new_markers}
use replstoke.Marker.Response
use replstoke.Marker.Response.{ResponseScanner}
use replstoke.Marker.Watch.{new-Watches}
use replstoke.Server.Core.{Phase, idle, busy}
use replstoke.Server.Pump.{Pump, Seen, pump_chunk, deliver, scan_chunk, response_scanner_for}
use replstoke.Server.Pump.Routes.{
  client_bytes, ends, withheld, InRequest-exact, held_bytes_leave_client,
}
use replstoke.Tests.Control.{framed}

abbrev pairs : List (Bytes × Outcome)
pairs = (codes "END", end) ∷ (codes "", error) ∷ []

abbrev watcher : ResponseScanner
watcher = Response.new (new_markers pairs) false

abbrev pump : ResponseScanner → Pump
pump sc = record {
  is_err = false;
  ready_scanner = none;
  warmup_scanner = none;
  scanner = some sc;
  scanned_seq = 1;
}

abbrev seen : Phase → Bool → ℕ → Seen
seen p serving seq = record {
  phase = p;
  serving = serving;
  booting = false;
  warmup_sent = false;
  req_seq = seq;
}

active : is_empty (new_markers pairs) ≡ false
unfolding is_empty new_markers
active = refl

withheld_example :
    client_bytes (pump_chunk framed (pump watcher) (seen idle false 1) (codes "late")).1 ≡ []
withheld_example = withheld framed (pump watcher) (seen idle false 1) (codes "late") (refl, refl)

InRequest-exact_example :
    (client_bytes (pump_chunk framed (pump watcher) (seen busy true 1) (codes "hi EN")).1
        ++ (Response.feed watcher (codes "hi EN")).0.hold
      ≡ watcher.hold ++ codes "hi EN")
    × ((pump_chunk framed (pump watcher) (seen busy true 1) (codes "hi EN")).0.scanner
        ≡ some (Response.feed watcher (codes "hi EN")).0)
    × ((ends (pump_chunk framed (pump watcher) (seen busy true 1) (codes "hi EN")).1 ≡ false)
        ↔ (find_first watcher.markers ([] ++ codes "hi EN") ≡ none))
unfolding Response.new
InRequest-exact_example =
    InRequest-exact framed (pump watcher) (seen busy true 1) (codes "hi EN") watcher [] []
      (record { framed = refl; flight = inl refl; current = refl; scans = refl })
      (new-Watches pairs false active) refl

abbrev holding : ResponseScanner
holding = record { markers = new_markers pairs; strip = false; hold = codes "EN" }

held_bytes_leave_client_example :
    (client_bytes (pump_chunk framed (pump holding) (seen idle true 1) (codes "a")).1 ≡ codes "a")
    × ((fresh : Pump) × ((pump_chunk framed
            (pump_chunk framed (pump holding) (seen idle true 1) (codes "a")).0
            (seen busy true 2)
            (codes "b")).1
          ≡ deliver (codes "EN") false
            ++ (scan_chunk fresh (response_scanner_for framed false) (codes "b")).1))
held_bytes_leave_client_example =
    held_bytes_leave_client framed (pump holding) (seen idle true 1) (seen busy true 2) holding
      (codes "a") (codes "b") refl refl refl refl refl (omega arith)
