-- ===== src/Tests/Threads.antt =====
-- Runs of the server's threads at concrete inputs: src/server.rs.
use replstoke.Common.{◌≡◌, ◌≤◌, refl, true, false, [], ◌∷◌, none, some, arith}
use replstoke.Protocol.Types.{stream_err}
use replstoke.Protocol.Encode.{encode}
use replstoke.Server.Core.{Core, Phase, idle, draining}
use replstoke.Server.Core
use replstoke.Server.Shared
use replstoke.Server.Shared.{Shared}
use replstoke.Server.Pump.{start}
use replstoke.Server.Supervise.{Limits}
use replstoke.Server.System.{
  System, chose, top, tick, main_moves, MainStep, Steps, Reach, init, stay, next, finished,
}
use replstoke.Server.System.Kept.{Inv}
use replstoke.Server.System.Invariant.{Reach-Inv}
use replstoke.Server.System.Late.{served, late_output}
use replstoke.Server.System.Progress.{Restarted, drain_recovers}
use replstoke.Server.System.Shutdown.{main_steps, signal_ends}
use replstoke.Tests.Control.{framed, core_in, shared}

abbrev pub lim : Limits
lim = record {
  restart = false;
  ready_wait = none;
  ready_marker_timeout = none;
  warmup_wait = none;
  warmup_marker_timeout = none;
}

abbrev seen : System
seen = record (init framed lim 7 0) { now = 5; main = chose idle }

Reach-Inv_example : Inv framed 2 seen
unfolding init Shared.should_stop Core.new Shared.has_warmup
Reach-Inv_example =
    Reach-Inv framed lim 7 0 2 seen (omega arith)
      (Reach.later (Reach.later Reach.start (tick 5)) (main_moves (MainStep.look refl refl)))

abbrev pub begun : System
begun = init framed lim 7 0

late_output_example :
    (t : System) × Steps framed lim 7
      (served begun (core_in idle) (shared idle none) (start framed true) 1)
      t
    × (t.shared.sink
        ≡ some (record { gen = 1; wire = encode [] stream_err (65 ∷ 66 ∷ []); broken = false }))
    × (t.shared.core.phase ≡ idle)
    × (t.shared.core.serving ≡ false)
late_output_example =
    late_output framed lim 7 refl begun (core_in idle) (shared idle none) (start framed true) 1 65
      (66 ∷ [])

-- A request that was abandoned at 1000, and drains until 6000.
abbrev abandoned : System
abandoned = record (init framed lim 7 0) {
  shared = record (shared (draining (some 6000)) none) {
    core = record (core_in (draining (some 6000))) { served = true };
  };
  now = 7000;
}

drain_recovers_example : (t : System) × Steps framed lim 7 abandoned t × Restarted framed lim 7 t
unfolding init Shared.should_stop
drain_recovers_example =
    drain_recovers framed lim 7 abandoned 6000 refl refl refl (omega arith) refl refl refl

abbrev signalled : System
signalled = record begun { signalled = true }

abbrev halted : System
halted = record signalled { main = finished }

halts : Steps framed lim 7 signalled halted
unfolding init Shared.should_stop
halts = next stay (main_moves (MainStep.stop refl refl))

signal_ends_example :
    (main_steps framed lim 7 halts ≤ 7) × (signalled.main ≡ top → main_steps framed lim 7 halts ≤ 1)
signal_ends_example = signal_ends framed lim 7 signalled halted halts refl
