-- ===== src/Tests/Control.antt =====
-- Calls of the methods of `Core` and `Shared` at concrete inputs: src/server.rs.
use replstoke.Common.{ℕ, ◌≡◌, ◌↔◌, refl, true, false, [], ◌∷◌, Option, some, none, codes}
use replstoke.Server.Core.{Core, Phase, idle, busy, try_accept}
use replstoke.Server.Core.Lifecycle.{
  accept, request, gone, ◌⟨◌⟩⟶◌, Moves, apply, apply_all, apply_edges,
}
use replstoke.Server.Core.Requests.{IsFree, try_accept_lem, occupied_refuses}
use replstoke.Server.Shared.{Settings, Shared, ClientConn}

abbrev pub core_in : Phase → Core
core_in p = record {
  phase = p;
  served = false;
  requests = 0;
  next_gen = 1;
  req_seq = 0;
  serving = false;
}

abbrev pub framed : Settings
framed = record {
  initial_ready = true;
  warmup = [];
  warmup_marker_stdout = [];
  warmup_marker_stderr = [];
  protocol = true;
  end_marker_stdout = codes "END";
  end_marker_stderr = [];
  error_marker_stdout = [];
  error_marker_stderr = codes "ERR";
  ready_marker_stdout = [];
  ready_marker_stderr = [];
  strip_out = false;
  strip_err = false;
  response_timeout = some 5000;
  start = 0;
  started_at = codes "2024-01-01T00:00:00Z";
  server_pid = 7;
  listen_desc = codes "/tmp/s";
}

abbrev pub client : ℕ → ClientConn
client g = record { gen = g; wire = []; broken = false }

abbrev pub shared : Phase → Option ClientConn → Shared
shared p sink = record {
  core = core_in p;
  sink = sink;
  repl_stdin = none;
  shutdown = false;
  warmup_sent = false;
  stdout = [];
  stderr = [];
}

apply_edges_example :
    Moves (request true) idle (apply (request true) (core_in idle)).phase
    × ((q : Phase) → idle ⟨ request true ⟩⟶ q → (apply (request true) (core_in idle)).phase ≡ q)
apply_edges_example = apply_edges (request true) (core_in idle)

occupied_refuses_example :
    (try_accept (apply_all (gone (some 9) ∷ accept false ∷ []) (core_in busy)) false).1 ≡ none
occupied_refuses_example =
    occupied_refuses (gone (some 9) ∷ accept false ∷ []) (core_in busy) false (refl, (refl, tt))
      refl

try_accept_lem_example :
    (((g : ℕ) × ((try_accept (core_in idle) false).1 ≡ some g)) ↔ ((false ≡ false) × IsFree idle))
    × ((try_accept (core_in idle) false).1 ≡ none
        → (try_accept (core_in idle) false).0 ≡ core_in idle)
    × ((g : ℕ)
        → (try_accept (core_in idle) false).1 ≡ some g
        → (g ≡ 1)
          × ((try_accept (core_in idle) false).0.served ≡ true)
          × ((try_accept (core_in idle) false).0.serving ≡ false))
    × ((try_accept (core_in idle) false).0.phase ≡ idle)
try_accept_lem_example = try_accept_lem (core_in idle) false
