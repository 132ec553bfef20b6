-- ===== src/Server/System.antt =====
-- The threads of src/server.rs over one `Shared`, in any order: the main loop of `run`, the pumps of the
-- REPL's stdout and stderr, and a thread for each client. A step is a method of `Shared`, or what a
-- thread does on its own; between two steps of a thread the others may act. What a thread has read is
-- in its program counter, so it may be out of date.
pub mod Methods
pub mod Counts
pub mod Moves
pub mod Kept
pub mod Invariant
pub mod Late
pub mod Stale
pub mod Progress
pub mod Streams
pub mod Shutdown
pub mod Service
pub mod Serves
pub mod Opening
pub mod Answer
use replstoke.Common.{
  ℕ, suc, ◌+◌, ◌≤◌, ◌≡◌, ◌≢◌, ◌||◌, Bool, true, false, List, [], ◌∷◌, Option, none, some,
  if◌then◌else◌, Bytes, ◌==◌,
}
use replstoke.Error.{AppError, AppResult}
use replstoke.Server.Core.{Instant, Phase, Core}
use replstoke.Server.Core
use replstoke.Server.Shared
use replstoke.Server.Shared.{Settings, Shared, ClientConn, ReplStdin}
use replstoke.Server.Pump
use replstoke.Server.Pump.{Action, Pump, Seen, pump_chunk, pump_end, perform}
use replstoke.Server.Threads.{
  PumpThread, ended, ClientPc, absent, waiting, PumpPc, fresh_pump, PumpStep, ClientStep,
}
use replstoke.Server.Supervise.{Limits, Supervisor, check_time, exit_notice, restart_notice, wired}

-- The main loop: at its top, with the phase that it saw, before `try_wait`, before `accept`, before
-- `send_ctl_status` to a new client, before the spawn of the next REPL, before
-- `wire_repl`, before a last `stop`, and behind the loop.
pub data MainPc : Type 0 where
  top : MainPc
  chose : Phase → MainPc
  polling accepting : MainPc
  greeting : (gen : ℕ) → MainPc
  restarting wiring quitting : MainPc
  finished : MainPc

pub record System : Type 0 where
  pub shared : Shared
  pub out : PumpThread
  pub err : PumpThread
  pub clients : ℕ → ClientPc
  pub main : MainPc
  pub loop : Supervisor
  pub now : Instant
  pub signalled : Bool  -- `platform::shutdown_requested()`

abbrev pub update : (ℕ → ClientPc) → ℕ → ClientPc → ℕ → ClientPc
update f g p k = if k == g then p else f k

-- `join_threads` is called unless the loop ends with the REPL's exit.
abbrev pub Joined : Bool → PumpPc → PumpPc → Type 0
Joined false o e = Unit
Joined true o e = (o ≡ ended) × (e ≡ ended)

-- Where the main loop goes with the outcome of an exit, and with a new client's generation.
abbrev pub after_exit : Option (AppResult (Unit {0})) → MainPc
after_exit none = restarting
after_exit (some outcome) = quitting

abbrev pub after_accept : Option ℕ → MainPc
after_accept none = top
after_accept (some gen) = greeting gen

module _ (cfg : Settings) (lim : Limits) (repl_pid : ℕ) where
  -- The main loop of `run`. Each step is for a call that returns; one that blocks is no step.
  pub data MainStep (s : System) : System → Type 0 where
    stop :
        s.main ≡ top
        → Shared.should_stop s.shared s.signalled ≡ true
        → MainStep s (record s { main = finished })
    look :
        s.main ≡ top
        → Shared.should_stop s.shared s.signalled ≡ false
        → MainStep s (record s { main = chose s.shared.core.phase })
    time :
        (p : Phase)
        → s.main ≡ chose p
        → MainStep s (record s {
          shared = (check_time cfg lim s.now p s.shared s.loop).0;
          loop = (check_time cfg lim s.now p s.shared s.loop).1;
          main = polling;
        })
    runs : s.main ≡ polling → MainStep s (record s { main = accepting })
    lost :
        s.main ≡ polling → MainStep s (record s { shared = Shared.stop s.shared; main = finished })
    exits :
        s.main ≡ polling
        → Joined (lim.restart || s.loop.forced) s.out.pc s.err.pc
        → MainStep s (record s {
          shared = (exit_notice cfg lim s.now s.shared s.loop).0;
          loop = (exit_notice cfg lim s.now s.shared s.loop).1;
          main = after_exit (exit_notice cfg lim s.now s.shared s.loop).2;
        })
    quits :
        s.main ≡ quitting → MainStep s (record s { shared = Shared.stop s.shared; main = finished })
    respawns :
        s.main ≡ restarting
        → MainStep s (record s {
          shared = Shared.begin_booting cfg s.now s.shared;
          loop = record s.loop { last_spawn = s.now };
          main = wiring;
        })
    wires :
        s.main ≡ wiring
        → MainStep s (record s {
          shared = wired s.shared;
          out = fresh_pump cfg false;
          err = fresh_pump cfg true;
          main = accepting;
        })
    fails :
        (e : AppError)
        → s.main ≡ restarting
        → MainStep s (record s { shared = restart_notice cfg e s.shared; main = quitting })
    waits : s.main ≡ accepting → MainStep s (record s { main = top })
    accept :
        (cloned : Bool)
        → s.main ≡ accepting
        → MainStep s (record s {
          shared = (Shared.register cloned s.shared).0;
          main = after_accept (Shared.register cloned s.shared).1;
        })
    greet :
        (gen : ℕ)
        → s.main ≡ greeting gen
        → MainStep s (record s {
          shared = Shared.send_ctl_status cfg repl_pid s.now s.shared;
          clients = update s.clients gen waiting;
          main = top;
        })

  -- A step of the system: of a thread, of the clock, a signal, or a write end that breaks.
  pub data Step (s : System) : System → Type 0 where
    out_moves :
        {sh : Shared} {p : PumpThread}
        → PumpStep cfg false s.now s.shared s.out sh p
        → Step s (record s { shared = sh; out = p })
    err_moves :
        {sh : Shared} {p : PumpThread}
        → PumpStep cfg true s.now s.shared s.err sh p
        → Step s (record s { shared = sh; err = p })
    client_moves :
        (gen : ℕ) {sh : Shared} {p : ClientPc}
        → ClientStep cfg s.signalled s.now gen s.shared (s.clients gen) sh p
        → Step s (record s { shared = sh; clients = update s.clients gen p })
    main_moves : {t : System} → MainStep s t → Step s t
    tick : (d : Instant) → Step s (record s { now = s.now + d })
    signal : Step s (record s { signalled = true })
    hangs_up :
        (c : ClientConn)
        → s.shared.sink ≡ some c
        → Step s
            (record s { shared = record s.shared { sink = some (record c { broken = true }) } })
    dies :
        (w : ReplStdin)
        → s.shared.repl_stdin ≡ some w
        → Step s (record s {
          shared = record s.shared { repl_stdin = some (record w { broken = true }) };
        })

  -- `run` at the start of its loop, with the first REPL spawned.
  unfoldable pub init : Instant → System
  init now = record {
    shared = record {
      core = Core.new cfg.initial_ready (Shared.has_warmup cfg) now;
      sink = none;
      repl_stdin = some (record { taken = []; broken = false });
      shutdown = false;
      warmup_sent = false;
      stdout = [];
      stderr = [];
    };
    out = fresh_pump cfg false;
    err = fresh_pump cfg true;
    clients = λ gen. absent;
    main = top;
    loop = record { failures = 0; last_spawn = now; forced = false; stuck = false };
    now = now;
    signalled = false;
  }

  -- The states that `n` steps lead to.
  pub data Reach (now : Instant) : ℕ → System → Type 0 where
    start : Reach now 0 (init now)
    later : {n : ℕ} {s t : System} → Reach now n s → Step s t → Reach now (suc n) t

  pub data Steps (s : System) : System → Type 0 where
    stay : Steps s s
    next : {t u : System} → Steps s t → Step t u → Steps s u
