-- ===== src/Server/Setup.antt =====
-- How `run` of src/server.rs begins and ends: the REPL, the socket and the pidfile that it takes and
-- gives back. What each call of the system returns is a parameter; the calls made are a list.
pub mod Held
pub mod Pidfile
use replstoke.Common.{
  ℕ, Bool, true, false, ◌&&◌, ◌||◌, not, List, [], ◌∷◌, ◌++◌, Option, none, some, if◌then◌else◌,
  Bytes, codes, Result, ok, err, is_nil,
}
use replstoke.Strings.Utf8.{from_utf8_lossy}
use replstoke.Strings.Decimal.{format_uint}
use replstoke.Error.{AppError, AppResult, failure}
use replstoke.Cli.Config.{Bind, tcp, unix, PidfileSpec, default, ServerConfig}
use replstoke.Cli.Config
use replstoke.Names.{default_socket_path, default_pidfile_path}
use replstoke.Server.Core.{Instant}
use replstoke.Server.Shared.{Settings}
use replstoke.Server.Supervise.{Limits}

-- A call that takes or gives back something, and succeeds.
pub data Call : Type 0 where
  spawned : Call
  bound : Bind → Call
  written : (path content : Bytes) → Call
  terminated : Call
  removed : (path : Bytes) → Call

-- What the calls return: an error, or its text, if they fail; and whether a path is a socket.
pub record Outcomes : Type 0 where
  pub spawn_error : Option AppError
  pub bind_error : Option Bytes
  pub nonblocking_error : Option Bytes
  pub write_error : Option Bytes
  pub is_socket : Bytes → Bool

-- The path of the socket, behind the calls of `remove_stale_socket`.
unfoldable pub path_or : Bytes → Option Bytes → Bytes
path_or d none = d
path_or d (some p) = p

unfoldable pub remove_stale_socket : Outcomes → Bytes → List Call
remove_stale_socket oc path = if oc.is_socket path then removed path ∷ [] else []

unfoldable pub resolve_bind : Outcomes → Bytes → ℕ → Bind → List Call × Bind × Option Bytes
unfolding remove_stale_socket path_or
resolve_bind oc cmdname pid (tcp addr port) = ([], tcp addr port, none)
resolve_bind oc cmdname pid (unix path) =
    let p = path_or (default_socket_path cmdname pid) path in
    (remove_stale_socket oc p, unix (some p), some p)

unfoldable pub describe : Bind → Bytes
describe (tcp addr port) = addr ++ (b':' ∷ format_uint port)
describe (unix none) = []
describe (unix (some path)) = from_utf8_lossy path

-- `format!("{pid}\n")`.
unfoldable pub pid_line : ℕ → Bytes
pid_line pid = format_uint pid ++ (b'\n' ∷ [])

unfoldable pub pidfile_path : PidfileSpec → Bytes → ℕ → Bytes
pidfile_path default cmdname pid = default_pidfile_path cmdname pid
pidfile_path (PidfileSpec.path p) cmdname pid = p

unfoldable pub write_at : Option Bytes → Bytes → ℕ → List Call × AppResult (Option Bytes)
unfolding failure
write_at none path pid = (written path (pid_line pid) ∷ [], ok (some path))
write_at (some e) path pid =
    ([], err (failure (codes "cannot write pidfile '" ++ from_utf8_lossy path ++ codes "': " ++ e)))

unfoldable pub write_pidfile :
    Outcomes → Option PidfileSpec → Bytes → ℕ → List Call × AppResult (Option Bytes)
unfolding write_at pidfile_path
write_pidfile oc none cmdname pid = ([], ok none)
write_pidfile oc (some spec) cmdname pid =
    write_at oc.write_error (pidfile_path spec cmdname pid) pid

unfoldable pub remove_path : Option Bytes → List Call
remove_path none = []
remove_path (some path) = removed path ∷ []

unfoldable pub cleanup : Option Bytes → Option Bytes → List Call
unfolding remove_path
cleanup socket pidfile = terminated ∷ (remove_path socket ++ remove_path pidfile)

-- What the loop starts with.
pub record Ready : Type 0 where
  pub bind : Bind
  pub created_socket : Option Bytes
  pub pidfile : Option Bytes

unfoldable pub with_pidfile :
    Bind → Option Bytes → List Call × AppResult (Option Bytes) → List Call × AppResult Ready
with_pidfile bind created (calls, err e) = (calls, err e)
with_pidfile bind created (calls, ok path) =
    (calls, ok (record { bind = bind; created_socket = created; pidfile = path }))

unfoldable pub after_bind :
    Outcomes → Option PidfileSpec → Bytes → ℕ → Bind → Option Bytes → List Call × AppResult Ready
unfolding with_pidfile write_pidfile failure
after_bind oc spec cmdname pid bind created = elim oc.nonblocking_error [
  | some e ↦ ([], err (failure (codes "cannot set non-blocking accept: " ++ e)))
  | none ↦ with_pidfile bind created (write_pidfile oc spec cmdname pid)
]

-- Calls, and then a result with more of them.
abbrev pub before {ℓ} : {A : Type ℓ} → List Call → List Call × A → List Call × A
before cs (ds, a) = (cs ++ ds, a)

-- By the error of the bind.
unfoldable pub on_bind :
    Outcomes
    → Option PidfileSpec
    → Bytes
    → ℕ
    → Bind
    → Option Bytes
    → Option Bytes
    → List Call × AppResult Ready
unfolding after_bind describe failure
on_bind oc spec cmdname pid bind created none =
    before (bound bind ∷ []) (after_bind oc spec cmdname pid bind created)
on_bind oc spec cmdname pid bind created (some e) =
    (terminated ∷ [], err (failure (codes "cannot bind " ++ describe bind ++ codes ": " ++ e)))

unfoldable pub after_spawn :
    Outcomes
    → Option PidfileSpec
    → Bytes
    → ℕ
    → List Call × Bind × Option Bytes
    → List Call × AppResult Ready
unfolding on_bind
after_spawn oc spec cmdname pid (stale, bind, created) =
    before stale (on_bind oc spec cmdname pid bind created oc.bind_error)

-- By the error of the spawn.
unfoldable pub on_spawn :
    Outcomes → ServerConfig → Bytes → ℕ → Option AppError → List Call × AppResult Ready
unfolding after_spawn resolve_bind
on_spawn oc cfg cmdname pid (some e) = ([], err e)
on_spawn oc cfg cmdname pid none =
    before (spawned ∷ [])
      (after_spawn oc cfg.pidfile cmdname pid (resolve_bind oc cmdname pid cfg.bind))

unfoldable pub set_up : Outcomes → ServerConfig → Bytes → ℕ → List Call × AppResult Ready
unfolding on_spawn
set_up oc cfg cmdname pid = on_spawn oc cfg cmdname pid oc.spawn_error

unfoldable pub finish :
    AppResult (Unit {0}) → List Call × AppResult Ready → List Call × AppResult (Unit {0})
unfolding cleanup
finish outcome (calls, err e) = (calls, err e)
finish outcome (calls, ok r) = (calls ++ cleanup r.created_socket r.pidfile, outcome)

-- `run`, with the outcome of its loop, whose restarts replace one REPL by another.
unfoldable pub run :
    Outcomes → AppResult (Unit {0}) → ServerConfig → Bytes → ℕ → List Call × AppResult (Unit {0})
unfolding set_up finish
run oc outcome cfg cmdname pid = finish outcome (set_up oc cfg cmdname pid)

abbrev pub is_set {ℓ} : {A : Type ℓ} → Option A → Bool
is_set none = false
is_set (some a) = true

-- What the threads are given of the configuration.
unfoldable pub has_readiness : ServerConfig → Bool
has_readiness cfg =
    is_set cfg.ready_wait
    || not (is_nil cfg.ready_marker_stdout)
    || not (is_nil cfg.ready_marker_stderr)

unfoldable pub settings : ServerConfig → Instant → Bytes → ℕ → Bind → Settings
unfolding has_readiness describe
settings cfg start started_at pid bind = record {
  initial_ready = not (has_readiness cfg);
  warmup = cfg.warmup;
  warmup_marker_stdout = cfg.warmup_marker_stdout;
  warmup_marker_stderr = cfg.warmup_marker_stderr;
  protocol = not cfg.raw;
  end_marker_stdout = cfg.end_marker_stdout;
  end_marker_stderr = cfg.end_marker_stderr;
  error_marker_stdout = cfg.error_marker_stdout;
  error_marker_stderr = cfg.error_marker_stderr;
  ready_marker_stdout = cfg.ready_marker_stdout;
  ready_marker_stderr = cfg.ready_marker_stderr;
  strip_out = cfg.strip_marker_stdout;
  strip_err = cfg.strip_marker_stderr;
  response_timeout = cfg.response_timeout;
  start = start;
  started_at = started_at;
  server_pid = pid;
  listen_desc = describe bind;
}

unfoldable pub limits : ServerConfig → Limits
limits cfg = record {
  restart = cfg.restart;
  ready_wait = cfg.ready_wait;
  ready_marker_timeout = cfg.ready_marker_timeout;
  warmup_wait = cfg.warmup_wait;
  warmup_marker_timeout = cfg.warmup_marker_timeout;
}
