-- ===== src/Tests/Processes.antt =====
-- Processes, pidfiles and dates at concrete inputs: src/platform/unix.rs, src/general.rs, src/server.rs.
use replstoke.Common.{
  ℕ, ◌+◌, ◌*◌, ◌≡◌, refl, Bool, true, false, [], ◌∷◌, none, some, arith, Bytes, codes, ok, ◌==◌,
}
use replstoke.Strings.Decimal.{format_padded}
use replstoke.Cli.Config.{unix, default, ServerConfig}
use replstoke.Platform.{ℤ, pos, negsuc, Os, terminate_pid}
use replstoke.Platform.Target.{terminate_pid-one_process}
use replstoke.Platform.Terminate.{IsClock}
use replstoke.General.{pid_of, kill_server}
use replstoke.General.Kill.{Ends, kill_server-Ends}
use replstoke.Names.{default_socket_path}
use replstoke.Server.Utc.{stamp, format_utc}
use replstoke.Server.Utc.Back.{IsDate, seconds_of, stamp-IsDate}
use replstoke.Server.Setup.{path_or, Outcomes, pid_line, run}
use replstoke.Server.Setup.Held.{repl, file, held, run-held}
use replstoke.Server.Setup.Pidfile.{pid_of-pid_line}

-- A system of which only the clock is kept: the process 42 alone exists and ignores SIGTERM.
abbrev answer : ℤ → Bool
answer (pos p) = p == 42
answer (negsuc p) = false

abbrev toy : Os ℕ
toy = record {
  kill = λ p s w. (w, answer p);
  now = λ w. (w, w);
  sleep = λ d w. w + d;
  read_to_string = λ path w. (w, ok (codes "42\n"));
  exists = λ path w. (w, true);
  remove_file = λ path w. w;
  read_dir = λ w. (w, ok []);
}

toy-IsClock : IsClock toy (λ w. w)
toy-IsClock = record {
  reads = λ w. omega arith;
  now_later = λ w. omega arith;
  sleep_later = λ d w. omega arith;
  kill_later = λ p s w. omega arith;
  read_later = λ path w. omega arith;
}

abbrev pidfile : Bytes
pidfile = codes "pidfile"

kill_server-Ends_example : Ends toy pidfile 0 (kill_server toy (some pidfile) 0)
kill_server-Ends_example = kill_server-Ends toy (λ w. w) toy-IsClock pidfile 0

-- Another system, in which every signal to a group is delivered.
abbrev groups : ℤ → Bool
groups (pos p) = p == 42
groups (negsuc p) = true

terminate_pid-one_process_example :
    terminate_pid (record toy { kill = λ p s w. (w, groups p) }) 251 42 5000 0
    ≡ terminate_pid toy 251 42 5000 0
terminate_pid-one_process_example =
    terminate_pid-one_process toy (λ p s w. (w, groups p)) 42 (omega arith) (λ s w. refl) 251 5000 0

pid_of-pid_line_example : pid_of pidfile (ok (pid_line 42)) ≡ ok 42
pid_of-pid_line_example = pid_of-pid_line pidfile 42 (omega arith)

abbrev config : ServerConfig
config = record {
  repl_argv = codes "python3" ∷ [];
  restart = false;
  bind = unix none;
  pidfile = some default;
  raw = false;
  end_marker_stdout = codes "END";
  end_marker_stderr = [];
  error_marker_stdout = [];
  error_marker_stderr = [];
  strip_marker_stdout = false;
  strip_marker_stderr = false;
  ready_marker_stdout = [];
  ready_marker_stderr = [];
  ready_wait = none;
  ready_marker_timeout = none;
  warmup = [];
  warmup_marker_stdout = [];
  warmup_marker_stderr = [];
  warmup_wait = none;
  warmup_marker_timeout = none;
  response_timeout = none;
}

abbrev read_only : Outcomes
read_only = record {
  spawn_error = none;
  bind_error = none;
  nonblocking_error = none;
  write_error = some (codes "Permission denied");
  is_socket = λ path. false;
}

run-held_example :
    held (run read_only (ok tt) config (codes "python3") 42).0 []
    ≡ file (default_socket_path (codes "python3") 42) ∷ repl ∷ []
unfolding path_or
run-held_example = run-held read_only (ok tt) config (codes "python3") 42

stamp-IsDate_example :
    IsDate (stamp 1779031421) × (seconds_of (stamp 1779031421) ≡ 1779031421 + 719528 * 86400)
stamp-IsDate_example = stamp-IsDate 1779031421

-- The source's own test.
known_timestamp : format_utc 1779031421 ≡ codes "2026-05-17_15-23-41"
unfolding format_utc format_padded
known_timestamp = refl
