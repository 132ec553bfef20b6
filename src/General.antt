-- ===== src/General.antt =====
-- src/general.rs: `--help`, `--version` and `--kill`. What is printed is a parameter.
pub mod Kill
use replstoke.Common.{
  ℕ, Bool, true, false, ◌&&◌, List, [], ◌∷◌, ◌++◌, Option, none, some, if◌then◌else◌, Bytes, codes,
  Result, ok, err, ◌*◌, ok_or,
}
use replstoke.Strings.Utf8.{from_utf8_lossy}
use replstoke.Strings.Decimal.{format_uint, parse_uint, max_u32}
use replstoke.Strings.Trim.{trim}
use replstoke.Error.{AppError, AppResult, failure}
use replstoke.Cli.Config.{GeneralAction, help, version, kill}
use replstoke.Names.{discover_pidfile}
use replstoke.Platform.{Os, terminate_pid}

abbrev pub kill_timeout : ℕ
kill_timeout = 5000

-- The fuel of the loop of `terminate_pid`: 250 sleeps of 20 ms, and a last look.
abbrev pub kill_fuel : ℕ
kill_fuel = 251

unfoldable pub cannot_read : Bytes → Bytes → AppError
unfolding failure
cannot_read path e =
    failure (codes "cannot read pidfile '" ++ from_utf8_lossy path ++ codes "': " ++ e)

unfoldable pub not_a_pid : Bytes → AppError
unfolding failure
not_a_pid path =
    failure (codes "pidfile '" ++ from_utf8_lossy path ++ codes "' does not contain a valid pid")

unfoldable pub pid_of : Bytes → Result Bytes Bytes → AppResult ℕ
pid_of path (err e) = err (cannot_read path e)
pid_of path (ok content) = ok_or (not_a_pid path) (parse_uint max_u32 (trim content))

unfoldable pub cannot_terminate : ℕ → AppError
unfolding failure
cannot_terminate pid = failure (codes "could not terminate server with pid " ++ format_uint pid)

module _ {W : Type 0} (os : Os W) where
  unfoldable pub read_pid : Bytes → W → W × AppResult ℕ
  read_pid path w = let (w', content) = os.read_to_string path w in (w', pid_of path content)

  -- Behind `terminate_pid`.
  unfoldable pub after_terminate : Bytes → ℕ → W → Bool → W × AppResult (Unit {0})
  after_terminate path pid w gone =
      let (w1, found) = os.exists path w in
      if gone
      then ((if found then os.remove_file path w1 else w1), ok tt)
      else (w, err (cannot_terminate pid))

  -- `none` when the fuel runs out.
  unfoldable pub kill_pid : Bytes → W × AppResult ℕ → Option (W × AppResult (Unit {0}))
  kill_pid path (w, err e) = some (w, err e)
  kill_pid path (w, ok pid) = elim (terminate_pid os kill_fuel pid kill_timeout w) [
    | none ↦ none
    | some (w', gone) ↦ some (after_terminate path pid w' gone)
  ]

  unfoldable pub kill_path : W × AppResult Bytes → Option (W × AppResult (Unit {0}))
  kill_path (w, err e) = some (w, err e)
  kill_path (w, ok path) = kill_pid path (read_pid path w)

  unfoldable pub kill_server : Option Bytes → W → Option (W × AppResult (Unit {0}))
  kill_server (some path) w = kill_path (w, ok path)
  kill_server none w = let (w', listing) = os.read_dir w in kill_path (w', discover_pidfile listing)

  unfoldable pub run : (W → W) → (W → W) → GeneralAction → W → Option (W × AppResult (Unit {0}))
  run print_help print_version help w = some (print_help w, ok tt)
  run print_help print_version version w = some (print_version w, ok tt)
  run print_help print_version (kill pidfile) w = kill_server pidfile w
