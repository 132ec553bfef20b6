-- ===== src/Main/Refused.antt =====
-- The exit code of a command line that is refused: src/lib.rs.
use replstoke.Common.{◌≡◌, ap, ◌∙◌, List, Bytes, err}
use replstoke.Error.{AppError, exit_usage, exit_code}
use replstoke.Cli.Raw.{ParseSeconds}
use replstoke.Cli.Build.{parse}
use replstoke.Cli.Refusal.{parse-IsUsage}
use replstoke.Main.{Modes, dispatch, run}

-- A command line that is refused, for whatever reason and by whatever part of the parser, ends the
-- program with the exit code for wrong usage, 2.
pub run-refused :
    (seconds : ParseSeconds) (m : Modes) (args : List Bytes) (e : AppError)
    → parse seconds args ≡ err e
    → run seconds m args ≡ exit_usage
unfolding run
run-refused seconds m args e h =
    ap (λ r. exit_code (dispatch m r)) h ∙ rw h at (parse-IsUsage seconds args)
