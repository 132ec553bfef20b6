-- ===== src/Error.antt =====
-- src/error.rs: `AppError` and the exit codes.
use replstoke.Common.{ℕ, Bytes, Result, ok, err}

abbrev pub exit_usage : ℕ
exit_usage = 2

abbrev pub exit_failure : ℕ
exit_failure = 1

abbrev pub exit_timeout : ℕ
exit_timeout = 124

pub record AppError : Type 0 where
  pub message : Bytes
  pub code : ℕ

abbrev pub AppResult : Type 0 → Type 0
AppResult A = Result AppError A

unfoldable pub usage : Bytes → AppError
usage message = record { message = message; code = exit_usage }

unfoldable pub failure : Bytes → AppError
failure message = record { message = message; code = exit_failure }

unfoldable pub timeout : Bytes → AppError
timeout message = record { message = message; code = exit_timeout }

-- `lib::run` behind the dispatch: success is 0, an error its own code.
unfoldable pub exit_code : AppResult (Unit {0}) → ℕ
exit_code (ok u) = 0
exit_code (err e) = e.code
