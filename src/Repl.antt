-- ===== src/Repl.antt =====
-- src/repl.rs: the start of the REPL's process. What the system's spawn returns is a parameter: the
-- child's id, or its error's text. The three pipes are those that `spawn` asks for, so that taking them
-- out of the child does not fail.
pub mod Start
use replstoke.Common.{ℕ, List, [], ◌∷◌, ◌++◌, Option, none, some, Bytes, codes, Result, ok, err}
use replstoke.Strings.Utf8.{from_utf8_lossy}
use replstoke.Error.{AppResult, failure}
use replstoke.Platform.{ReplGuard, after_spawn}

unfoldable pub started : Bytes → Result Bytes ℕ → AppResult ReplGuard
unfolding failure after_spawn
started exe (ok child) = ok (after_spawn child)
started exe (err e) =
    err (failure (codes "cannot start REPL '" ++ from_utf8_lossy exe ++ codes "': " ++ e))

-- `none` is the panic of `argv[0]` without arguments.
unfoldable pub spawn : List Bytes → Result Bytes ℕ → Option (AppResult ReplGuard)
unfolding started
spawn [] child = none
spawn (exe ∷ args) child = some (started exe child)
