-- ===== src/Main.antt =====
-- src/lib.rs: the dispatch on the mode, and the process's exit code. What a mode returns is a parameter.
pub mod Refused
use replstoke.Common.{ℕ, List, Bytes, ok, err}
use replstoke.Error.{AppResult, exit_code}
use replstoke.Cli.Config.{
  Config, server, client, general, ServerConfig, ClientConfig, GeneralAction,
}
use replstoke.Cli.Raw.{ParseSeconds}
use replstoke.Cli.Build.{parse}

pub record Modes : Type 0 where
  pub run_server : ServerConfig → AppResult (Unit {0})
  pub run_client : ClientConfig → AppResult (Unit {0})
  pub run_general : GeneralAction → AppResult (Unit {0})

unfoldable pub dispatch : Modes → AppResult Config → AppResult (Unit {0})
dispatch m (err e) = err e
dispatch m (ok (server cfg)) = m.run_server cfg
dispatch m (ok (client cfg)) = m.run_client cfg
dispatch m (ok (general action)) = m.run_general action

unfoldable pub run : ParseSeconds → Modes → List Bytes → ℕ
unfolding dispatch exit_code
run parse_seconds m args = exit_code (dispatch m (parse parse_seconds args))
