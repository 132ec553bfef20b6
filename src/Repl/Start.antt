-- ===== src/Repl/Start.antt =====
-- The server's start of the REPL never panics: src/repl.rs, with the configuration of src/cli/mod.rs.
use replstoke.Common.{ℕ, ◌≢◌, ◌≡◌, refl, List, [], ◌∷◌, some, Bytes, Result, ok}
use replstoke.Error.{AppResult}
use replstoke.Cli.Config.{ServerConfig}
use replstoke.Cli.Raw.{Raw}
use replstoke.Cli.Build.{build_server}
use replstoke.Cli.Build.Valid.{build_server-IsValid}
use replstoke.Platform.{ReplGuard}
use replstoke.Repl.{spawn}

spawn-some :
    (argv : List Bytes) (child : Result Bytes ℕ)
    → argv ≢ []
    → (r : AppResult ReplGuard) × (spawn argv child ≡ some r)
unfolding spawn
spawn-some [] child h = absurd (h refl)
spawn-some (exe ∷ args) child h = (_, refl)

-- What `command_of` lets through names a command.
pub spawn-build_server :
    (raw : Raw) {c : ServerConfig} (child : Result Bytes ℕ)
    → build_server raw ≡ ok c
    → (r : AppResult ReplGuard) × (spawn c.repl_argv child ≡ some r)
spawn-build_server raw {c} child h =
    spawn-some c.repl_argv child (build_server-IsValid raw h).command
