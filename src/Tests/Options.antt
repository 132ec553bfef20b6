-- ===== src/Tests/Options.antt =====
-- A command line at a concrete input: src/cli/mod.rs.
use replstoke.Common.{Bytes, ◌≡◌, refl, true, List, [], ◌∷◌, some, codes, ok, err, none}
use replstoke.Cli.Config.{tcp, default_addr, default_port}
use replstoke.Cli.Raw.{Raw, blank}
use replstoke.Error.{usage, exit_usage}
use replstoke.Cli.Raw.{ParseSeconds, handle_short}
use replstoke.Cli.Build.{build_server, server_config, parse}
use replstoke.Main.{Modes, run}
use replstoke.Main.Refused.{run-refused}
use replstoke.Cli.Build.Valid.{IsValid, build_server-IsValid}

abbrev command : List Bytes
command = codes "python3" ∷ codes "-i" ∷ []

abbrev python : Raw
python = record blank {
  server = true;
  exec = some command;
  warmup = some (codes "1");
  warmup_wait = some 5;
}

accepted : build_server python ≡ ok (server_config python (tcp default_addr default_port) command)
unfolding build_server server_config
accepted = refl

build_server-IsValid_example :
    IsValid (server_config python (tcp default_addr default_port) command)
build_server-IsValid_example = build_server-IsValid python accepted

abbrev no_seconds : ParseSeconds
no_seconds s = none

abbrev modes : Modes
modes = record { run_server = λ c. ok tt; run_client = λ c. ok tt; run_general = λ a. ok tt }

abbrev both : List Bytes
both = codes "-s" ∷ codes "-c" ∷ []

refused : parse no_seconds both ≡ err (usage (codes "-s and -c cannot be combined"))
unfolding parse handle_short
refused = refl

run-refused_example : run no_seconds modes both ≡ exit_usage
run-refused_example =
    run-refused no_seconds modes both (usage (codes "-s and -c cannot be combined")) refused
