-- ===== src/Tests/Restarts.antt =====
-- Exits of the REPL at concrete inputs: the main loop in src/server.rs.
use replstoke.Common.{
  ℕ, ◌+◌, ◌≤◌, ◌<◌, ◌≡◌, ◌≢◌, ◌⊎◌, refl, Bool, true, false, [], ◌∷◌, some, none, arith, codes,
  length,
}
use replstoke.Error.{AppError}
use replstoke.Server.Core.{idle, stopped}
use replstoke.Server.Core
use replstoke.Server.Shared
use replstoke.Server.Shared.{Settings, Shared}
use replstoke.Server.Supervise.{
  Limits, Supervisor, max_startup_failures, backoff_for, is_startup_failure, on_exit,
}
use replstoke.Server.Supervise.Breaker.{
  Exit, failed_start, survive, backoff_range, crash_loop_ends, respawned_fresh, ended_stopped,
  failed_restart_unheard,
}
use replstoke.Tests.Control.{framed, client, shared}

abbrev limits : Bool → Limits
limits restart = record {
  restart = restart;
  ready_wait = none;
  ready_marker_timeout = none;
  warmup_wait = none;
  warmup_marker_timeout = none;
}

abbrev loop : Supervisor
loop = record { failures = 0; last_spawn = 100; forced = false; stuck = false }

abbrev attached : Shared
attached = shared idle (some (client 1))

abbrev broken : AppError
broken = record { message = codes "No such file"; code = 1 }

abbrev quick : Exit
quick = record { now = 200; later = 300; spawned = none; shared = attached; loop = loop }

backoff_range_example :
    (backoff_for 0 ≡ 0)
    × (100 ≤ backoff_for 3)
    × (backoff_for 3 ≤ 2000)
    × (backoff_for 2 ≤ backoff_for 3)
backoff_range_example = backoff_range 2

quick_fails : (m : ℕ) → failed_start m quick ≡ true
unfolding is_startup_failure
quick_fails m = refl

two_survived : survive framed (limits true) 1 (quick ∷ quick ∷ []) ≡ some 3
unfolding survive on_exit
two_survived = refl

crash_loop_ends_example : 1 + length (quick ∷ quick ∷ []) < max_startup_failures
crash_loop_ends_example =
    crash_loop_ends framed (limits true) 1 (quick ∷ quick ∷ []) 3 (omega arith)
      (λ m. (quick_fails m, (quick_fails m, tt))) two_survived

goes_on : (on_exit framed (limits true) 200 300 none attached loop).2 ≡ none
unfolding on_exit
goes_on = refl

respawned_fresh_example :
    let (sh', sup', outcome) = on_exit framed (limits true) 200 300 none attached loop in
    (sh'.sink ≡ none)
    × (sh'.core.serving ≡ false)
    × (sh'.core.served ≡ false)
    × (sh'.core.phase ≡ Core.initial_phase true (Shared.has_warmup framed) 300)
    × (sh'.warmup_sent ≡ false)
    × (sh'.repl_stdin ≡ some (record { taken = []; broken = false }))
    × (sup'.forced ≡ false)
    × (sup'.stuck ≡ false)
    × ((true ≡ true) ⊎ (false ≡ true))
respawned_fresh_example = respawned_fresh framed (limits true) 200 300 none attached loop goes_on

gives_up : (on_exit framed (limits false) 200 300 none attached loop).2 ≢ none
unfolding on_exit
gives_up = ground arith

ended_stopped_example :
    let sh' = (on_exit framed (limits false) 200 300 none attached loop).0 in
    (sh'.core.phase ≡ stopped) × (sh'.shutdown ≡ true)
ended_stopped_example = ended_stopped framed (limits false) 200 300 none attached loop gives_up

failed_restart_unheard_example :
    (on_exit framed (limits true) 200 300 (some broken) attached loop).0
    ≡ Shared.stop (Shared.clear_sink attached)
failed_restart_unheard_example =
    failed_restart_unheard framed (limits true) 200 300 broken attached loop refl (omega arith)
