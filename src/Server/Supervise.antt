-- ===== src/Server/Supervise.antt =====
-- The supervision in the main loop of `run` in src/server.rs: the timeouts of a phase, and what follows
-- when the REPL's process has exited. Time is in milliseconds.
pub mod Breaker
use replstoke.Common.{
  ℕ, zero, suc, ◌+◌, ◌-◌, ◌*◌, ◌^◌, min, ◌≡◌, refl, Bool, true, false, not, ◌||◌, ◌&&◌, List, [],
  ◌∷◌, ◌++◌, Option, none, some, if◌then◌else◌, Bytes, codes, Result, ok, err, ltb, leb, ◌==◌, ◌%◌,
}
use replstoke.Error.{AppError, AppResult, failure}
use replstoke.Server.Core.{Instant, Duration, Phase, booting, warmup, idle, busy, draining, stopped}
use replstoke.Server.Shared
use replstoke.Server.Shared.{Settings, Shared}

abbrev pub startup_grace : Duration
startup_grace = 500

abbrev pub max_startup_failures : ℕ
max_startup_failures = 5

-- The fields of `ServerConfig` that only the main loop uses.
pub record Limits : Type 0 where
  pub restart : Bool
  pub ready_wait : Option Duration
  pub ready_marker_timeout : Option Duration
  pub warmup_wait : Option Duration
  pub warmup_marker_timeout : Option Duration

-- The variables of the main loop.
pub record Supervisor : Type 0 where
  pub failures : ℕ  -- u32
  pub last_spawn : Instant
  pub forced : Bool
  pub stuck : Bool

-- The state, the loop's variables, and whether `guard.terminate()` was called.
abbrev pub Timed : Type 0
Timed = Shared × Supervisor × Bool

-- `since.elapsed() >= t`.
abbrev pub has_elapsed : Instant → Instant → Duration → Bool
has_elapsed now since t = leb t (now - since)

-- A marker timeout: the REPL is stuck and is killed once.
unfoldable pub check_stuck : Instant → Instant → Option Duration → Shared → Supervisor → Timed
check_stuck now since none sh sup = (sh, sup, false)
check_stuck now since (some t) sh sup =
    if not sup.stuck && has_elapsed now since t
    then (sh, record sup { stuck = true }, true)
    else (sh, sup, false)

unfoldable pub check_booting : Settings → Limits → Instant → Instant → Shared → Supervisor → Timed
unfolding check_stuck Shared.signal_ready
check_booting cfg lim now since sh sup = elim lim.ready_wait [
  | some w ↦ (if has_elapsed now since w then Shared.signal_ready cfg now sh else sh, sup, false)
  | none ↦ check_stuck now since lim.ready_marker_timeout sh sup
]

abbrev pub waited : Instant → Instant → Option Duration → Bool
waited now since none = false
waited now since (some t) = has_elapsed now since t

unfoldable pub check_warmup : Settings → Limits → Instant → Instant → Shared → Supervisor → Timed
unfolding check_stuck Shared.send_warmup Shared.warmup_done
check_warmup cfg lim now since sh sup =
    if not sh.warmup_sent
    then (Shared.send_warmup cfg sh, sup, false)
    else if waited now since lim.warmup_wait
    then (Shared.warmup_done sh, sup, false)
    else check_stuck now since lim.warmup_marker_timeout sh sup

unfoldable pub check_draining : Instant → Option Instant → Shared → Supervisor → Timed
check_draining now none sh sup = (sh, sup, false)
check_draining now (some deadline) sh sup =
    if not sup.forced && leb deadline now
    then (sh, record sup { forced = true }, true)
    else (sh, sup, false)

-- The first part of a round, by the phase that it reads.
unfoldable pub check_time : Settings → Limits → Instant → Phase → Shared → Supervisor → Timed
unfolding check_booting check_warmup check_draining
check_time cfg lim now (booting since) sh sup = check_booting cfg lim now since sh sup
check_time cfg lim now (warmup since) sh sup = check_warmup cfg lim now since sh sup
check_time cfg lim now (draining deadline) sh sup = check_draining now deadline sh sup
check_time cfg lim now _ sh sup = (sh, sup, false)

-- `100 * (1 << shift)` does not saturate, as `shift` is at most 5.
unfoldable pub backoff_for : ℕ → Duration
backoff_for n = if n == 0 then 0 else min (100 * 2 ^ min (n - 1) 5) 2000

-- Whether the loop goes on (`none`), or its outcome.
abbrev pub Exited : Type 0
Exited = Shared × Supervisor × Option (AppResult (Unit {0}))

-- `wire_repl`: the new REPL's stdin is empty.
unfoldable pub wired : Shared → Shared
wired sh = record sh { repl_stdin = some (record { taken = []; broken = false }) }

unfoldable pub restart_notice : Settings → AppError → Shared → Shared
unfolding Shared.send_ctl_error
restart_notice cfg e sh =
    Shared.send_ctl_error cfg (codes "failed to restart the REPL: " ++ e.message) sh

-- `repl::spawn` and what follows it: `spawned` is its error, if it fails.
unfoldable pub respawn : Settings → Instant → Option AppError → Shared → Supervisor → Exited
unfolding Shared.begin_booting Shared.stop wired restart_notice
respawn cfg now none sh sup =
    (wired (Shared.begin_booting cfg now sh), record sup { last_spawn = now }, none)
respawn cfg now (some e) sh sup = (Shared.stop (restart_notice cfg e sh), sup, some (err e))

unfoldable pub is_startup_failure : Instant → Shared → Supervisor → Bool
is_startup_failure now sh sup =
    sup.stuck || (not sh.core.served && ltb (now - sup.last_spawn) startup_grace)

unfoldable pub gave_up : Bytes
gave_up = codes "the REPL repeatedly failed to start; giving up"

-- `child.try_wait()` has returned a status, at `now`: up to `stop`, if the loop ends, or the state in
-- which the next REPL is spawned.
unfoldable pub exit_notice : Settings → Limits → Instant → Shared → Supervisor → Exited
unfolding is_startup_failure Shared.send_ctl_error Shared.clear_sink failure gave_up
exit_notice cfg lim now sh sup =
    let count = if is_startup_failure now sh sup then sup.failures + 1 else 0 in
    let next = record sup { failures = count; forced = false; stuck = false } in
    if not (lim.restart || sup.forced)
    then (
      Shared.send_ctl_error cfg (codes "the REPL process exited") sh,
      record sup { forced = false },
      some (ok tt),
    )
    else if leb max_startup_failures count
    then (Shared.send_ctl_error cfg gave_up sh, next, some (err (failure gave_up)))
    else (Shared.clear_sink sh, next, none)

unfoldable pub stop_after : Exited → Exited
unfolding Shared.stop
stop_after (sh, sup, none) = (sh, sup, none)
stop_after (sh, sup, some outcome) = (Shared.stop sh, sup, some outcome)

-- With no other thread between.
unfoldable pub exit_now : Settings → Limits → Instant → Shared → Supervisor → Exited
unfolding exit_notice stop_after
exit_now cfg lim now sh sup = stop_after (exit_notice cfg lim now sh sup)

unfoldable pub restart_after : Settings → Instant → Option AppError → Exited → Exited
unfolding respawn
restart_after cfg later spawned (sh, sup, some outcome) = (sh, sup, some outcome)
restart_after cfg later spawned (sh, sup, none) = respawn cfg later spawned sh sup

-- The whole of it, with no other thread between: the next REPL is spawned at `later`, behind the
-- backoff, with the result `spawned`.
unfoldable pub on_exit :
    Settings → Limits → Instant → Instant → Option AppError → Shared → Supervisor → Exited
unfolding exit_now restart_after
on_exit cfg lim now later spawned sh sup =
    restart_after cfg later spawned (exit_now cfg lim now sh sup)
