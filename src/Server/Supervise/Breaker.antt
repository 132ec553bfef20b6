-- ===== src/Server/Supervise/Breaker.antt =====
-- Restarts: the backoff, the crash-loop breaker and the exits, from the main loop in src/server.rs.
use replstoke.Common.{
  ℕ, zero, suc, ◌+◌, ◌-◌, ◌*◌, ◌^◌, ◌≤◌, ◌<◌, min, ◌≡◌, ◌≢◌, ◌⊎◌, inl, inr, refl, Bool, true, false,
  List, [], ◌∷◌, Option, none, some, arith, length, All, Option-cases,
}
use replstoke.Error.{AppError, AppResult}
use replstoke.Server.Core.{Core, Instant, stopped}
use replstoke.Server.Core
use replstoke.Server.Shared
use replstoke.Server.Shared.{Settings, Shared}
use replstoke.Server.Supervise.{
  Limits, Supervisor, max_startup_failures, backoff_for, is_startup_failure, on_exit, Exited,
}

doubled : (k : ℕ) → k ≤ 5 → (100 ≤ 100 * 2 ^ k) × (100 * 2 ^ k ≤ 3200)
doubled zero h = omega arith
doubled (suc zero) h = omega arith
doubled (suc (suc zero)) h = omega arith
doubled (suc (suc (suc zero))) h = omega arith
doubled (suc (suc (suc (suc zero)))) h = omega arith
doubled (suc (suc (suc (suc (suc zero))))) h = omega arith
doubled (suc (suc (suc (suc (suc (suc k)))))) h = omega arith

-- The backoff is nothing without a failure, lies between 100 and 2000 milliseconds after one, and never
-- shrinks from one failure to the next.
pub backoff_range :
    (n : ℕ)
    → (backoff_for 0 ≡ 0)
      × (100 ≤ backoff_for (suc n))
      × (backoff_for (suc n) ≤ 2000)
      × (backoff_for n ≤ backoff_for (suc n))
unfolding backoff_for
backoff_range n = (refl, ground (arith, doubled (min (suc n - 1) 5)), ground arith, grows n)
  where
    grows : (n : ℕ) → backoff_for n ≤ backoff_for (suc n)
    grows zero = omega arith
    grows (suc zero) = omega arith
    grows (suc (suc zero)) = omega arith
    grows (suc (suc (suc zero))) = omega arith
    grows (suc (suc (suc (suc zero)))) = omega arith
    grows (suc (suc (suc (suc (suc zero))))) = omega arith
    grows (suc (suc (suc (suc (suc (suc n)))))) =
        let a : min (suc (suc (suc (suc (suc (suc n))))) - 1) 5 ≡ 5 = omega arith in
        let b : min (suc (suc (suc (suc (suc (suc (suc n)))))) - 1) 5 ≡ 5 = omega arith in
        rw (a, b) (ground arith)

-- One exit of the REPL: when it is seen, when the next is spawned and with what result, and the state.
pub record Exit : Type 0 where
  pub now : Instant
  pub later : Instant
  pub spawned : Option AppError
  pub shared : Shared
  pub loop : Supervisor

-- What the loop makes of an exit after `n` startup failures in a row.
abbrev pub handle : Settings → Limits → ℕ → Exit → Exited
handle cfg lim n x =
    on_exit cfg lim x.now x.later x.spawned x.shared (record x.loop { failures = n })

abbrev pub failed_start : ℕ → Exit → Bool
failed_start n x = is_startup_failure x.now x.shared (record x.loop { failures = n })

-- The counter after a run of exits that the loop survives.
abbrev pub go_on : Option (AppResult (Unit {0})) → Option ℕ → Option ℕ
go_on none rest = rest
go_on (some outcome) rest = none

unfoldable pub survive : Settings → Limits → ℕ → List Exit → Option ℕ
survive cfg lim n [] = some n
survive cfg lim n (x ∷ xs) =
    let (sh, sup, outcome) = handle cfg lim n x in go_on outcome (survive cfg lim sup.failures xs)

-- The loop goes on only below the limit, with the counter raised after a failed start and reset else.
survived :
    (cfg : Settings) (lim : Limits) (n : ℕ) (x : Exit)
    → (handle cfg lim n x).2 ≡ none
    → ((handle cfg lim n x).1.failures < max_startup_failures)
      × (failed_start n x ≡ true → (handle cfg lim n x).1.failures ≡ n + 1)
unfolding on_exit
survived cfg lim n x h = ground arith

-- A run of failed starts that the main loop survives keeps the count of failures below the limit:
-- starting from n failures, n and the number of exits survived are together less than five.
pub crash_loop_ends :
    (cfg : Settings) (lim : Limits) (n : ℕ) (xs : List Exit) (k : ℕ)
    → n < max_startup_failures
    → ((m : ℕ) → All (λ x. failed_start m x ≡ true) xs)
    → survive cfg lim n xs ≡ some k
    → n + length xs < max_startup_failures
unfolding survive
crash_loop_ends cfg lim n [] k below failing h = omega arith
crash_loop_ends cfg lim n (x ∷ xs) k below failing h =
    elim (Option-cases ((handle cfg lim n x).2)) [
      | inl goes ↦
          let (low, raised) = survived cfg lim n x goes in
          let up = raised ((failing n).0) in
          let rest : survive cfg lim ((handle cfg lim n x).1.failures) xs ≡ some k = rw goes at h in
          let shorter =
            crash_loop_ends cfg lim ((handle cfg lim n x).1.failures) xs k low (λ m. (failing m).1)
              rest in
          omega arith
      | inr (o, ends) ↦ let gone : none ≡ some k = rw ends at h in absurd (ground arith)
    ]

module _ (cfg : Settings) (lim : Limits) (now later : Instant) (spawned : Option AppError)
    (sh : Shared) (sup : Supervisor) where
  -- An exit that the main loop survives leaves a fresh REPL: no client is attached or served, nothing
  -- counts as served, the reasons are cleared, its stdin is new and empty, its warmup is still to be
  -- sent, and either restarts are on or the exit was forced.
  pub respawned_fresh :
      (on_exit cfg lim now later spawned sh sup).2 ≡ none
      → let (sh', sup', outcome) = on_exit cfg lim now later spawned sh sup in
        (sh'.sink ≡ none)
        × (sh'.core.serving ≡ false)
        × (sh'.core.served ≡ false)
        × (sh'.core.phase ≡ Core.initial_phase cfg.initial_ready (Shared.has_warmup cfg) later)
        × (sh'.warmup_sent ≡ false)
        × (sh'.repl_stdin ≡ some (record { taken = []; broken = false }))
        × (sup'.forced ≡ false)
        × (sup'.stuck ≡ false)
        × ((lim.restart ≡ true) ⊎ (sup.forced ≡ true))
  unfolding on_exit Core.begin_booting
  respawned_fresh h = ground arith

  -- An exit of the REPL that ends the main loop leaves the server stopped and shutting down.
  pub ended_stopped :
      (on_exit cfg lim now later spawned sh sup).2 ≢ none
      → let sh' = (on_exit cfg lim now later spawned sh sup).0 in
        (sh'.core.phase ≡ stopped) × (sh'.shutdown ≡ true)
  unfolding on_exit Core.stop
  ended_stopped h = ground arith

-- With restarts on, when a restart fails below the limit of failures, the state is that of clearing the
-- client's connection and stopping, so the error message that is sent reaches nobody.
pub failed_restart_unheard :
    (cfg : Settings) (lim : Limits) (now later : Instant) (e : AppError) (sh : Shared)
    (sup : Supervisor)
    → lim.restart ≡ true
    → sup.failures + 1 < max_startup_failures
    → (on_exit cfg lim now later (some e) sh sup).0 ≡ Shared.stop (Shared.clear_sink sh)
unfolding on_exit Shared.send_ctl
failed_restart_unheard cfg lim now later e sh sup restarts below = ground arith
