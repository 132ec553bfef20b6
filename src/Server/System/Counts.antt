-- ===== src/Server/System/Counts.antt =====
-- What each method of `Shared` does to the counters, in src/server.rs: lemmas for the system of threads.
use replstoke.Common.{ℕ, suc, ◌+◌, ◌≤◌, ◌<◌, ◌^◌, ◌≡◌, Bool, Option, none, some, arith, Bytes}
use replstoke.Error.{AppError}
use replstoke.Server.Core.{
  Core, Phase, Instant, booting, warmup, idle, busy, draining, stopped, is_booting_phase,
  is_warmup_phase, is_idle_phase, is_busy_phase, is_draining_phase,
}
use replstoke.Server.Core
use replstoke.Server.Shared
use replstoke.Server.Shared.{Settings, Shared, ClientConn, ReplStdin}
use replstoke.Server.Pump.{Action, perform}
use replstoke.Server.Supervise.{Limits, Supervisor, check_time, exit_notice, wired, restart_notice}

-- The counters after `n` steps, and the client that is attached.
abbrev pub IsNewest : ℕ → Option ClientConn → Type 0
IsNewest n none = Unit
IsNewest n (some c) = c.gen + 1 ≡ n

pub record Counted (n : ℕ) (sh : Shared) : Type 0 where
  pub given : sh.core.next_gen ≤ n + 1
  pub counted : sh.core.req_seq ≤ n
  pub attached : IsNewest sh.core.next_gen sh.sink

-- What a method does to them that neither admits a client nor shuts down.
pub record Grows (n : ℕ) (sh sh' : Shared) : Type 0 where
  pub counts : Counted (suc n) sh'
  pub same : sh'.core.next_gen ≡ sh.core.next_gen
  pub rises : sh.core.req_seq ≤ sh'.core.req_seq
  pub up : sh'.shutdown ≡ sh.shutdown

module _ (cfg : Settings) (n : ℕ) (few : n + 2 < 2 ^ 64) where
  pub same-Grows : (sh : Shared) → Counted n sh → Grows n sh sh
  same-Grows sh c = ground arith

  pub perform-Grows :
      (is_err : Bool) (now : Instant) (a : Action) (sh : Shared)
      → Counted n sh
      → Grows n sh (perform cfg is_err now a sh)
  unfolding perform Core.ready Core.warmup_done Core.response_end
  perform-Grows is_err now Action.signal_ready sh v = ground arith
  perform-Grows is_err now Action.warmup_done sh v = ground arith
  perform-Grows is_err now Action.response_end sh v = ground arith
  perform-Grows is_err now (Action.output b c) sh v = ground arith

  pub request_start-Grows : (sh : Shared) → Counted n sh → Grows n sh (Shared.request_start cfg sh)
  unfolding Shared.request_start Core.request_start
  request_start-Grows sh v = ground arith

  pub client_gone-Grows :
      (now : Instant) (gen : ℕ) (sh : Shared)
      → Counted n sh
      → Grows n sh (Shared.client_gone cfg now gen sh)
  unfolding Shared.client_gone Core.client_gone
  client_gone-Grows now gen sh v = ground arith

  pub try_forward-Grows :
      (b : Bytes) (sh : Shared) → Counted n sh → Grows n sh (Shared.try_forward b sh).0
  unfolding Shared.try_forward
  try_forward-Grows b sh v = ground arith

  pub send_ctl-Grows :
      (b : Bytes) (sh : Shared) → Counted n sh → Grows n sh (Shared.send_ctl cfg b sh)
  unfolding Shared.send_ctl
  send_ctl-Grows b sh v = ground arith

  pub check_time-Grows :
      (lim : Limits) (now : Instant) (p : Phase) (sh : Shared) (sup : Supervisor)
      → Counted n sh
      → Grows n sh (check_time cfg lim now p sh sup).0
  unfolding check_time Core.ready Core.warmup_done
  check_time-Grows lim now (booting since) sh sup v = ground arith
  check_time-Grows lim now (warmup since) sh sup v = ground arith
  check_time-Grows lim now (draining d) sh sup v = ground arith
  check_time-Grows lim now p sh sup v = ground arith

  -- The methods of the main loop may shut down.
  pub stop-Counted :
      (sh : Shared)
      → Counted n sh
      → Counted (suc n) (Shared.stop sh)
        × ((Shared.stop sh).core.next_gen ≡ sh.core.next_gen)
        × (sh.core.req_seq ≤ (Shared.stop sh).core.req_seq)
  unfolding Shared.stop Core.stop
  stop-Counted sh c = ground arith

  pub exit_notice-Grows :
      (lim : Limits) (now : Instant) (sh : Shared) (sup : Supervisor)
      → Counted n sh
      → Grows n sh (exit_notice cfg lim now sh sup).0
  unfolding exit_notice
  exit_notice-Grows lim now sh sup c = ground arith

  pub begin_booting-Grows :
      (now : Instant) (sh : Shared) → Counted n sh → Grows n sh (Shared.begin_booting cfg now sh)
  unfolding Shared.begin_booting Core.begin_booting
  begin_booting-Grows now sh c = ground arith

  pub wired-Grows : (sh : Shared) → Counted n sh → Grows n sh (wired sh)
  unfolding wired
  wired-Grows sh c = ground arith

  pub restart_notice-Grows :
      (e : AppError) (sh : Shared) → Counted n sh → Grows n sh (restart_notice cfg e sh)
  unfolding restart_notice
  restart_notice-Grows e sh c = ground arith

  -- A client that is admitted gets the next generation.
  pub register-Counted :
      (cloned : Bool) (sh : Shared)
      → Counted n sh
      → let sh' = (Shared.register cloned sh).0 in
        Counted (suc n) sh'
        × (sh.core.req_seq ≤ sh'.core.req_seq)
        × (sh'.shutdown ≡ sh.shutdown)
        × (sh.core.next_gen ≤ sh'.core.next_gen)
        × ((g : ℕ)
            → (Shared.register cloned sh).1 ≡ some g
            → (g ≡ sh.core.next_gen) × (sh'.core.next_gen ≡ suc g))
  unfolding Shared.register Core.try_accept
  register-Counted cloned sh c =
      (ground arith, ground arith, ground arith, ground arith, λ g h. ground arith)
