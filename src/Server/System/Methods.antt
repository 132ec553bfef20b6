-- ===== src/Server/System/Methods.antt =====
-- What each method of `Shared` keeps, in src/server.rs: lemmas for the system of threads.
use replstoke.Common.{ℕ, ◌≡◌, Bool, true, false, arith, Bytes}
use replstoke.Error.{AppError}
use replstoke.Server.Core.{
  Core, Phase, Instant, booting, warmup, idle, busy, draining, stopped, is_booting_phase,
  is_warmup_phase, is_idle_phase, is_busy_phase, is_draining_phase,
}
use replstoke.Server.Core
use replstoke.Server.Shared
use replstoke.Server.Shared.{Settings, Shared, ClientConn, ReplStdin}
use replstoke.Server.Pump.{Action, perform}
use replstoke.Server.Supervise.{Limits, Supervisor, check_time, exit_notice, wired, restart_notice}

abbrev pub is_in_flight : Phase → Bool
is_in_flight busy = true
is_in_flight (draining d) = true
is_in_flight _ = false

abbrev pub is_serving_phase : Phase → Bool
is_serving_phase idle = true
is_serving_phase busy = true
is_serving_phase (draining d) = true
is_serving_phase _ = false

abbrev pub is_stopped_phase : Phase → Bool
is_stopped_phase stopped = true
is_stopped_phase _ = false

-- What every method of `Shared` keeps.
pub record IsSane (cfg : Settings) (sh : Shared) : Type 0 where
  -- the server has stopped exactly if it shuts down
  pub down : sh.shutdown ≡ is_stopped_phase sh.core.phase
  -- a REPL with a warmup serves nobody before its warmup has been sent
  pub warmed :
      Shared.has_warmup cfg ≡ true → is_serving_phase sh.core.phase ≡ true → sh.warmup_sent ≡ true
  pub warms : is_warmup_phase sh.core.phase ≡ true → Shared.has_warmup cfg ≡ true
  pub boots : is_booting_phase sh.core.phase ≡ true → cfg.initial_ready ≡ false
  -- without framing no request is ever in flight
  pub raw : cfg.protocol ≡ false → is_in_flight sh.core.phase ≡ false

module _ (cfg : Settings) where
  pub perform-IsSane :
      (is_err : Bool) (now : Instant) (a : Action) (sh : Shared)
      → IsSane cfg sh
      → IsSane cfg (perform cfg is_err now a sh)
  unfolding perform Core.ready Core.warmup_done Core.response_end
  perform-IsSane is_err now Action.signal_ready sh v = ground arith
  perform-IsSane is_err now Action.warmup_done sh v = ground arith
  perform-IsSane is_err now Action.response_end sh v = ground arith
  perform-IsSane is_err now (Action.output b c) sh v = ground arith

  pub request_start-IsSane :
      (sh : Shared) → IsSane cfg sh → IsSane cfg (Shared.request_start cfg sh)
  unfolding Shared.request_start Core.request_start
  request_start-IsSane sh v = ground arith

  pub client_gone-IsSane :
      (now : Instant) (gen : ℕ) (sh : Shared)
      → IsSane cfg sh
      → IsSane cfg (Shared.client_gone cfg now gen sh)
  unfolding Shared.client_gone Core.client_gone
  client_gone-IsSane now gen sh v = ground arith

  pub try_forward-IsSane :
      (b : Bytes) (sh : Shared) → IsSane cfg sh → IsSane cfg (Shared.try_forward b sh).0
  unfolding Shared.try_forward
  try_forward-IsSane b sh v = ground arith

  pub stop-IsSane : (sh : Shared) → IsSane cfg sh → IsSane cfg (Shared.stop sh)
  unfolding Shared.stop Core.stop
  stop-IsSane sh v = ground arith

  pub send_ctl-IsSane :
      (b : Bytes) (sh : Shared) → IsSane cfg sh → IsSane cfg (Shared.send_ctl cfg b sh)
  unfolding Shared.send_ctl
  send_ctl-IsSane b sh v = ground arith

  pub register-IsSane :
      (cloned : Bool) (sh : Shared) → IsSane cfg sh → IsSane cfg (Shared.register cloned sh).0
  unfolding Shared.register Core.try_accept
  register-IsSane cloned sh v = ground arith

  pub begin_booting-IsSane :
      (now : Instant) (sh : Shared)
      → sh.shutdown ≡ false
      → IsSane cfg sh
      → IsSane cfg (Shared.begin_booting cfg now sh)
  unfolding Shared.begin_booting Core.begin_booting
  begin_booting-IsSane now sh up v = ground arith

  pub check_time-IsSane :
      (lim : Limits) (now : Instant) (p : Phase) (sh : Shared) (sup : Supervisor)
      → IsSane cfg sh
      → IsSane cfg (check_time cfg lim now p sh sup).0
  unfolding check_time Core.ready Core.warmup_done
  check_time-IsSane lim now (booting since) sh sup v = ground arith
  check_time-IsSane lim now (warmup since) sh sup v = ground arith
  check_time-IsSane lim now (draining d) sh sup v = ground arith
  check_time-IsSane lim now p sh sup v = ground arith

  pub exit_notice-IsSane :
      (lim : Limits) (now : Instant) (sh : Shared) (sup : Supervisor)
      → IsSane cfg sh
      → IsSane cfg (exit_notice cfg lim now sh sup).0
  unfolding exit_notice
  exit_notice-IsSane lim now sh sup v = ground arith

  pub wired-IsSane : (sh : Shared) → IsSane cfg sh → IsSane cfg (wired sh)
  unfolding wired
  wired-IsSane sh v = ground arith

  pub restart_notice-IsSane :
      (e : AppError) (sh : Shared) → IsSane cfg sh → IsSane cfg (restart_notice cfg e sh)
  unfolding restart_notice
  restart_notice-IsSane e sh v = ground arith
