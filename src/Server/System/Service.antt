-- ===== src/Server/System/Service.antt =====
-- What the threads of src/server.rs promise a client: one at a time, whose wire only grows.
use replstoke.Common.{
  ℕ, ◌+◌, ◌≡◌, refl, Bool, true, false, ◌&&◌, ◌||◌, not, leb, codes, List, [], ◌∷◌, ◌++◌, Option,
  none, some, arith, Bytes, if◌then◌else◌, append-nil, Bool-cases, inl, inr,
}
use replstoke.Protocol.Types.{stream_out, stream_err, stream_ctl}
use replstoke.Protocol.Ctl.{ctl_error}
use replstoke.Server.Core.{Core, Phase, Instant, booting, warmup, idle, busy, draining, stopped}
use replstoke.Server.Core
use replstoke.Server.Shared
use replstoke.Server.Shared.{
  Settings, Shared, ClientConn, ReplStdin, is_some, deliver_sink, deliver,
}
use replstoke.Server.Pump.{Action, perform}
use replstoke.Server.Supervise.{
  Limits, Supervisor, check_time, exit_notice, is_startup_failure, max_startup_failures, gave_up,
}

-- The service as its clients see it: who is attached, with what it was sent, and the next generation.
pub record Service : Type 0 where
  pub attached : Option (ℕ × Bytes)
  pub given : ℕ

-- What the service may do next.
pub data Turn : Service → Service → Type 0 where
  rests : {s : Service} → Turn s s
  admits :
      {n : ℕ}
      → Turn
          (record { attached = none; given = n })
          (record { attached = some (n, []); given = n + 1 })
  sends :
      {n g : ℕ} {wire : Bytes} (b : Bytes)
      → Turn
          (record { attached = some (g, wire); given = n })
          (record { attached = some (g, wire ++ b); given = n })
  drops :
      {n g : ℕ} {wire : Bytes}
      → Turn
          (record { attached = some (g, wire); given = n })
          (record { attached = none; given = n })

pub data Turns (s : Service) : Service → Type 0 where
  stay : Turns s s
  next : {t u : Service} → Turns s t → Turn t u → Turns s u

-- The services that a run passes, the last one first.
abbrev pub passed : {s t : Service} → Turns s t → List Service
passed {s} stay = s ∷ []
passed (next {u = u} run turn) = u ∷ passed run

-- The service before the first client.
abbrev pub vacant : Service
vacant = record { attached = none; given = 1 }

abbrev pub view_sink : Option ClientConn → Option (ℕ × Bytes)
view_sink none = none
view_sink (some c) = some (c.gen, c.wire)

abbrev pub view : Shared → Service
view sh = record { attached = view_sink sh.sink; given = sh.core.next_gen }

-- The same client with more on its wire, or none any more.
abbrev pub Follows : Option ClientConn → Option ClientConn → Type 0
Follows none none = Unit
Follows none (some d) = ⊥
Follows (some c) none = Unit
Follows (some c) (some d) = (d.gen ≡ c.gen) × (b : Bytes) × (d.wire ≡ c.wire ++ b)

same_sink : (o : Option ClientConn) → Follows o o
same_sink none = tt
same_sink (some c) = (refl, [], rw append-nil refl)

no_sink : (o : Option ClientConn) → Follows o none
no_sink none = tt
no_sink (some c) = tt

module _ (cfg : Settings) where
  deliver-Follows :
      (o : Option ClientConn) (name chunk : Bytes) → Follows o (deliver_sink cfg o name chunk)
  unfolding deliver_sink deliver
  deliver-Follows none name chunk = tt
  deliver-Follows (some c) name chunk = elim (Bool-cases c.broken) [
    | inl e ↦ simp e tt
    | inr e ↦ simp e (refl, _, refl)
  ]

  -- Neither admits a client nor gives out a generation.
  pub record Holds (sh sh' : Shared) : Type 0 where
    pub same : sh'.core.next_gen ≡ sh.core.next_gen
    pub follows : Follows sh.sink sh'.sink

  pub Holds-Turn : (sh sh' : Shared) → Holds sh sh' → Turn (view sh) (view sh')
  Holds-Turn sh sh' h = rw h.same (by sh.sink sh'.sink h.follows)
    where
      by :
          (o p : Option ClientConn)
          → Follows o p
          → Turn
              (record { attached = view_sink o; given = sh.core.next_gen })
              (record { attached = view_sink p; given = sh.core.next_gen })
      by none none f = rests
      by none (some d) f = absurd f
      by (some c) none f = drops
      by (some c) (some d) (g, b, w) = rw (g, w) (sends b)

  pub kept :
      (sh sh' : Shared) → sh'.core.next_gen ≡ sh.core.next_gen → sh'.sink ≡ sh.sink → Holds sh sh'
  kept sh sh' same e = record { same = same; follows = rw e (same_sink sh.sink) }

  cleared :
      (sh sh' : Shared) → sh'.core.next_gen ≡ sh.core.next_gen → sh'.sink ≡ none → Holds sh sh'
  cleared sh sh' same e = record { same = same; follows = rw e (no_sink sh.sink) }

  sent :
      (sh sh' : Shared) (name chunk : Bytes)
      → sh'.core.next_gen ≡ sh.core.next_gen
      → sh'.sink ≡ deliver_sink cfg sh.sink name chunk
      → Holds sh sh'
  sent sh sh' name chunk same e = record {
    same = same;
    follows = rw e (deliver-Follows sh.sink name chunk);
  }

  route_out-Holds : (b : Bytes) (c : Bool) (sh : Shared) → Holds sh (Shared.route_out cfg b c sh)
  unfolding Shared.route_out
  route_out-Holds b c sh = elim (Bool-cases (is_some sh.sink && c)) [
    | inl e ↦ simp e (sent sh _ stream_out b refl refl)
    | inr e ↦ simp e (kept sh _ refl refl)
  ]

  route_err-Holds : (b : Bytes) (c : Bool) (sh : Shared) → Holds sh (Shared.route_err cfg b c sh)
  unfolding Shared.route_err
  route_err-Holds b true sh = sent sh _ stream_err b refl refl
  route_err-Holds b false sh = kept sh _ refl refl

  pub send_ctl-Holds : (b : Bytes) (sh : Shared) → Holds sh (Shared.send_ctl cfg b sh)
  unfolding Shared.send_ctl
  send_ctl-Holds b sh = elim (Bool-cases cfg.protocol) [
    | inl e ↦ simp e (sent sh _ stream_ctl b refl refl)
    | inr e ↦ simp e (kept sh _ refl refl)
  ]

  pub perform-Holds :
      (is_err : Bool) (now : Instant) (a : Action) (sh : Shared)
      → Holds sh (perform cfg is_err now a sh)
  unfolding perform Core.ready Core.warmup_done Core.response_end
  perform-Holds is_err now Action.signal_ready sh = kept sh _ (ground arith) refl
  perform-Holds is_err now Action.warmup_done sh = kept sh _ (ground arith) (ground arith)
  perform-Holds is_err now Action.response_end sh = kept sh _ (ground arith) refl
  perform-Holds true now (Action.output b c) sh = route_err-Holds b c sh
  perform-Holds false now (Action.output b c) sh = route_out-Holds b c sh

  pub request_start-Holds : (sh : Shared) → Holds sh (Shared.request_start cfg sh)
  unfolding Shared.request_start Core.request_start
  request_start-Holds sh = kept sh _ (ground arith) refl

  pub client_gone-Holds :
      (now : Instant) (gen : ℕ) (sh : Shared) → Holds sh (Shared.client_gone cfg now gen sh)
  unfolding Shared.client_gone Core.client_gone
  client_gone-Holds now gen sh = elim (Bool-cases (Shared.is_gen gen sh.sink)) [
    | inl e ↦ cleared sh _ (ground arith) (simp e)
    | inr e ↦ kept sh _ (ground arith) (simp e)
  ]

  pub try_forward-Holds : (b : Bytes) (sh : Shared) → Holds sh (Shared.try_forward b sh).0
  unfolding Shared.try_forward
  try_forward-Holds b sh = kept sh _ (ground arith) (ground arith)

  pub check_time-Holds :
      (lim : Limits) (now : Instant) (p : Phase) (sh : Shared) (sup : Supervisor)
      → Holds sh (check_time cfg lim now p sh sup).0
  unfolding check_time Core.ready Core.warmup_done
  check_time-Holds lim now (booting since) sh sup = kept sh _ (ground arith) (ground arith)
  check_time-Holds lim now (warmup since) sh sup = kept sh _ (ground arith) (ground arith)
  check_time-Holds lim now (draining d) sh sup = kept sh _ (ground arith) (ground arith)
  check_time-Holds lim now p sh sup = kept sh _ (ground arith) (ground arith)

  pub exit_notice-Holds :
      (lim : Limits) (now : Instant) (sh : Shared) (sup : Supervisor)
      → Holds sh (exit_notice cfg lim now sh sup).0
  unfolding exit_notice
  exit_notice-Holds lim now sh sup =
      let count = if is_startup_failure now sh sup then sup.failures + 1 else 0 in
      elim (Bool-cases (not (lim.restart || sup.forced))) [
        | inl e ↦ simp e (send_ctl-Holds (ctl_error (codes "the REPL process exited")) sh)
        | inr e ↦ elim (Bool-cases (leb max_startup_failures count)) [
          | inl f ↦ simp (e, f) (send_ctl-Holds (ctl_error gave_up) sh)
          | inr f ↦ simp (e, f) (cleared sh _ refl refl)
        ]
      ]
