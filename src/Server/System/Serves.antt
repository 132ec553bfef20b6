-- ===== src/Server/System/Serves.antt =====
-- Every run of the threads of src/server.rs is one of the service of `Service`.
use replstoke.Common.{
  ℕ, zero, suc, ◌+◌, ◌<◌, ◌^◌, ◌≡◌, refl, ap, Bool, ◌||◌, not, codes, List, [], ◌∷◌, ◌++◌, arith,
  Bool-cases, Option-cases, inl, inr,
}
use replstoke.Protocol.Ctl.{ctl_error, ctl_status}
use replstoke.Server.Core.{Core, Phase, Instant, booting, warmup, idle, busy, draining, stopped}
use replstoke.Server.Core
use replstoke.Server.Shared
use replstoke.Server.Shared.{
  Settings, Shared, ClientConn, ReplStdin, is_some, deliver_sink, deliver,
}
use replstoke.Server.Supervise.{Limits, wired, restart_notice}
use replstoke.Server.Threads.{PumpThread, PumpStep, ClientPc, ClientStep}
use replstoke.Server.System.{System, MainStep, Step, Reach, init}
use replstoke.Server.System.Kept.{Inv}
use replstoke.Server.System.Invariant.{Reach-Inv}
use replstoke.Server.System.Service.{
  Service, Turn, rests, admits, Turns, stay, next, vacant, view, passed, Holds, Holds-Turn, kept,
  perform-Holds, request_start-Holds, client_gone-Holds, try_forward-Holds, check_time-Holds,
  exit_notice-Holds, send_ctl-Holds,
}

module _ (cfg : Settings) where
  PumpStep-Holds :
      {is_err : Bool} {now : Instant} {sh sh' : Shared} {p p' : PumpThread}
      → PumpStep cfg is_err now sh p sh' p'
      → Holds cfg sh sh'
  PumpStep-Holds {sh = sh} (PumpStep.read chunk) = kept cfg sh sh refl refl
  PumpStep-Holds {sh = sh} PumpStep.scan = kept cfg sh sh refl refl
  PumpStep-Holds {is_err} {now} {sh = sh} (PumpStep.act {a = a}) = perform-Holds cfg is_err now a sh
  PumpStep-Holds {sh = sh} PumpStep.again = kept cfg sh sh refl refl
  PumpStep-Holds {sh = sh} PumpStep.read_end = kept cfg sh sh refl refl
  PumpStep-Holds {is_err} {now} {sh = sh} (PumpStep.close {a = a}) =
      perform-Holds cfg is_err now a sh
  PumpStep-Holds {sh = sh} PumpStep.exit = kept cfg sh sh refl refl

  ClientStep-Holds :
      {signalled : Bool} {now : Instant} {gen : ℕ} {sh sh' : Shared} {p p' : ClientPc}
      → ClientStep cfg signalled now gen sh p sh' p'
      → Holds cfg sh sh'
  ClientStep-Holds {sh = sh} ClientStep.start = request_start-Holds cfg sh
  ClientStep-Holds {now = now} {gen} {sh} ClientStep.leave = client_gone-Holds cfg now gen sh
  ClientStep-Holds {sh = sh} (ClientStep.write {chunk = chunk} e) =
      rw (← ap (λ x. x.0) e) (try_forward-Holds cfg chunk sh)
  ClientStep-Holds {sh = sh} (ClientStep.fail {chunk = chunk} e) =
      rw (← ap (λ x. x.0) e) (try_forward-Holds cfg chunk sh)
  ClientStep-Holds {sh = sh} (ClientStep.ready e) = kept cfg sh sh refl refl
  ClientStep-Holds {sh = sh} (ClientStep.give_up e) = kept cfg sh sh refl refl
  ClientStep-Holds {sh = sh} (ClientStep.read c) = kept cfg sh sh refl refl
  ClientStep-Holds {sh = sh} ClientStep.read_end = kept cfg sh sh refl refl
  ClientStep-Holds {sh = sh} (ClientStep.go_on e) = kept cfg sh sh refl refl
  ClientStep-Holds {sh = sh} (ClientStep.drop_input e) = kept cfg sh sh refl refl
  ClientStep-Holds {sh = sh} (ClientStep.retry e) = kept cfg sh sh refl refl
  ClientStep-Holds {sh = sh} (ClientStep.stop e) = kept cfg sh sh refl refl

  register-Turn :
      (cloned : Bool) (sh : Shared)
      → sh.core.next_gen + 1 < 2 ^ 64
      → Turn (view sh) (view (Shared.register cloned sh).0)
  unfolding Shared.register Core.try_accept Shared.admit
  register-Turn cloned sh few =
      let ph = sh.core.phase in
      let refused =
        not (Core.is_booting_phase ph || Core.is_warmup_phase ph || Core.is_idle_phase ph) in
      let small : Core.u64 (sh.core.next_gen + 1) ≡ sh.core.next_gen + 1 = omega arith in
      elim (Option-cases sh.sink) [
        | inr (c, e) ↦ simp e rests
        | inl e ↦ elim (Bool-cases cloned) [
          | inr f ↦ simp (e, f) rests
          | inl f ↦ elim (Bool-cases refused) [
            | inl g ↦ simp (e, f, g) rests
            | inr g ↦ simp (e, f, g, small) admits
          ]
        ]
      ]

  module _ (lim : Limits) (repl_pid n : ℕ) (s : System) (v : Inv cfg n s)
      (few : n + 2 < 2 ^ 64) where
    main-Turn : {t : System} → MainStep cfg lim repl_pid s t → Turn (view s.shared) (view t.shared)
    unfolding Shared.stop Core.stop Shared.begin_booting Core.begin_booting wired restart_notice
        Shared.send_ctl_status
    main-Turn (MainStep.accept cloned e) =
        register-Turn cloned s.shared (omega (arith, v.counted.given))
    main-Turn (MainStep.stop e h) = rests
    main-Turn (MainStep.look e h) = rests
    main-Turn (MainStep.time p e) =
        Holds-Turn cfg s.shared _ (check_time-Holds cfg lim s.now p s.shared s.loop)
    main-Turn (MainStep.runs e) = rests
    main-Turn (MainStep.lost e) =
        let down = Shared.stop s.shared in
        Holds-Turn cfg s.shared down (kept cfg s.shared down (ground arith) refl)
    main-Turn (MainStep.exits e joined) =
        Holds-Turn cfg s.shared _ (exit_notice-Holds cfg lim s.now s.shared s.loop)
    main-Turn (MainStep.quits e) =
        let down = Shared.stop s.shared in
        Holds-Turn cfg s.shared down (kept cfg s.shared down (ground arith) refl)
    main-Turn (MainStep.respawns e) =
        let boots = Shared.begin_booting cfg s.now s.shared in
        Holds-Turn cfg s.shared boots (kept cfg s.shared boots (ground arith) refl)
    main-Turn (MainStep.wires e) = rests
    main-Turn (MainStep.fails er e) = Holds-Turn cfg s.shared _ (
        send_ctl-Holds cfg (ctl_error (codes "failed to restart the REPL: " ++ er.message))
          s.shared)
    main-Turn (MainStep.waits e) = rests
    main-Turn (MainStep.greet gen e) =
        let text = ctl_status (Shared.status_fields cfg repl_pid s.shared.core.requests s.now) in
        Holds-Turn cfg s.shared _ (send_ctl-Holds cfg text s.shared)

    step-Turn : {t : System} → Step cfg lim repl_pid s t → Turn (view s.shared) (view t.shared)
    step-Turn (Step.out_moves st) = Holds-Turn cfg s.shared _ (PumpStep-Holds st)
    step-Turn (Step.err_moves st) = Holds-Turn cfg s.shared _ (PumpStep-Holds st)
    step-Turn (Step.client_moves gen st) = Holds-Turn cfg s.shared _ (ClientStep-Holds st)
    step-Turn (Step.main_moves st) = main-Turn st
    step-Turn (Step.tick d) = rests
    step-Turn Step.signal = rests
    step-Turn (Step.hangs_up c e) = simp e rests
    step-Turn (Step.dies w e) = rests

-- What clients see of the states that a run of the threads passes, the last one first.
abbrev pub seen :
    {cfg : Settings} {lim : Limits} {repl_pid : ℕ} {now : Instant} {n : ℕ} {s : System}
    → Reach cfg lim repl_pid now n s
    → List Service
seen {s = s} Reach.start = view s.shared ∷ []
seen (Reach.later {t = t} run st) = view t.shared ∷ seen run

-- For every run of the main loop, both pumps and the clients' threads, in whatever order they act, of n
-- steps with n + 2 below 2 ^ 64, there is a run of the service that its clients see which passes, step
-- by step, exactly the services that are seen in the states of the run. So in every step of the threads
-- a client is admitted only while nobody is attached, with a generation that was never given out and an
-- empty wire; or the attached client's wire grows at the end; or the client is dropped; or nothing
-- changes of who is attached, what was sent to it and which generations were given out.
pub Reach-Turns :
    (cfg : Settings) (lim : Limits) (repl_pid : ℕ) (now : Instant) (n : ℕ) (s : System)
    → n + 2 < 2 ^ 64
    → (run : Reach cfg lim repl_pid now n s)
    → (turns : Turns vacant (view s.shared)) × (passed turns ≡ seen run)
unfolding init Core.new
Reach-Turns cfg lim repl_pid now zero s few Reach.start = (stay, refl)
Reach-Turns cfg lim repl_pid now (suc n) s few (Reach.later {s = t} r st) =
    let v = Reach-Inv cfg lim repl_pid now n t (omega arith) r in
    let (turns, same) = Reach-Turns cfg lim repl_pid now n t (omega arith) r in
    (
      next turns (step-Turn cfg lim repl_pid n t v (omega arith) st),
      ap (λ ss. view s.shared ∷ ss) same,
    )
