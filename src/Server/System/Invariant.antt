-- ===== src/Server/System/Invariant.antt =====
-- The invariant of the threads of src/server.rs, over every interleaving: the steps of the main loop, and
-- the runs from its start.
use replstoke.Common.{
  ℕ, zero, suc, ◌+◌, ◌≤◌, ◌<◌, ◌^◌, ◌≡◌, ◌≢◌, inl, inr, refl, sym, ◌∙◌, Bool, true, false, Option,
  none, some, arith, Bool-cases,
}
use replstoke.Error.{AppResult}
use replstoke.Protocol.Ctl.{ctl_status}
use replstoke.Server.Core.{Core, Phase, Instant, booting, warmup, idle, busy, draining, stopped}
use replstoke.Server.Core
use replstoke.Server.Shared
use replstoke.Server.Shared.{Settings, Shared, ClientConn, ReplStdin}
use replstoke.Server.Supervise.{Limits, Supervisor, check_time, exit_notice, wired, restart_notice}
use replstoke.Server.Threads.{ClientPc}
use replstoke.Server.System.{
  System, MainPc, top, polling, accepting, restarting, finished, greeting, MainStep, Step, Reach,
  init, update, after_exit, after_accept,
}
use replstoke.Server.System.Methods.{
  IsSane, stop-IsSane, send_ctl-IsSane, register-IsSane, check_time-IsSane, exit_notice-IsSane,
  begin_booting-IsSane, wired-IsSane, restart_notice-IsSane,
}
use replstoke.Server.System.Counts.{
  Counted, send_ctl-Grows, check_time-Grows, stop-Counted, exit_notice-Grows, begin_booting-Grows,
  wired-Grows, restart_notice-Grows, register-Counted,
}
use replstoke.Server.System.Kept.{
  Inv, Greeted, pump_start-le, out_moves-Inv, err_moves-Inv, client_moves-Inv, world-Inv, still,
  hangs_up-Moves, dies-Moves,
}

module _ (cfg : Settings) (n : ℕ) (s : System) (v : Inv cfg n s) (few : n + 2 < 2 ^ 64) where
  -- The main loop moves: what it must see to.
  main-Inv :
      (sh : Shared) (main' : MainPc) (loop' : Supervisor)
      → IsSane cfg sh
      → Counted (suc n) sh
        × (sh.core.next_gen ≡ s.shared.core.next_gen)
        × (s.shared.core.req_seq ≤ sh.core.req_seq)
      → (sh.shutdown ≡ true → main' ≡ finished)
      → Greeted main' s.clients sh.core.next_gen
      → Inv cfg (suc n) (record s { shared = sh; main = main'; loop = loop' })
  main-Inv sh main' loop' sane (counts, same, rises) over greeted = record {
    sane = sane;
    counted = counts;
    over = over;
    fresh = λ g h. v.fresh g (omega (arith, same));
    greeted = greeted;
    out_seq = omega (arith, v.out_seq, rises);
    err_seq = omega (arith, v.err_seq, rises);
  }

  idle-Inv :
      (main' : MainPc)
      → (s.shared.shutdown ≡ true → main' ≡ finished)
      → Greeted main' s.clients s.shared.core.next_gen
      → Inv cfg (suc n) (record s { main = main' })
  idle-Inv main' over greeted =
      main-Inv s.shared main' s.loop v.sane (ground (arith, v.counted)) over greeted

  pub up_at : (mp : MainPc) → s.main ≡ mp → mp ≢ finished → s.shared.shutdown ≡ false
  up_at mp e other = elim (Bool-cases s.shared.shutdown) [
    | inl down ↦ absurd (other (sym e ∙ v.over down))
    | inr up ↦ up
  ]

  accept-Inv :
      (cloned : Bool)
      → s.main ≡ accepting
      → (r : Option ℕ) → (Shared.register cloned s.shared).1 ≡ r
      → Inv cfg
          (suc n)
          (record s { shared = (Shared.register cloned s.shared).0; main = after_accept r })
  accept-Inv cloned e r got =
      let (counts, rises, same, grows, given) =
        register-Counted cfg n few cloned s.shared v.counted in
      let up = up_at accepting e (λ z. cc) in
      record {
        sane = register-IsSane cfg cloned s.shared v.sane;
        counted = counts;
        over = λ down. cc;
        fresh = λ g h. v.fresh g (omega arith);
        greeted = greets r got;
        out_seq = omega (arith, v.out_seq, rises);
        err_seq = omega (arith, v.err_seq, rises);
      }
    where
      greets :
          (r : Option ℕ)
          → (Shared.register cloned s.shared).1 ≡ r
          → Greeted (after_accept r) s.clients (Shared.register cloned s.shared).0.core.next_gen
      greets none h = tt
      greets (some g) h =
          let given = (register-Counted cfg n few cloned s.shared v.counted).4 g h in
          (omega arith, v.fresh g (omega arith))

  greet-Inv :
      (repl_pid gen : ℕ)
      → s.main ≡ greeting gen
      → Inv cfg (suc n) (record s {
        shared = Shared.send_ctl_status cfg repl_pid s.now s.shared;
        clients = update s.clients gen ClientPc.waiting;
        main = top;
      })
  unfolding Shared.send_ctl_status
  greet-Inv repl_pid gen e =
      let text = ctl_status (Shared.status_fields cfg repl_pid s.shared.core.requests s.now) in
      let m = send_ctl-Grows cfg n few text s.shared v.counted in
      let up = up_at (greeting gen) e (λ z. cc) in
      let mine = rw e at v.greeted in
      record {
        sane = send_ctl-IsSane cfg text s.shared v.sane;
        counted = m.counts;
        over = λ down. cc (m.up);
        fresh = λ g h. ground (arith, v.fresh g, m.same, mine.0);
        greeted = tt;
        out_seq = omega (arith, v.out_seq, m.rises);
        err_seq = omega (arith, v.err_seq, m.rises);
      }

  MainStep-Inv :
      (lim : Limits) (repl_pid : ℕ) {t : System} → MainStep cfg lim repl_pid s t → Inv cfg (suc n) t
  MainStep-Inv lim repl_pid (MainStep.stop e h) = idle-Inv finished (λ z. refl) tt
  MainStep-Inv lim repl_pid (MainStep.look e h) =
      let up = up_at top e (λ z. cc) in idle-Inv (MainPc.chose s.shared.core.phase) (λ z. cc) tt
  MainStep-Inv lim repl_pid (MainStep.time p e) =
      let up = up_at (MainPc.chose p) e (λ z. cc) in
      let g = check_time-Grows cfg n few lim s.now p s.shared s.loop v.counted in
      main-Inv (check_time cfg lim s.now p s.shared s.loop).0 polling
        (check_time cfg lim s.now p s.shared s.loop).1
        (check_time-IsSane cfg lim s.now p s.shared s.loop v.sane) (g.counts, g.same, g.rises)
        (λ z. cc (g.up)) tt
  MainStep-Inv lim repl_pid (MainStep.runs e) =
      let up = up_at polling e (λ z. cc) in idle-Inv accepting (λ z. cc) tt
  MainStep-Inv lim repl_pid (MainStep.lost e) =
      main-Inv (Shared.stop s.shared) finished s.loop (stop-IsSane cfg s.shared v.sane)
        (stop-Counted cfg n few s.shared v.counted) (λ z. refl) tt
  MainStep-Inv lim repl_pid (MainStep.exits e joined) =
      let up = up_at polling e (λ z. cc) in
      let x = exit_notice cfg lim s.now s.shared s.loop in
      let g = exit_notice-Grows cfg n few lim s.now s.shared s.loop v.counted in
      main-Inv x.0 (after_exit x.2) x.1 (exit_notice-IsSane cfg lim s.now s.shared s.loop v.sane)
        (g.counts, g.same, g.rises) (λ z. cc (g.up)) (not_greeting x.2)
    where
      not_greeting :
          (o : Option (AppResult (Unit {0})))
          → Greeted
              (after_exit o)
              s.clients
              (exit_notice cfg lim s.now s.shared s.loop).0.core.next_gen
      not_greeting none = tt
      not_greeting (some o) = tt
  MainStep-Inv lim repl_pid (MainStep.quits e) =
      main-Inv (Shared.stop s.shared) finished s.loop (stop-IsSane cfg s.shared v.sane)
        (stop-Counted cfg n few s.shared v.counted) (λ z. refl) tt
  MainStep-Inv lim repl_pid (MainStep.respawns e) =
      let up = up_at restarting e (λ z. cc) in
      let g = begin_booting-Grows cfg n few s.now s.shared v.counted in
      main-Inv (Shared.begin_booting cfg s.now s.shared) MainPc.wiring _
        (begin_booting-IsSane cfg s.now s.shared up v.sane) (g.counts, g.same, g.rises)
        (λ z. cc (g.up)) tt
  MainStep-Inv lim repl_pid (MainStep.wires e) =
      let up = up_at MainPc.wiring e (λ z. cc) in
      let g = wired-Grows cfg n few s.shared v.counted in
      record {
        sane = wired-IsSane cfg s.shared v.sane;
        counted = g.counts;
        over = λ z. cc (g.up);
        fresh = λ g' h. v.fresh g' (omega (arith, g.same));
        greeted = tt;
        out_seq = pump_start-le cfg false (wired s.shared).core.req_seq;
        err_seq = pump_start-le cfg true (wired s.shared).core.req_seq;
      }
  MainStep-Inv lim repl_pid (MainStep.fails er e) =
      let up = up_at restarting e (λ z. cc) in
      let g = restart_notice-Grows cfg n few er s.shared v.counted in
      main-Inv (restart_notice cfg er s.shared) MainPc.quitting s.loop
        (restart_notice-IsSane cfg er s.shared v.sane) (g.counts, g.same, g.rises) (λ z. cc (g.up))
        tt
  MainStep-Inv lim repl_pid (MainStep.waits e) =
      let up = up_at accepting e (λ z. cc) in idle-Inv top (λ z. cc) tt
  MainStep-Inv lim repl_pid (MainStep.accept cloned e) =
      accept-Inv cloned e (Shared.register cloned s.shared).1 refl
  MainStep-Inv lim repl_pid (MainStep.greet gen e) = greet-Inv repl_pid gen e

  Step-Inv :
      (lim : Limits) (repl_pid : ℕ) {t : System} → Step cfg lim repl_pid s t → Inv cfg (suc n) t
  Step-Inv lim repl_pid (Step.out_moves {sh = sh} {p = p} st) = out_moves-Inv cfg n s v few sh p st
  Step-Inv lim repl_pid (Step.err_moves {sh = sh} {p = p} st) = err_moves-Inv cfg n s v few sh p st
  Step-Inv lim repl_pid (Step.client_moves gen {sh = sh} {p = p} st) =
      client_moves-Inv cfg n s v few gen sh p st
  Step-Inv lim repl_pid (Step.main_moves st) = MainStep-Inv lim repl_pid st
  Step-Inv lim repl_pid (Step.tick d) =
      world-Inv cfg n s v few s.shared (s.now + d) s.signalled (still cfg n s v few)
  Step-Inv lim repl_pid Step.signal =
      world-Inv cfg n s v few s.shared s.now true (still cfg n s v few)
  Step-Inv lim repl_pid (Step.hangs_up c e) =
      world-Inv cfg n s v few _ s.now s.signalled (hangs_up-Moves cfg n s v few c e)
  Step-Inv lim repl_pid (Step.dies w e) =
      world-Inv cfg n s v few _ s.now s.signalled (dies-Moves cfg n s v few w)

init-Inv :
    (cfg : Settings) (lim : Limits) (repl_pid : ℕ) (now : Instant)
    → Inv cfg 0 (init cfg lim repl_pid now)
unfolding init Core.new
init-Inv cfg lim repl_pid now = record {
  sane = ground arith;
  counted = omega arith;
  over = λ z. cc;
  fresh = λ g h. refl;
  greeted = tt;
  out_seq = pump_start-le cfg false 0;
  err_seq = pump_start-le cfg true 0;
}

-- In every state that the main loop, both pumps and the clients' threads reach in n steps from the
-- start of the loop, in whatever order they act, with n + 2 below 2 ^ 64, the following holds. The
-- server shuts down exactly if its phase is Stopped, and then the main loop has ended. A REPL with a
-- warmup is in no serving phase before its warmup was sent, and one without has no warmup phase.
-- Booting occurs only with a readiness mechanism. Without framing no request is ever in flight. The
-- counters count: no more than n requests and generations were given out, a generation that was not has
-- no thread, and neither has the client that the main loop is about to greet; the attached client is
-- the one that was admitted last. Neither pump is ahead of the requests.
pub Reach-Inv :
    (cfg : Settings) (lim : Limits) (repl_pid : ℕ) (now : Instant) (n : ℕ) (s : System)
    → n + 2 < 2 ^ 64
    → Reach cfg lim repl_pid now n s
    → Inv cfg n s
Reach-Inv cfg lim repl_pid now zero s few Reach.start = init-Inv cfg lim repl_pid now
Reach-Inv cfg lim repl_pid now (suc n) s few (Reach.later {s = t} r st) =
    Step-Inv cfg n t (Reach-Inv cfg lim repl_pid now n t (omega arith) r) (omega arith) lim repl_pid
      st
