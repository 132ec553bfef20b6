-- ===== src/Server/System/Shutdown.antt =====
-- How a signal ends the main loop of src/server.rs.
use replstoke.Common.{ℕ, ◌+◌, ◌≤◌, ◌<◌, ◌≡◌, refl, ap, true, arith, Option, none, some}
use replstoke.Error.{AppResult}
use replstoke.Server.Shared
use replstoke.Server.Shared.{Settings}
use replstoke.Server.Supervise.{Limits, exit_notice}
use replstoke.Server.System.{
  System, MainPc, top, chose, polling, accepting, greeting, restarting, wiring, quitting, finished,
  after_exit, after_accept, MainStep, Step, Steps, stay, next,
}

-- How many steps the main loop is from its end, at most, if it stops at its top.
abbrev rank : MainPc → ℕ
rank finished = 0
rank top = 1
rank quitting = 1
rank (greeting gen) = 2
rank accepting = 3
rank wiring = 4
rank restarting = 5
rank polling = 6
rank (chose p) = 7

exit_rank : (o : Option (AppResult (Unit {0}))) → rank (after_exit o) < 6
exit_rank none = omega arith
exit_rank (some o) = omega arith

accept_rank : (o : Option ℕ) → rank (after_accept o) < 3
accept_rank none = omega arith
accept_rank (some gen) = omega arith

rank_bound : (pc : MainPc) → rank pc ≤ 7
rank_bound finished = omega arith
rank_bound top = omega arith
rank_bound quitting = omega arith
rank_bound (greeting gen) = omega arith
rank_bound accepting = omega arith
rank_bound wiring = omega arith
rank_bound restarting = omega arith
rank_bound polling = omega arith
rank_bound (chose p) = omega arith

module _ (cfg : Settings) (lim : Limits) (repl_pid : ℕ) where
  down : (s : System) → s.signalled ≡ true → Shared.should_stop s.shared s.signalled ≡ true
  unfolding Shared.should_stop
  down s signalled = ground arith

  -- Each of its steps brings the main loop closer to its end.
  main-rank :
      (s : System) {t : System}
      → s.signalled ≡ true
      → MainStep cfg lim repl_pid s t
      → rank t.main < rank s.main
  main-rank s signalled (MainStep.stop e h) = rw e (omega arith)
  main-rank s signalled (MainStep.look e h) = absurd (cc (down s signalled))
  main-rank s signalled (MainStep.time p e) = rw e (omega arith)
  main-rank s signalled (MainStep.runs e) = rw e (omega arith)
  main-rank s signalled (MainStep.lost e) = rw e (omega arith)
  main-rank s signalled (MainStep.exits e joined) =
      rw e (exit_rank (exit_notice cfg lim s.now s.shared s.loop).2)
  main-rank s signalled (MainStep.quits e) = rw e (omega arith)
  main-rank s signalled (MainStep.respawns e) = rw e (omega arith)
  main-rank s signalled (MainStep.wires e) = rw e (omega arith)
  main-rank s signalled (MainStep.fails er e) = rw e (omega arith)
  main-rank s signalled (MainStep.waits e) = rw e (omega arith)
  main-rank s signalled (MainStep.accept cloned e) =
      rw e (accept_rank (Shared.register cloned s.shared).1)
  main-rank s signalled (MainStep.greet gen e) = rw e (omega arith)

  still_signalled :
      {s t : System} → Step cfg lim repl_pid s t → s.signalled ≡ true → t.signalled ≡ true
  still_signalled (Step.out_moves st) h = h
  still_signalled (Step.err_moves st) h = h
  still_signalled (Step.client_moves gen st) h = h
  still_signalled (Step.main_moves st) h = main_signalled st h
    where
      main_signalled :
          {s t : System} → MainStep cfg lim repl_pid s t → s.signalled ≡ true → t.signalled ≡ true
      main_signalled (MainStep.stop e d) h = h
      main_signalled (MainStep.look e d) h = h
      main_signalled (MainStep.time p e) h = h
      main_signalled (MainStep.runs e) h = h
      main_signalled (MainStep.lost e) h = h
      main_signalled (MainStep.exits e j) h = h
      main_signalled (MainStep.quits e) h = h
      main_signalled (MainStep.respawns e) h = h
      main_signalled (MainStep.wires e) h = h
      main_signalled (MainStep.fails er e) h = h
      main_signalled (MainStep.waits e) h = h
      main_signalled (MainStep.accept cloned e) h = h
      main_signalled (MainStep.greet gen e) h = h
  still_signalled (Step.tick d) h = h
  still_signalled Step.signal h = refl
  still_signalled (Step.hangs_up c e) h = h
  still_signalled (Step.dies w e) h = h

  -- The steps that a run has of the main loop.
  abbrev pub is_main : {s t : System} → Step cfg lim repl_pid s t → ℕ
  is_main (Step.main_moves st) = 1
  is_main st = 0

  abbrev pub main_steps : {s t : System} → Steps cfg lim repl_pid s t → ℕ
  main_steps stay = 0
  main_steps (next run st) = main_steps run + is_main st

  step-rank :
      {s t : System} (st : Step cfg lim repl_pid s t)
      → s.signalled ≡ true
      → is_main st + rank t.main ≤ rank s.main
  step-rank (Step.out_moves st) h = omega arith
  step-rank (Step.err_moves st) h = omega arith
  step-rank (Step.client_moves gen st) h = omega arith
  step-rank {s} (Step.main_moves st) h = omega (arith, main-rank s h st)
  step-rank (Step.tick d) h = omega arith
  step-rank Step.signal h = omega arith
  step-rank (Step.hangs_up c e) h = omega arith
  step-rank (Step.dies w e) h = omega arith

  run-rank :
      {s t : System} (run : Steps cfg lim repl_pid s t)
      → s.signalled ≡ true
      → (main_steps run + rank t.main ≤ rank s.main) × (t.signalled ≡ true)
  run-rank stay h = (omega arith, h)
  run-rank (next {t = t} run st) h =
      let (bound, on) = run-rank run h in
      (omega (arith, bound, step-rank st on), still_signalled st on)

  -- Once a signal has come, the main loop takes at most 7 more steps, and at most one if it is at its
  -- top, whatever the other threads do between them and however the run goes on.
  pub signal_ends :
      (s t : System) (run : Steps cfg lim repl_pid s t)
      → s.signalled ≡ true
      → (main_steps run ≤ 7) × (s.main ≡ top → main_steps run ≤ 1)
  signal_ends s t run signalled =
      let (bound, on) = run-rank run signalled in
      (
        omega (arith, bound, rank_bound s.main),
        λ at_top. omega (arith, bound, ap (λ pc. rank pc) at_top),
      )
