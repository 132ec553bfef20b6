-- ===== src/Server/System/Progress.antt =====
-- How the threads of src/server.rs get on: the pumps to their end, and the server past an abandoned
-- request.
use replstoke.Common.{
  ℕ, ◌≤◌, ◌≡◌, ◌∙◌, refl, ap, Bool, true, false, ◌||◌, List, [], ◌∷◌, none, some, arith,
}
use replstoke.Server.Core.{Core, Instant, Phase, draining}
use replstoke.Server.Core
use replstoke.Server.Shared
use replstoke.Server.Shared.{Settings, Shared}
use replstoke.Server.Pump.{Pump, Action, perform, pump_chunk, pump_end}
use replstoke.Server.Supervise.{Limits, Supervisor, check_time, exit_notice, wired}
use replstoke.Server.Threads.{
  PumpPc, reading, saw, acting, closing, ended, PumpThread, PumpStep, look_at, fresh_pump,
}
use replstoke.Server.System.{
  System, top, chose, polling, accepting, MainStep, Step, out_moves, err_moves, main_moves, Steps,
  stay, next, Joined, after_exit,
}
use replstoke.Server.System.Streams.{trans}
use mathlib.Core.Path.{subst}

perform_served :
    (cfg : Settings) (is_err : Bool) (now : Instant) (a : Action) (sh : Shared)
    → (perform cfg is_err now a sh).core.served ≡ sh.core.served
unfolding perform Core.ready Core.warmup_done Core.response_end
perform_served cfg is_err now Action.signal_ready sh = ground arith
perform_served cfg is_err now Action.warmup_done sh = ground arith
perform_served cfg is_err now Action.response_end sh = ground arith
perform_served cfg is_err now (Action.output b c) sh = ground arith

module _ (cfg : Settings) (lim : Limits) (repl_pid : ℕ) where
  abbrev Goes : System → System → Type 0
  Goes = Steps cfg lim repl_pid

  -- The pump of either stream, by how it moves in a system.
  module _ (is_err : Bool) (now : Instant) (at : Shared → PumpThread → System)
      (moves : (sh sh' : Shared) (p p' : PumpThread)
        → PumpStep cfg is_err now sh p sh' p'
        → Step cfg lim repl_pid (at sh p) (at sh' p')) where
    abbrev Ends : Shared → PumpThread → Type 0
    Ends sh p =
        (sh' : Shared) × (q : Pump) × Goes (at sh p) (at sh' (record { pump = q; pc = ended }))
        × (sh'.core.served ≡ sh.core.served)

    closes :
        (acts : List Action) (sh : Shared) (p : Pump)
        → Ends sh (record { pump = p; pc = closing acts })
    closes [] sh p = (sh, p, next stay (moves _ _ _ _ PumpStep.exit), refl)
    closes (a ∷ as') sh p =
        let (sh', q, go, same) = closes as' (perform cfg is_err now a sh) p in
        (
          sh',
          q,
          trans (next stay (moves _ _ _ _ PumpStep.close)) go,
          same ∙ perform_served cfg is_err now a sh,
        )

    reads : (sh : Shared) (p : Pump) → Ends sh (record { pump = p; pc = reading })
    reads sh p =
        let (sh', q, go, same) = closes (pump_end cfg p) sh p in
        (sh', q, trans (next stay (moves _ _ _ _ PumpStep.read_end)) go, same)

    acts :
        (as' : List Action) (sh : Shared) (p : Pump)
        → Ends sh (record { pump = p; pc = acting as' })
    acts [] sh p =
        let (sh', q, go, same) = reads sh p in
        (sh', q, trans (next stay (moves _ _ _ _ PumpStep.again)) go, same)
    acts (a ∷ as') sh p =
        let (sh', q, go, same) = acts as' (perform cfg is_err now a sh) p in
        (
          sh',
          q,
          trans (next stay (moves _ _ _ _ PumpStep.act)) go,
          same ∙ perform_served cfg is_err now a sh,
        )

    ends : (pc : PumpPc) (sh : Shared) (p : Pump) → Ends sh (record { pump = p; pc = pc })
    ends reading sh p = reads sh p
    ends (saw phase serving chunk) sh p =
        let x = pump_chunk cfg p (look_at phase serving sh) chunk in
        let (sh', q, go, same) = acts x.1 sh x.0 in
        (sh', q, trans (next stay (moves _ _ _ _ PumpStep.scan)) go, same)
    ends (acting as') sh p = acts as' sh p
    ends (closing as') sh p = closes as' sh p
    ends ended sh p = (sh, p, stay, refl)

  -- The timeout of an abandoned request, and the exit that it forces.
  abbrev forced : Supervisor → Supervisor
  forced sup = record sup { forced = true }

  check_time-forced :
      (now d : Instant) (sh : Shared) (sup : Supervisor)
      → sup.forced ≡ false
      → d ≤ now
      → check_time cfg lim now (draining (some d)) sh sup ≡ (sh, forced sup, true)
  unfolding check_time
  check_time-forced now d sh sup calm due = ground arith

  exit_notice-forced :
      (now : Instant) (sh : Shared) (sup : Supervisor)
      → sup.stuck ≡ false
      → sh.core.served ≡ true
      → exit_notice cfg lim now sh (forced sup)
        ≡ (Shared.clear_sink sh, record sup { failures = 0; forced = false; stuck = false }, none)
  unfolding exit_notice
  exit_notice-forced now sh sup calm done = ground arith

  abbrev pub Restarted : System → Type 0
  Restarted t =
      (t.main ≡ accepting)
      × (t.shared.core.phase ≡ Core.initial_phase cfg.initial_ready (Shared.has_warmup cfg) t.now)
      × (t.shared.core.serving ≡ false)
      × (t.shared.sink ≡ none)
      × (t.out ≡ fresh_pump cfg false)
      × (t.err ≡ fresh_pump cfg true)

  joined : (b : Bool) (o e : PumpPc) → o ≡ ended → e ≡ ended → Joined b o e
  joined false o e p q = tt
  joined true o e p q = (p, q)

  -- From the exit of a REPL whose pumps have ended to the next one.
  restarts :
      (s : System) (sup : Supervisor)
      → s.main ≡ polling
      → s.loop ≡ forced sup
      → sup.stuck ≡ false
      → s.shared.core.served ≡ true
      → s.out.pc ≡ ended
      → s.err.pc ≡ ended
      → (t : System) × Goes s t × Restarted t
  unfolding Shared.begin_booting Core.begin_booting Shared.clear_sink wired
  restarts s sup at_poll is_forced calm done o e =
      let left = exit_notice cfg lim s.now s.shared s.loop in
      let same : left ≡ (
        Shared.clear_sink s.shared,
        record sup { failures = 0; forced = false; stuck = false },
        none,
      ) =
        rw is_forced (exit_notice-forced s.now s.shared sup calm done) in
      let exit =
        MainStep.exits at_poll (joined (lim.restart || s.loop.forced) s.out.pc s.err.pc o e) in
      let go = MainStep.respawns (ap (λ x. after_exit x.2) same) in
      (
        _,
        next (next (next stay (main_moves exit)) (main_moves go))
            (main_moves (MainStep.wires refl)),
        (refl, refl, refl, ap (λ x. x.0.sink) same, refl, refl),
      )

  -- From the top of the main loop, when the phase is Draining with a deadline that has passed, the
  -- loop's own reasons (forced and stuck) are clear, no stop is asked for and the REPL has served,
  -- some run of the threads, whatever the pumps were doing, leads to the state before the next accept
  -- with a fresh REPL: its initial phase, nobody attached or served, and both pumps new. In that run
  -- the REPL exits and its output ends.
  pub drain_recovers :
      (s : System) (d : Instant)
      → s.main ≡ top
      → Shared.should_stop s.shared s.signalled ≡ false
      → s.shared.core.phase ≡ draining (some d)
      → d ≤ s.now
      → s.loop.forced ≡ false
      → s.loop.stuck ≡ false
      → s.shared.core.served ≡ true
      → (t : System) × Steps cfg lim repl_pid s t × Restarted t
  drain_recovers s d at_top on drains due calm sane done =
      let s1 = record s { main = chose s.shared.core.phase } in
      let s2 = record s { loop = forced s.loop; main = polling } in
      let st : MainStep cfg lim repl_pid s1 (record s {
        shared = (check_time cfg lim s.now s.shared.core.phase s.shared s.loop).0;
        loop = (check_time cfg lim s.now s.shared.core.phase s.shared s.loop).1;
        main = polling;
      }) =
        MainStep.time s.shared.core.phase refl in
      let times : MainStep cfg lim repl_pid s1 s2 =
        subst
          (λ x.
            MainStep cfg lim repl_pid s1 (record s { shared = x.0; loop = x.1; main = polling }))
          (ap (λ p. check_time cfg lim s.now p s.shared s.loop) drains
            ∙ check_time-forced s.now d s.shared s.loop calm due)
          st in
      let (sh3, q, ends_out, kept) =
        ends false s.now (λ sh p. record s2 { shared = sh; out = p }) (λ sh sh' p p' m. out_moves m)
          s.out.pc s.shared s.out.pump in
      let s3 = record s2 { shared = sh3; out = record { pump = q; pc = ended } } in
      let (sh4, r, ends_err, still) =
        ends true s.now (λ sh p. record s3 { shared = sh; err = p }) (λ sh sh' p p' m. err_moves m)
          s.err.pc sh3 s.err.pump in
      let s4 = record s3 { shared = sh4; err = record { pump = r; pc = ended } } in
      let (t, go, ok') = restarts s4 s.loop refl refl sane (still ∙ (kept ∙ done)) refl refl in
      (
        t,
        trans
            (trans
              (trans (next (next stay (main_moves (MainStep.look at_top on))) (main_moves times))
                ends_out)
              ends_err)
            go,
        ok',
      )
