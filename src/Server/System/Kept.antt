-- ===== src/Server/System/Kept.antt =====
-- What the threads of src/server.rs keep at each step: the invariant, and every step but the main loop's.
use replstoke.Common.{ℕ, suc, ◌+◌, ◌≤◌, ◌<◌, ◌^◌, ◌≡◌, sym, ◌∙◌, Bool, true, false, some, arith}
use replstoke.Server.Core.{Instant}
use replstoke.Server.Shared.{Settings, Shared, ClientConn, ReplStdin}
use replstoke.Server.Pump.{start}
use replstoke.Server.Threads.{PumpThread, ClientPc, absent, PumpStep, ClientStep}
use replstoke.Server.System.{System, MainPc, finished, greeting, update}
use replstoke.Server.System.Moves.{Moves, PumpStep-Moves, ClientStep-Moves}
use replstoke.Server.System.Methods.{IsSane}
use replstoke.Server.System.Counts.{Counted, same-Grows}

-- A new client that the main loop is about to greet has no thread yet.
abbrev pub Greeted : MainPc → (ℕ → ClientPc) → ℕ → Type 0
Greeted (greeting g) clients next = (g < next) × (clients g ≡ absent)
Greeted _ clients next = Unit

pub record Inv (cfg : Settings) (n : ℕ) (s : System) : Type 0 where
  pub sane : IsSane cfg s.shared
  pub counted : Counted n s.shared
  -- the main loop is over when the server shuts down
  pub over : s.shared.shutdown ≡ true → s.main ≡ finished
  -- a generation that was not given out has no thread
  pub fresh : (g : ℕ) → s.shared.core.next_gen ≤ g → s.clients g ≡ absent
  pub greeted : Greeted s.main s.clients s.shared.core.next_gen
  -- no pump is ahead of the requests
  pub out_seq : s.out.pump.scanned_seq ≤ s.shared.core.req_seq
  pub err_seq : s.err.pump.scanned_seq ≤ s.shared.core.req_seq

pub update-Greeted :
    (mp : MainPc) (clients : ℕ → ClientPc) (gen : ℕ) (p : ClientPc) {next next' : ℕ}
    → next' ≡ next
    → Greeted mp clients next
    → ((g : ℕ) → clients g ≡ absent → g ≡ gen → ⊥)
    → Greeted mp (update clients gen p) next'
update-Greeted (greeting g) clients gen p same h other = (omega arith, ground (arith, other g))
update-Greeted mp clients gen p same h other = tt

pub pump_start-le : (cfg : Settings) (is_err : Bool) (n : ℕ) → (start cfg is_err).scanned_seq ≤ n
unfolding start
pump_start-le cfg is_err n = omega arith

-- A step of the system in which one other thread moves.
module _ (cfg : Settings) (n : ℕ) (s : System) (v : Inv cfg n s) (few : n + 2 < 2 ^ 64) where
  module _ (sh : Shared) (m : Moves cfg n s.shared sh) where
    still_over : sh.shutdown ≡ true → s.main ≡ finished
    still_over e = v.over (sym m.grows.up ∙ e)

    still_fresh : (g : ℕ) → sh.core.next_gen ≤ g → s.clients g ≡ absent
    still_fresh g h = v.fresh g (omega (arith, m.grows.same))

    still-Greeted : Greeted s.main s.clients sh.core.next_gen
    still-Greeted = rw m.grows.same v.greeted

  pub out_moves-Inv :
      (sh : Shared) (p : PumpThread)
      → PumpStep cfg false s.now s.shared s.out sh p
      → Inv cfg (suc n) (record s { shared = sh; out = p })
  out_moves-Inv sh p st =
      let (m, seq) = PumpStep-Moves cfg n few st v.sane v.counted v.out_seq in
      record {
        sane = m.sane;
        counted = m.grows.counts;
        over = still_over sh m;
        fresh = still_fresh sh m;
        greeted = still-Greeted sh m;
        out_seq = seq;
        err_seq = omega (arith, v.err_seq, m.grows.rises);
      }

  pub err_moves-Inv :
      (sh : Shared) (p : PumpThread)
      → PumpStep cfg true s.now s.shared s.err sh p
      → Inv cfg (suc n) (record s { shared = sh; err = p })
  err_moves-Inv sh p st =
      let (m, seq) = PumpStep-Moves cfg n few st v.sane v.counted v.err_seq in
      record {
        sane = m.sane;
        counted = m.grows.counts;
        over = still_over sh m;
        fresh = still_fresh sh m;
        greeted = still-Greeted sh m;
        out_seq = omega (arith, v.out_seq, m.grows.rises);
        err_seq = seq;
      }

  pub client_moves-Inv :
      (gen : ℕ) (sh : Shared) (p : ClientPc)
      → ClientStep cfg s.signalled s.now gen s.shared (s.clients gen) sh p
      → Inv cfg (suc n) (record s { shared = sh; clients = update s.clients gen p })
  client_moves-Inv gen sh p st =
      let (m, lives) = ClientStep-Moves cfg n few st v.sane v.counted in
      let other = λ (g : ℕ) (e : s.clients g ≡ absent) (same : g ≡ gen). lives (rw (← same) e) in
      record {
        sane = m.sane;
        counted = m.grows.counts;
        over = still_over sh m;
        fresh = λ g h. ground (arith, still_fresh sh m g, other g);
        greeted = update-Greeted s.main s.clients gen p m.grows.same v.greeted other;
        out_seq = omega (arith, v.out_seq, m.grows.rises);
        err_seq = omega (arith, v.err_seq, m.grows.rises);
      }

  -- The clock, a signal, or a write end that breaks.
  pub world-Inv :
      (sh : Shared) (now : Instant) (signalled : Bool)
      → Moves cfg n s.shared sh
      → Inv cfg (suc n) (record s { shared = sh; now = now; signalled = signalled })
  world-Inv sh now signalled m = record {
    sane = m.sane;
    counted = m.grows.counts;
    over = still_over sh m;
    fresh = still_fresh sh m;
    greeted = still-Greeted sh m;
    out_seq = omega (arith, v.out_seq, m.grows.rises);
    err_seq = omega (arith, v.err_seq, m.grows.rises);
  }

  pub still : Moves cfg n s.shared s.shared
  still = record { sane = v.sane; grows = same-Grows cfg n few s.shared v.counted }

  pub hangs_up-Moves :
      (c : ClientConn)
      → s.shared.sink ≡ some c
      → Moves cfg n s.shared (record s.shared { sink = some (record c { broken = true }) })
  hangs_up-Moves c e =
      let newest : c.gen + 1 ≡ s.shared.core.next_gen = rw e at v.counted.attached in
      record { sane = ground (arith, v.sane); grows = ground (arith, v.counted) }

  pub dies-Moves :
      (w : ReplStdin)
      → Moves cfg n s.shared (record s.shared { repl_stdin = some (record w { broken = true }) })
  dies-Moves w = record { sane = ground (arith, v.sane); grows = ground (arith, v.counted) }
