-- ===== src/Server/System/Late.antt =====
-- Output that a pump has read for one client and delivers after the next has come: src/server.rs.
use replstoke.Common.{ℕ, ◌≡◌, refl, true, false, [], ◌∷◌, none, some, arith, Bytes, ◌==◌, ==_iff}
use replstoke.Protocol.Types.{stream_err}
use replstoke.Protocol.Encode.{encode}
use replstoke.Server.Core.{Core, Instant, idle}
use replstoke.Server.Core
use replstoke.Server.Shared
use replstoke.Server.Shared.{Settings, Shared, ClientConn}
use replstoke.Server.Pump.{Pump, output, pump_chunk, perform}
use replstoke.Server.Supervise.{Limits}
use replstoke.Server.Threads.{PumpPc, ClientPc, PumpStep, ClientStep, look_at}
use replstoke.Server.System.{
  System, accepting, greeting, MainStep, Step, err_moves, client_moves, main_moves, update, Steps,
  stay, next,
}

-- Client `gen` is served, the REPL idle, and the stderr pump and the client's thread about to read.
abbrev pub served : System → Core → Shared → Pump → ℕ → System
served s core sh p gen = record s {
  shared = record sh {
    core = record core { phase = idle; serving = true };
    sink = some (record { gen = gen; wire = []; broken = false });
  };
  err = record { pump = p; pc = PumpPc.reading };
  clients = update s.clients gen ClientPc.reading;
  main = accepting;
}

module _ (cfg : Settings) (lim : Limits) (repl_pid : ℕ) (framed : cfg.protocol ≡ true) (s : System)
    (core : Core) (sh : Shared) (p : Pump) (gen : ℕ) (b : ℕ) (bs : Bytes) where
  same : (gen == gen) ≡ true
  same = (==_iff gen gen).1 refl

  before : Shared
  before = (served s core sh p gen).shared

  left : Shared
  left = record before { core = record core { phase = idle; serving = false }; sink = none }

  arrived : Shared
  arrived = (Shared.register true left).0

  seen : pump_chunk cfg p (look_at idle true before) (b ∷ bs) ≡ (p, output (b ∷ bs) true ∷ [])
  unfolding pump_chunk look_at
  seen = simp framed

  leaves : Shared.client_gone cfg s.now gen before ≡ left
  unfolding Shared.client_gone Core.client_gone before left
  leaves = rw same

  delivered :
      (perform cfg true s.now (output (b ∷ bs) true) arrived).sink
      ≡ some (record { gen = core.next_gen; wire = encode [] stream_err (b ∷ bs); broken = false })
  unfolding perform arrived left before Shared.register Core.try_accept
  delivered = simp framed

  abbrev s0 : System
  s0 = served s core sh p gen

  abbrev holds : PumpPc → System → System
  holds pc t = record t { err = record { pump = p; pc = pc } }

  abbrev late : PumpPc
  late = PumpPc.acting (output (b ∷ bs) true ∷ [])

  abbrev moved : ClientPc → Shared → System
  moved c x = record (holds late s0) { shared = x; clients = update s0.clients gen c }

  reads : Step cfg lim repl_pid s0 (holds (PumpPc.saw idle true (b ∷ bs)) s0)
  reads = err_moves (PumpStep.read (b ∷ bs))

  scans : Step cfg lim repl_pid (holds (PumpPc.saw idle true (b ∷ bs)) s0) (holds late s0)
  unfolding before
  scans =
      let q = pump_chunk cfg p (look_at idle true before) (b ∷ bs) in
      let st : PumpStep cfg true s.now before
          (record { pump = p; pc = PumpPc.saw idle true (b ∷ bs) }) before
          (record { pump = q.0; pc = PumpPc.acting q.1 }) =
        PumpStep.scan in
      err_moves (rw seen at st)

  hears : Step cfg lim repl_pid (holds late s0) (moved ClientPc.leaving before)
  unfolding before
  hears = client_moves gen (rw same ClientStep.read_end)

  goes :
      Step cfg lim repl_pid (moved ClientPc.leaving before) (record (moved ClientPc.leaving left) {
        clients = update (moved ClientPc.leaving before).clients gen ClientPc.gone;
      })
  goes =
      let st : ClientStep cfg s.signalled s.now gen before ClientPc.leaving
          (Shared.client_gone cfg s.now gen before) ClientPc.gone =
        ClientStep.leave in
      client_moves gen (rw same (rw leaves at st))

  abbrev empty : System
  empty = record (moved ClientPc.leaving left) {
    clients = update (moved ClientPc.leaving before).clients gen ClientPc.gone;
  }

  abbrev taken : System
  taken = record empty { shared = arrived; main = greeting core.next_gen }

  accepts : Step cfg lim repl_pid empty taken
  unfolding arrived left before Shared.register Core.try_accept
  accepts = main_moves (MainStep.accept true refl)

  abbrev given : System
  given = record taken {
    shared = perform cfg true s.now (output (b ∷ bs) true) arrived;
    err = record { pump = p; pc = PumpPc.acting [] };
  }

  delivers : Step cfg lim repl_pid taken given
  delivers = err_moves PumpStep.act

  -- With framing, from a state where the REPL is idle, a client is served, and the pump of stderr and
  -- the client's thread are about to read, there is a run of the threads after which the next client,
  -- which has sent nothing and is not served, has on its wire the packets of a chunk that the REPL
  -- wrote for the client before it.
  pub late_output :
      (t : System) × Steps cfg lim repl_pid (served s core sh p gen) t
      × (t.shared.sink
          ≡ some (record {
            gen = core.next_gen;
            wire = encode [] stream_err (b ∷ bs);
            broken = false;
          }))
      × (t.shared.core.phase ≡ idle)
      × (t.shared.core.serving ≡ false)
  unfolding perform arrived left Shared.register Core.try_accept
  late_output = (
    given,
    next (next (next (next (next (next stay reads) scans) hears) goes) accepts) delivers,
    delivered,
    ground arith,
    ground arith,
  )
