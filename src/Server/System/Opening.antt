-- ===== src/Server/System/Opening.antt =====
-- A client's request over the threads of src/server.rs, from the main loop's `accept` to the REPL.
use replstoke.Common.{ℕ, ◌+◌, ◌≡◌, refl, true, false, [], ◌++◌, none, some, Bytes, ◌==◌, ==_iff}
use replstoke.Protocol.Types.{stream_ctl}
use replstoke.Protocol.Encode.{encode}
use replstoke.Protocol.Ctl.{ctl_status}
use replstoke.Server.Core.{Core, Phase, idle, busy, u64}
use replstoke.Server.Core
use replstoke.Server.Shared
use replstoke.Server.Shared.{Settings, Shared, ClientConn, ReplStdin}
use replstoke.Server.Supervise.{Limits}
use replstoke.Server.Threads.{ClientPc, ClientStep, reading}
use replstoke.Server.System.{
  System, top, accepting, greeting, after_accept, MainStep, Step, client_moves, main_moves, update,
  Steps, stay, next,
}

-- Idle, with nobody attached and a REPL that takes input, and the
-- pump of stdout about to read.
pub record IsFree (s : System) (w : ReplStdin) : Type 0 where
  pub loops : s.main ≡ accepting
  pub rests : s.shared.core.phase ≡ idle
  pub prints : s.out.pc ≡ reading
  pub alone : s.shared.sink ≡ none
  pub calm : s.signalled ≡ false
  pub takes : s.shared.repl_stdin ≡ some w
  pub works : w.broken ≡ false

-- The status that greets the next client.
abbrev pub status_line : Settings → ℕ → System → Bytes
status_line cfg repl_pid s =
    Shared.status_fields cfg repl_pid (u64 (s.shared.core.requests + 1)) s.now

-- The next client's connection.
abbrev pub client_at : System → Bytes → ClientConn
client_at s wire = record { gen = s.shared.core.next_gen; wire = wire; broken = false }

module _ (cfg : Settings) (lim : Limits) (repl_pid : ℕ) (s : System) (w : ReplStdin)
    (request : Bytes) where
  abbrev old : Core
  old = s.shared.core

  abbrev gen : ℕ
  gen = old.next_gen

  abbrev admitted : Core
  admitted = record old {
    next_gen = u64 (gen + 1);
    requests = u64 (old.requests + 1);
    served = true;
    serving = false;
  }

  abbrev conn : Bytes → ClientConn
  conn = client_at s

  abbrev taken : Shared
  taken = record s.shared { core = admitted; sink = some (conn []) }

  abbrev greeted : Shared
  greeted = record taken {
    sink = some (conn (encode [] stream_ctl (ctl_status (status_line cfg repl_pid s))));
  }

  abbrev asked : Shared
  asked = record greeted {
    core = record admitted { phase = busy; serving = true; req_seq = u64 (old.req_seq + 1) };
  }

  abbrev fed : Shared
  fed = record asked { repl_stdin = some (record w { taken = w.taken ++ request }) }

  module _ (framed : cfg.protocol ≡ true) (free : IsFree s w) (up : s.shared.shutdown ≡ false) where
    same : (gen == gen) ≡ true
    same = (==_iff gen gen).1 refl

    registers : Shared.register true s.shared ≡ (taken, some gen)
    unfolding Shared.register Core.try_accept Shared.admit
    registers = simp (free.rests, free.alone)

    greets : Shared.send_ctl_status cfg repl_pid s.now taken ≡ greeted
    unfolding Shared.send_ctl_status Shared.send_ctl Shared.deliver_sink Shared.deliver
    greets = simp framed

    ready : Shared.look_ready s.signalled greeted ≡ some true
    unfolding Shared.look_ready Shared.should_stop Core.is_pre_serving
    ready = simp (up, free.calm, free.rests)

    asks : Shared.request_start cfg greeted ≡ asked
    unfolding Shared.request_start Core.request_start
    asks = simp (framed, free.rests)

    goes_on : Shared.look_ready s.signalled asked ≡ some true
    unfolding Shared.look_ready Shared.should_stop Core.is_pre_serving
    goes_on = simp (up, free.calm)

    writes : Shared.try_forward request asked ≡ (fed, true)
    unfolding Shared.try_forward Shared.write_stdin
    writes = simp (free.takes, free.works)

    abbrev with : System → Shared → ClientPc → System
    with t sh pc = record t { shared = sh; clients = update t.clients gen pc }

    client_goes :
        (t : System) (sh : Shared) (pc pc' : ClientPc)
        → t.clients gen ≡ pc
        → ClientStep cfg t.signalled t.now gen t.shared pc sh pc'
        → Step cfg lim repl_pid t (with t sh pc')
    client_goes t sh pc pc' e st = client_moves gen (rw e st)

    stands : (t : System) (sh : Shared) (pc : ClientPc) → (with t sh pc).clients gen ≡ pc
    stands t sh pc = rw same refl

    abbrev s1 : System
    s1 = record s { shared = taken; main = greeting gen }

    abbrev s2 : System
    s2 = record s1 { shared = greeted; clients = update s.clients gen ClientPc.waiting; main = top }

    abbrev s3 : System
    s3 = with s2 greeted ClientPc.reading

    abbrev s4 : System
    s4 = with s3 greeted (ClientPc.got request)

    abbrev s5 : System
    s5 = with s4 asked (ClientPc.forwarding request)

    abbrev s6 : System
    s6 = with s5 asked (ClientPc.writing request)

    abbrev s7 : System
    s7 = with s6 fed ClientPc.waiting

    accepts : Step cfg lim repl_pid s s1
    accepts =
        let st : MainStep cfg lim repl_pid s (record s {
          shared = (Shared.register true s.shared).0;
          main = after_accept (Shared.register true s.shared).1;
        }) =
          MainStep.accept true free.loops in
        main_moves (rw registers at st)

    welcomes : Step cfg lim repl_pid s1 s2
    welcomes =
        let st : MainStep cfg lim repl_pid s1 (record s1 {
          shared = Shared.send_ctl_status cfg repl_pid s.now taken;
          clients = update s.clients gen ClientPc.waiting;
          main = top;
        }) =
          MainStep.greet gen refl in
        main_moves (rw greets at st)

    starts : Step cfg lim repl_pid s4 s5
    starts =
        let st : ClientStep cfg s.signalled s.now gen greeted (ClientPc.got request)
            (Shared.request_start cfg greeted) (ClientPc.forwarding request) =
          ClientStep.start in
        client_goes s4 asked (ClientPc.got request) (ClientPc.forwarding request)
          (stands s3 greeted (ClientPc.got request)) (rw asks at st)

    -- The run from `accept` to the write to the REPL.
    opens : Steps cfg lim repl_pid s s7
    opens =
        let waits =
          client_goes s2 greeted ClientPc.waiting ClientPc.reading (rw same refl)
            (ClientStep.ready ready) in
        let reads =
          client_goes s3 greeted ClientPc.reading (ClientPc.got request)
            (stands s2 greeted ClientPc.reading) (ClientStep.read request) in
        let passes =
          client_goes s5 asked (ClientPc.forwarding request) (ClientPc.writing request)
            (stands s4 asked (ClientPc.forwarding request)) (ClientStep.go_on goes_on) in
        let hands =
          client_goes s6 fed (ClientPc.writing request) ClientPc.waiting
            (stands s5 asked (ClientPc.writing request)) (ClientStep.write writes) in
        next
          (next (next (next (next (next (next stay accepts) welcomes) waits) reads) starts) passes)
          hands

  -- What a client finds when its request is with the REPL.
  pub record Opened (t : System) : Type 0 where
    pub goes : Steps cfg lim repl_pid s t
    pub core :
        t.shared.core
        ≡ record admitted { phase = busy; serving = true; req_seq = u64 (old.req_seq + 1) }
    pub attached :
        t.shared.sink ≡ some (conn (encode [] stream_ctl (ctl_status (status_line cfg repl_pid s))))
    pub fed_repl : t.shared.repl_stdin ≡ some (record w { taken = w.taken ++ request })
    pub out : t.out ≡ s.out
    pub now : t.now ≡ s.now
    pub others : (k : ℕ) → (k == gen) ≡ false → t.clients k ≡ s.clients k

  pub opening :
      cfg.protocol ≡ true → IsFree s w → s.shared.shutdown ≡ false → (t : System) × Opened t
  opening framed free up = (
    s7 framed free up,
    record {
      goes = opens framed free up;
      core = refl;
      attached = refl;
      fed_repl = refl;
      out = refl;
      now = refl;
      others = λ k e. rw e refl;
    },
  )
