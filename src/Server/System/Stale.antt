-- ===== src/Server/System/Stale.antt =====
-- A client's thread of src/server.rs that outlives the REPL its client was attached to.
use replstoke.Common.{
  ℕ, ◌+◌, ◌≡◌, ◌≢◌, ◌∙◌, refl, [], true, false, ◌++◌, some, arith, Bytes, ◌==◌, ==_iff, ap,
}
use mathlib.Core.Option
use replstoke.Protocol.Types.{stream_ctl}
use replstoke.Protocol.Encode.{encode}
use replstoke.Protocol.Ctl.{ctl_status}
use replstoke.Server.Core.{Instant, busy, draining}
use replstoke.Server.Core
use replstoke.Server.Shared
use replstoke.Server.Shared.{Settings, Shared, ClientConn, ReplStdin}
use replstoke.Server.Supervise.{Limits}
use replstoke.Server.Threads.{ClientPc, ClientStep, reading}
use replstoke.Server.System.{System, Step, client_moves, update, Steps, next}
use replstoke.Server.System.Opening.{IsFree, status_line, client_at, opening}

-- When a client's thread ends while another client is attached and its request is in flight, the other
-- client stays attached, but its request is drained and it is no longer served.
stale_client_gone :
    (cfg : Settings) (now : Instant) (gen : ℕ) (sh : Shared) (conn : ClientConn)
    → sh.sink ≡ some conn
    → conn.gen ≢ gen
    → sh.core.phase ≡ busy
    → ((Shared.client_gone cfg now gen sh).sink ≡ some conn)
      × ((Shared.client_gone cfg now gen sh).core.phase
          ≡ draining (Option.map (λ t. now + t) cfg.response_timeout))
      × ((Shared.client_gone cfg now gen sh).core.serving ≡ false)
unfolding Shared.client_gone Core.client_gone
stale_client_gone cfg now gen sh conn attached other e = (ground arith, ground arith, ground arith)

-- With framing, from a state in which the main loop is about to accept, the REPL is idle and takes
-- input, nobody is attached, no stop is asked for, and the thread of an earlier client, whose
-- generation is not the next one, still reads: there is a run of the threads in which the next client
-- is accepted and its request given to the REPL, and then, with that client attached as before and its
-- request in flight, the end of the earlier client's input drains the request, with the deadline of an
-- abandoned one if there is a response timeout, and the client is no longer served.
pub stale_departure :
    (cfg : Settings) (lim : Limits) (repl_pid : ℕ) (s : System) (w : ReplStdin) (request : Bytes)
    (old : ℕ)
    → cfg.protocol ≡ true
    → IsFree s w
    → s.shared.shutdown ≡ false
    → s.clients old ≡ reading
    → s.shared.core.next_gen ≢ old
    → (t : System) × Steps cfg lim repl_pid s t
      × (t.shared.repl_stdin ≡ some (record w { taken = w.taken ++ request }))
      × (t.shared.sink
          ≡ some (client_at s (encode [] stream_ctl (ctl_status (status_line cfg repl_pid s)))))
      × (t.shared.core.phase ≡ draining (Option.map (λ d. s.now + d) cfg.response_timeout))
      × (t.shared.core.serving ≡ false)
unfolding Shared.client_gone
stale_departure cfg lim repl_pid s w request old framed free up hangs other =
    let (t, v) = opening cfg lim repl_pid s w request framed free up in
    let apart : (old == s.shared.core.next_gen) ≡ false = ground arith in
    let at_read : t.clients old ≡ reading = v.others old apart ∙ hangs in
    let same : (old == old) ≡ true = (==_iff old old).1 refl in
    let left = record t { clients = update t.clients old ClientPc.leaving } in
    let hears : Step cfg lim repl_pid t left = client_moves old (rw at_read ClientStep.read_end) in
    let gone = record left {
      shared = Shared.client_gone cfg t.now old t.shared;
      clients = update left.clients old ClientPc.gone;
    } in
    let st : ClientStep cfg t.signalled t.now old t.shared ClientPc.leaving
        (Shared.client_gone cfg t.now old t.shared) ClientPc.gone =
      ClientStep.leave in
    let goes : Step cfg lim repl_pid left gone = client_moves old (rw same st) in
    let (stays, drains, unserved) =
      stale_client_gone cfg t.now old t.shared _ v.attached other (ap (λ c. c.phase) v.core) in
    (
      gone,
      next (next v.goes hears) goes,
      v.fed_repl,
      stays,
      drains ∙ ap (λ n. draining (Option.map (λ d. n + d) cfg.response_timeout)) v.now,
      unserved,
    )
