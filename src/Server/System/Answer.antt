-- ===== src/Server/System/Answer.antt =====
-- A request's response over the threads of src/server.rs and src/client.rs: the REPL's output, chunk by
-- chunk through `repl_out` and the client's wire, to what the client writes.
use replstoke.Common.{
  ℕ, ◌≡◌, ◌≢◌, ◌∙◌, sym, refl, ap, true, false, List, [], ◌∷◌, ◌++◌, Option, none, some, arith,
  Bytes, concat, ◌+◌, ◌<◌, ◌≤◌, ◌^◌, length, All, append_assoc,
}
use mathlib.Core.Path.{subst}
use replstoke.Strings.Utf8.{IsAscii}
use replstoke.Protocol.Types.{IoError, stream_ctl, max_packet}
use replstoke.Protocol.Encode.{encode, overhead}
use replstoke.Protocol.Ctl.{ctl_status}
use replstoke.Protocol.Framing.{source}
use replstoke.Marker.Set.{find_first, Match}
use replstoke.Marker.Scanner.{cut_at}
use replstoke.Client
use replstoke.Client.{ignore, OwnStreams, out_markers, finish, read_protocol}
use replstoke.Client.Response.{Works}
use replstoke.Client.Greeting.{greeted_response}
use replstoke.Server.Core.{Instant, busy, idle}
use replstoke.Server.Shared.{Settings, Shared, ClientConn, ReplStdin}
use replstoke.Server.Pump.{Action, Pump}
use replstoke.Server.Threads.{PumpPc, reading, acting, PumpStep}
use replstoke.Server.Threads.Rounds.{performs, round, rounds, rounds-stdin}
use replstoke.Server.Threads.Answered.{stdout_markers, Answered, answers}
use replstoke.Server.Supervise.{Limits}
use replstoke.Server.System.{System, accepting, Steps, Reach, out_moves}
use replstoke.Server.System.Invariant.{Reach-Inv, up_at}
use replstoke.Server.System.Streams.{trans, Reach-is_out}
use replstoke.Server.System.Opening.{IsFree, client_at, opening, status_line}

module _ (cfg : Settings) (lim : Limits) (repl_pid : ℕ) (s : System) where
  abbrev Goes : System → Type 0
  Goes = Steps cfg lim repl_pid s

  abbrev at : Shared → Pump → PumpPc → System
  at sh p pc = record s { shared = sh; out = record { pump = p; pc = pc } }

  begins : s.out.pc ≡ reading → Goes (at s.shared s.out.pump reading)
  begins e = subst (λ pc. Goes (at s.shared s.out.pump pc)) e Steps.stay

  acts_run :
      (as' : List Action) (sh : Shared) (p : Pump)
      → Goes (at sh p (acting as'))
      → Goes (at (performs cfg s.now as' sh) p (acting []))
  acts_run [] sh p g = g
  acts_run (a ∷ as') sh p g = acts_run as' _ p (Steps.next g (out_moves PumpStep.act))

  round_runs :
      (x : Shared × Pump) (c : Bytes)
      → Goes (at x.0 x.1 reading)
      → Goes (at (round cfg s.now x c).0 (round cfg s.now x c).1 reading)
  unfolding round
  round_runs (sh, p) c g =
      let read = Steps.next g (out_moves (PumpStep.read c)) in
      let scan = Steps.next read (out_moves PumpStep.scan) in
      Steps.next (acts_run _ sh _ scan) (out_moves PumpStep.again)

  rounds_run :
      (cs : List Bytes) (x : Shared × Pump)
      → Goes (at x.0 x.1 reading)
      → Goes (at (rounds cfg s.now x cs).0 (rounds cfg s.now x cs).1 reading)
  rounds_run [] x g = g
  rounds_run (c ∷ cs) x g = rounds_run cs (round cfg s.now x c) (round_runs x c g)

-- The client of this server: it looks for the same markers on stdout and does not show the server's
-- messages.
pub record IsClientOf (cfg : Settings) (client : Client.Settings) : Type 0 where
  pub framed : cfg.protocol ≡ true
  pub plain : cfg.strip_out ≡ false
  pub same_end : client.end_marker_stdout ≡ cfg.end_marker_stdout
  pub same_error : client.error_marker_stdout ≡ cfg.error_marker_stdout
  pub silent : client.ctl ≡ ignore

-- The status that greets the client is ASCII text that fits into a packet.
abbrev pub IsShort : Bytes → Type 0
IsShort line = All IsAscii line × (overhead stream_ctl + length (ctl_status line) ≤ max_packet)

-- The client, reading this connection and whatever follows it, writes a part of the response, up to
-- the part's first marker, and returns with that marker's outcome.
abbrev pub Receives : OwnStreams → Client.Settings → Bytes → Bytes → Type 0
Receives own client wire response =
    (f : Option IoError) (rest : Bytes)
    → (seen : Bytes) × (unseen : Bytes) × (n : Match) × (seen ++ unseen ≡ response)
      × (find_first (out_markers client) seen ≡ some n)
      × (read_protocol own client (source f (wire ++ rest)) ≡ (
        record { out = cut_at client.strip_marker_stdout seen n.0 n.1; err_out = [] },
        some (finish n.2),
      ))

module _ (cfg : Settings) (own : OwnStreams) (client : Client.Settings)
    (is : IsClientOf cfg client) where
  same_markers : out_markers client ≡ stdout_markers cfg
  unfolding out_markers
  same_markers = rw (is.same_end, is.same_error)

  receives :
      (now : Instant) (x y : Shared × Pump) (conn : ClientConn) (response line : Bytes)
      → Works own
      → IsShort line
      → conn.wire ≡ encode [] stream_ctl (ctl_status line)
      → (a : Answered cfg now x y conn (stdout_markers cfg) response)
      → Receives own client (conn.wire ++ a.wire) response
  receives now x y conn response line works (ascii, fits) greets a f rest =
      let (seen, unseen, k, parts, first, reads) =
        greeted_response own client is.silent line ascii f a.sent rest a.wire a.match works fits
          (a.spelled f rest) (rw same_markers a.found) in
      (
        seen,
        unseen ++ a.held,
        k,
        sym (append_assoc seen unseen a.held) ∙ ap (λ t. t ++ a.held) parts ∙ a.all,
        first,
        rw (greets, append_assoc) reads,
      )

-- With framing and without stripping on the server, in every state that the threads reach in n steps,
-- with n + 2 below 2 ^ 64, in which the main loop is about to accept, the REPL is idle and takes input,
-- nobody is attached, no signal has come and the pump of stdout is about to read, and for every client
-- that looks for the server's stdout markers and ignores its messages, with an own stdout that takes
-- every write: if the next client's status is ASCII text that fits into a packet and the REPL answers
-- with chunks of which the last completes a marker and the others together hold none, then there is a
-- run of the threads that gives the client's request to the REPL and leaves the REPL idle and the
-- client attached, and from its connection, whatever follows on it, the client writes to stdout a part
-- of the response, from its start, up to the part's first marker, with the marker unless stripped,
-- nothing to stderr, and returns with that marker's outcome.
pub request_answered :
    (cfg : Settings) (lim : Limits) (repl_pid : ℕ) (own : OwnStreams) (client : Client.Settings)
    (now : Instant) (n : ℕ) (s : System) (w : ReplStdin) (request : Bytes) (cs : List Bytes)
    (c : Bytes) (m : Match)
    → n + 2 < 2 ^ 64
    → Reach cfg lim repl_pid now n s
    → IsFree s w
    → IsClientOf cfg client
    → Works own
    → IsShort (status_line cfg repl_pid s)
    → find_first (out_markers client) (concat cs) ≡ none
    → find_first (out_markers client) (concat cs ++ c) ≡ some m
    → (t : System) × (conn : ClientConn) × Steps cfg lim repl_pid s t
      × (t.shared.core.phase ≡ idle)
      × (t.shared.repl_stdin ≡ some (record w { taken = w.taken ++ request }))
      × (t.shared.sink ≡ some conn)
      × Receives own client conn.wire (concat cs ++ c)
request_answered cfg lim repl_pid own client now n s w request cs c m few reach free is works short
      clear found =
    let v = Reach-Inv cfg lim repl_pid now n s few reach in
    let up = up_at cfg n s v few accepting free.loops (λ z. cc) in
    let (o, opened) = opening cfg lim repl_pid s w request is.framed free up in
    let x : Shared × Pump = (o.shared, o.out.pump) in
    let conn = client_at s (encode [] stream_ctl (ctl_status (status_line cfg repl_pid s))) in
    let is_out : o.out.pump.is_err ≡ false = rw opened.out (Reach-is_out cfg lim repl_pid reach) in
    let is_busy : o.shared.core.phase ≡ busy = rw opened.core refl in
    let renews : o.shared.core.req_seq ≢ o.out.pump.scanned_seq =
      rw (opened.core, opened.out) (λ e. omega (arith, v.counted.counted, v.out_seq)) in
    let a =
      answers cfg o.now cs x conn c m is.framed is.plain refl is_busy opened.attached renews is_out
        (rw (← same_markers cfg own client is) clear)
        (rw (← same_markers cfg own client is) found) in
    let y = round cfg o.now (rounds cfg o.now x cs) c in
    let reads : o.out.pc ≡ reading = rw opened.out free.prints in
    (
      at cfg lim repl_pid o y.0 y.1 reading,
      record conn { wire = conn.wire ++ a.wire },
      trans opened.goes (
          round_runs cfg lim repl_pid o (rounds cfg o.now x cs) c
            (rounds_run cfg lim repl_pid o cs x (begins cfg lim repl_pid o reads))),
      ap (λ k. k.phase) a.done,
      rounds-stdin cfg o.now (c ∷ []) (rounds cfg o.now x cs)
          ∙ rounds-stdin cfg o.now cs x
          ∙ opened.fed_repl,
      a.attached,
      receives cfg own client is o.now x y conn (concat cs ++ c) (status_line cfg repl_pid s) works
          short refl a,
    )
