-- ===== src/Client.antt =====
-- src/client.rs: how the client reads a response. The two output streams are what was written to them;
-- that they can fail is a parameter, and a write that fails leaves nothing behind.
pub mod Reading
pub mod Response
pub mod Greeting
pub mod Lossless
pub mod Watchdog
pub mod Raw
pub mod Run
use replstoke.Common.{
  ℕ, zero, suc, ◌+◌, Bool, [], ◌∷◌, ◌++◌, Option, none, some, if◌then◌else◌, Bytes, codes, bytes_eq,
  ok, err, length, is_nil,
}
use replstoke.Strings.Utf8.{from_utf8_lossy}
use replstoke.Strings.Decimal.{format_uint}
use replstoke.Error.{AppError, AppResult, failure, timeout}
use replstoke.Protocol.Types.{
  IoError, stream_out, stream_err, stream_ctl, Packet, ProtocolError, io, bad_framing,
  unsupported_version, error_text,
}
use replstoke.Protocol.Read.{Fault, refused, aborted, Source, read_packet}
use replstoke.Protocol.Ctl.{Ctl, parse_ctl}
use replstoke.Marker.Set.{Outcome, end, error, Markers, is_empty, new as new_markers}
use replstoke.Marker.Scanner
use replstoke.Marker.Scanner.{MarkerScanner, Feed, more, done}

-- Where the server's `ctl` messages go.
pub data CtlRoute : Type 0 where
  ignore stdout stderr : CtlRoute

-- The fields of `ClientConfig` that the reading side uses.
pub record Settings : Type 0 where
  pub end_marker_stdout : Bytes
  pub end_marker_stderr : Bytes
  pub error_marker_stdout : Bytes
  pub error_marker_stderr : Bytes
  pub strip_marker_stdout : Bool
  pub strip_marker_stderr : Bool
  pub ctl : CtlRoute

-- What the calls of `write` took. Stdout has a line buffer, which passes on what is behind the last line
-- feed only with a flush.
pub record Output : Type 0 where
  pub out : Bytes
  pub err_out : Bytes

-- The error of the next write to the own streams, by what was written to them, and that of a flush of
-- stdout; `none` if it succeeds. Stderr has no buffer.
pub record OwnStreams : Type 0 where
  pub out_fails : Bytes → Option IoError
  pub err_fails : Bytes → Option IoError
  pub flush_fails : Bytes → Option IoError

-- Rust's `writeln!`.
abbrev pub line : Bytes → Bytes
line s = s ++ b'\n' ∷ []

unfoldable pub out_markers : Settings → Markers
unfolding new_markers
out_markers cfg = new_markers ((cfg.end_marker_stdout, end) ∷ (cfg.error_marker_stdout, error) ∷ [])

unfoldable pub err_markers : Settings → Markers
unfolding new_markers
err_markers cfg = new_markers ((cfg.end_marker_stderr, end) ∷ (cfg.error_marker_stderr, error) ∷ [])

unfoldable pub scanner_for : Markers → Bool → Option MarkerScanner
unfolding Scanner.new is_empty
scanner_for markers strip = if is_empty markers then none else Scanner.new markers strip

unfoldable pub finish : Outcome → AppResult (Unit {0})
unfolding failure
finish end = ok tt
finish error = err (failure (codes "end-of-response error marker seen"))

-- The outcome of a scanner's `feed`: the scanner, the bytes to write and the marker's outcome. A
-- scanner that is done is never fed again, as the client returns then.
unfoldable pub after_feed :
    Option (MarkerScanner × Feed) → Option MarkerScanner × Bytes × Option Outcome
after_feed none = (none, [], none)
after_feed (some (sc, more bytes)) = (some sc, bytes, none)
after_feed (some (sc, done outcome bytes)) = (some sc, bytes, some outcome)

unfoldable pub feed : Option MarkerScanner → Bytes → Option MarkerScanner × Bytes × Option Outcome
unfolding after_feed
feed none payload = (none, payload, none)
feed (some sc) payload = after_feed (Scanner.feed sc payload)

-- The variables of the loop of `read_protocol`.
pub record Reader : Type 0 where
  pub out_scanner : Option MarkerScanner
  pub err_scanner : Option MarkerScanner
  pub written : Output

-- `write_all`, which calls no write without bytes.
unfoldable pub write_to : (Bytes → Option IoError) → Bytes → Bytes → Bytes × Option IoError
write_to fails written bytes =
    if is_nil bytes
    then (written, none)
    else elim (fails written) [ none ↦ (written ++ bytes, none) | some e ↦ (written, some e) ]

unfoldable pub write_out : OwnStreams → Bytes → Output → Output × Option IoError
unfolding write_to
write_out own bytes w =
    let (out, fault) = write_to own.out_fails w.out bytes in (record w { out = out }, fault)

unfoldable pub write_err : OwnStreams → Bytes → Output → Output × Option IoError
unfolding write_to
write_err own bytes w =
    let (err_out, fault) = write_to own.err_fails w.err_out bytes in
    (record w { err_out = err_out }, fault)

unfoldable pub write_failure : IoError → AppError
unfolding failure
write_failure e = failure (codes "error writing output: " ++ e)

-- A failed write is ignored.
unfoldable pub route_ctl : OwnStreams → CtlRoute → Bytes → Output → Output
unfolding write_out write_err
route_ctl own ignore text w = w
route_ctl own stdout text w = (write_out own (line text) w).0
route_ctl own stderr text w = (write_err own (line text) w).0

-- Whether to read on (`none`) or to return.
abbrev pub Verdict : Type 0
Verdict = Option (AppResult (Unit {0}))

-- Behind a marker `out.flush().ok()`: the error of the flush is ignored.
abbrev pub verdict : Option IoError → Option Outcome → Verdict
verdict unflushed none = none
verdict unflushed (some outcome) = some (finish outcome)

-- `write_out(..)?` before the verdict.
abbrev pub after_write : Option IoError → Verdict → Verdict
after_write none v = v
after_write (some e) v = some (err (write_failure e))

unfoldable pub on_ctl : OwnStreams → Settings → Bytes → Ctl → Reader → Reader × Verdict
unfolding route_ctl failure
on_ctl own cfg text (Ctl.error message) r = (r, some (err (failure (codes "server: " ++ message))))
on_ctl own cfg text (Ctl.status fields) r =
    (record r { written = route_ctl own cfg.ctl text r.written }, none)
on_ctl own cfg text (Ctl.other s) r =
    (record r { written = route_ctl own cfg.ctl text r.written }, none)

unfoldable pub on_out : OwnStreams → Reader → Bytes → Reader × Verdict
unfolding feed write_failure
on_out own r payload =
    let (sc, bytes, outcome) = feed r.out_scanner payload in
    let (w, fault) = write_out own bytes r.written in
    (
      record r { out_scanner = sc; written = w },
      after_write fault (verdict (own.flush_fails w.out) outcome),
    )

unfoldable pub on_err : OwnStreams → Reader → Bytes → Reader × Verdict
unfolding feed write_err write_failure
on_err own r payload =
    let (sc, bytes, outcome) = feed r.err_scanner payload in
    let (w, fault) = write_err own bytes r.written in
    (record r { err_scanner = sc; written = w }, after_write fault (verdict none outcome))

-- One packet; an unknown stream is ignored.
unfoldable pub on_packet : OwnStreams → Settings → Reader → Packet → Reader × Verdict
unfolding on_out on_err on_ctl parse_ctl
on_packet own cfg r pkt =
    if bytes_eq pkt.stream stream_out
    then on_out own r pkt.payload
    else if bytes_eq pkt.stream stream_err
    then on_err own r pkt.payload
    else if bytes_eq pkt.stream stream_ctl
    then on_ctl own cfg (from_utf8_lossy pkt.payload) (parse_ctl pkt.payload) r
    else (r, none)

unfoldable pub held : Option MarkerScanner → Bytes
unfolding Scanner.flush
held none = []
held (some sc) = Scanner.flush sc

-- The server closed the connection: what is held back is written, first to stdout; a flush behind
-- it that fails changes nothing.
unfoldable pub closed_err : Reader → Output × Option IoError → Reader × AppResult (Unit {0})
unfolding failure write_failure
closed_err r (w, some e) = (record r { written = w }, err (write_failure e))
closed_err r (w, none) = (
  record r { written = w },
  err (failure (codes "connection closed by server before end-of-response marker")),
)

unfoldable pub closed_out :
    OwnStreams → Reader → Output × Option IoError → Reader × AppResult (Unit {0})
unfolding closed_err held write_err write_failure
closed_out own r (w, some e) = (record r { written = w }, err (write_failure e))
closed_out own r (w, none) = closed_err r (write_err own (held r.err_scanner) w)

unfoldable pub on_close : OwnStreams → Reader → Reader × AppResult (Unit {0})
unfolding closed_out held write_out
on_close own r = closed_out own r (write_out own (held r.out_scanner) r.written)

unfoldable pub protocol_failure : ProtocolError → AppError
unfolding failure error_text
protocol_failure (unsupported_version major minor) = failure (
    codes "server protocol version "
    ++ format_uint major
    ++ codes "."
    ++ format_uint minor
    ++ codes
        " is newer than this client supports; read the stream with text tools, or run both server and client with --raw")
protocol_failure (io e) = failure (error_text (io e))
protocol_failure (bad_framing m) = failure (error_text (bad_framing m))

-- A panic of the reader aborts the process, so that there is no result.
unfoldable pub on_fault : Fault → Verdict
unfolding protocol_failure
on_fault (refused e) = some (err (protocol_failure e))
on_fault aborted = none

-- The loop of `read_protocol`. `none` in the second part means that the reader panicked or that the fuel
-- ran out; each packet takes at least one byte, so the stream's length and one more is enough.
unfoldable pub read_loop :
    ℕ → OwnStreams → Settings → Reader → Source → Reader × Option (AppResult (Unit {0}))
unfolding on_packet on_close on_fault
read_loop zero own cfg r s = (r, none)
read_loop (suc fuel) own cfg r s = elim (read_packet s) [
  | err e ↦ (r, on_fault e)
  | ok p ↦ elim p.0 [
    | none ↦ ((on_close own r).0, some (on_close own r).1)
    | some pkt ↦ elim (on_packet own cfg r pkt).1 [
      | none ↦ read_loop fuel own cfg (on_packet own cfg r pkt).0 p.1
      | some result ↦ ((on_packet own cfg r pkt).0, some result)
    ]
  ]
]

unfoldable pub start : Settings → Reader
unfolding scanner_for out_markers err_markers
start cfg = record {
  out_scanner = scanner_for (out_markers cfg) cfg.strip_marker_stdout;
  err_scanner = scanner_for (err_markers cfg) cfg.strip_marker_stderr;
  written = record { out = []; err_out = [] };
}

unfoldable pub read_protocol :
    OwnStreams → Settings → Source → Output × Option (AppResult (Unit {0}))
unfolding read_loop start
read_protocol own cfg s =
    let (r, result) = read_loop (length s.pending + 1) own cfg (start cfg) s in (r.written, result)

-- `run` behind the reading: a read that failed after the watchdog fired is a timeout.
unfoldable pub conclude : AppResult (Unit {0}) → Bool → Bytes → AppResult (Unit {0})
unfolding timeout
conclude (ok u) timed_out seconds = ok u
conclude (err e) timed_out seconds =
    if timed_out
    then err (
        timeout
          (codes "timed out after " ++ seconds ++ codes " seconds waiting for a complete response"))
    else err e
