-- ===== src/Client/Run.antt =====
-- `run` of src/client.rs, from the connection to the result, and its sending side. What the calls of the
-- system return is a parameter; a write that fails leaves nothing behind.
use replstoke.Common.{
  Bool, List, [], ◌∷◌, ◌++◌, Option, none, some, if◌then◌else◌, Bytes, codes, Result, ok, err,
  is_nil, ◌>>=◌, ◌>>◌,
}
use replstoke.Error.{AppResult, failure}
use replstoke.Protocol.Types.{IoError}
use replstoke.Protocol.Read.{Source}
use replstoke.Cli.Config.{Bind, tcp, unix, FileInput, ClientConfig, Duration}
use replstoke.Names.{discover_socket}
use replstoke.Client.{OwnStreams, Settings, Output, read_protocol, conclude}
use replstoke.Client.Raw.{read_raw}

unfoldable pub settings : ClientConfig → Settings
settings cfg = record {
  end_marker_stdout = cfg.end_marker_stdout;
  end_marker_stderr = cfg.end_marker_stderr;
  error_marker_stdout = cfg.error_marker_stdout;
  error_marker_stderr = cfg.error_marker_stderr;
  strip_marker_stdout = cfg.strip_marker_stdout;
  strip_marker_stderr = cfg.strip_marker_stderr;
  ctl = cfg.ctl;
}

-- By what the directory's listing returns.
unfoldable pub resolve_bind : Result Bytes (List Bytes) → Bind → AppResult Bind
resolve_bind listing (unix none) = discover_socket listing >>= λ path. ok (unix (some path))
resolve_bind listing (unix (some path)) = ok (unix (some path))
resolve_bind listing (tcp addr port) = ok (tcp addr port)

-- The connection as the sender sees it: the bytes written, and the error of the next write, if it fails.
pub record Writer : Type 0 where
  pub sent : Bytes
  pub fails : Bytes → Option IoError

abbrev pub Sent : Type 0
Sent = Writer × Option IoError

unfoldable pub write_all : Bytes → Writer → Sent
write_all bytes w = elim (w.fails w.sent) [
  | none ↦ (record w { sent = w.sent ++ bytes }, none)
  | some e ↦ (w, some e)
]

-- `?`.
unfoldable pub and_then : Sent → (Writer → Sent) → Sent
and_then (w, none) next = next w
and_then (w, some e) next = (w, some e)

-- A source that is read by chunks, and how it ends.
abbrev pub Input : Type 0
Input = List Bytes × Option IoError

-- The empty read ends the loop.
unfoldable pub copy : List Bytes → Option IoError → Writer → Sent
unfolding write_all and_then
copy [] fault w = (w, fault)
copy ([] ∷ chunks) fault w = (w, none)
copy ((c ∷ cs) ∷ chunks) fault w = and_then (write_all (c ∷ cs) w) (copy chunks fault)

-- Standard input, and how the named file is opened.
unfoldable pub send_file : Input → (Bytes → Result IoError Input) → Option FileInput → Writer → Sent
unfolding copy
send_file stdin open_file none w = (w, none)
send_file stdin open_file (some FileInput.stdin) w = copy stdin.0 stdin.1 w
send_file stdin open_file (some (FileInput.path p)) w = elim (open_file p) [
  | err e ↦ (w, some e)
  | ok input ↦ copy input.0 input.1 w
]

unfoldable pub send_some : Option Bytes → Writer → Sent
unfolding write_all
send_some none w = (w, none)
send_some (some bytes) w = write_all bytes w

unfoldable pub send_suffix : Bytes → Writer → Sent
unfolding write_all
send_suffix suffix w = if is_nil suffix then (w, none) else write_all suffix w

-- The stream has no buffer, so that `flush` does nothing.
unfoldable pub send_input : Input → (Bytes → Result IoError Input) → ClientConfig → Writer → Sent
unfolding send_some send_file send_suffix and_then
send_input stdin open_file cfg w =
    and_then (and_then (send_some cfg.arginput w) (send_file stdin open_file cfg.fileinput))
      (send_suffix cfg.suffix)

-- What the calls of `run` return; `timed_out` is whether the watchdog fired before the end of the
-- reading, which it is the cause of, and `seconds` the timeout as it is printed.
pub record Trip : Type 0 where
  pub listing : Result Bytes (List Bytes)
  pub connect_error : Option Bytes
  pub clone_error : Option Bytes
  pub watchdog_clone_error : Option Bytes
  pub framed : Source
  pub chunks : List Bytes
  pub fault : Option IoError
  pub timed_out : Bool
  pub seconds : Bytes
  pub own : OwnStreams

unfoldable pub no_error : Bytes → Option Bytes → AppResult (Unit {0})
unfolding failure
no_error what none = ok tt
no_error what (some e) = err (failure (what ++ e))

unfoldable pub watchdog_error : Option Duration → Option Bytes → Option Bytes
watchdog_error none e = none
watchdog_error (some t) e = e

-- Up to the reading.
unfoldable pub open_all : Trip → ClientConfig → AppResult (Unit {0})
unfolding resolve_bind no_error watchdog_error
open_all trip cfg = resolve_bind trip.listing cfg.bind >>= λ bind.
    no_error (codes "cannot connect to server: ") trip.connect_error
    >> no_error (codes "cannot clone connection: ") trip.clone_error
    >> no_error (codes "cannot clone connection: ")
        (watchdog_error cfg.timeout trip.watchdog_clone_error)

unfoldable pub read_answer : Trip → ClientConfig → Output × Option (AppResult (Unit {0}))
unfolding settings
read_answer trip cfg =
    let raw = read_raw trip.own (settings cfg) trip.chunks trip.fault in
    if cfg.raw
    then (record { out = raw.0; err_out = [] }, some raw.1)
    else read_protocol trip.own (settings cfg) trip.framed

unfoldable pub conclude_all :
    Trip → Output × Option (AppResult (Unit {0})) → Output × Option (AppResult (Unit {0}))
unfolding conclude
conclude_all trip (out, none) = (out, none)
conclude_all trip (out, some result) = (out, some (conclude result trip.timed_out trip.seconds))

-- `send_input` runs beside the reading, and its result is dropped.
unfoldable pub run : Trip → ClientConfig → Output × Option (AppResult (Unit {0}))
unfolding open_all read_answer conclude_all
run trip cfg = elim (open_all trip cfg) [
  | err e ↦ (record { out = []; err_out = [] }, some (err e))
  | ok u ↦ conclude_all trip (read_answer trip cfg)
]
