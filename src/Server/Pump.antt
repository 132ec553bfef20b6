-- ===== src/Server/Pump.antt =====
-- The `repl_out` and `repl_err` threads of src/server.rs. What a pump does with a chunk is a list of
-- actions on the shared state, in order, so other threads can act between any two of them.
pub mod Routes
use replstoke.Common.{
  ℕ, ◌≡◌, refl, Bool, true, false, not, ◌||◌, ◌&&◌, List, [], ◌∷◌, ◌++◌, Option, none, some,
  if◌then◌else◌, Bytes, codes, is_nil, ◌==◌, ltb,
}
use replstoke.Marker.Set.{Markers, end, error, new as new_markers}
use replstoke.Marker.Scanner
use replstoke.Marker.Scanner.{MarkerScanner, Feed, more, done}
use replstoke.Marker.Response
use replstoke.Marker.Response.{ResponseScanner}
use replstoke.Server.Core.{Instant, Phase, booting, warmup, idle, busy, draining, stopped}
use replstoke.Server.Shared
use replstoke.Server.Shared.{Settings, Shared}

-- What a pump calls on the shared state.
pub data Action : Type 0 where
  signal_ready : Action
  warmup_done : Action
  response_end : Action
  output : (bytes : Bytes) (to_client : Bool) → Action

-- The variables of one pump.
pub record Pump : Type 0 where
  pub is_err : Bool
  pub ready_scanner : Option MarkerScanner
  pub warmup_scanner : Option MarkerScanner
  pub scanner : Option ResponseScanner
  pub scanned_seq : ℕ

-- What a pump reads of the shared state while it handles one chunk. The readings may be of different
-- moments: `phase` and `serving` are of one.
pub record Seen : Type 0 where
  pub phase : Phase
  pub serving : Bool
  pub booting : Bool  -- `is_booting` in `detect_ready`
  pub warmup_sent : Bool  -- `warmup_is_sent` in `detect_warmup`
  pub req_seq : ℕ

unfoldable pub single_marker_scanner : Bytes → Option MarkerScanner
unfolding Scanner.new new_markers
single_marker_scanner marker =
    if is_nil marker then none else Scanner.new (new_markers ((marker, end) ∷ [])) false

unfoldable pub ready_scanner_for : Settings → Bool → Option MarkerScanner
unfolding single_marker_scanner
ready_scanner_for cfg is_err =
    single_marker_scanner (if is_err then cfg.ready_marker_stderr else cfg.ready_marker_stdout)

unfoldable pub warmup_scanner_for : Settings → Bool → Option MarkerScanner
unfolding single_marker_scanner
warmup_scanner_for cfg is_err =
    single_marker_scanner (if is_err then cfg.warmup_marker_stderr else cfg.warmup_marker_stdout)

unfoldable pub response_scanner_for : Settings → Bool → Option ResponseScanner
unfolding new_markers Response.new
response_scanner_for cfg is_err =
    let err =
      Response.new
        (new_markers ((cfg.end_marker_stderr, end) ∷ (cfg.error_marker_stderr, error) ∷ []))
        cfg.strip_err in
    let out =
      Response.new
        (new_markers ((cfg.end_marker_stdout, end) ∷ (cfg.error_marker_stdout, error) ∷ []))
        cfg.strip_out in
    if not cfg.protocol then none else some (if is_err then err else out)

unfoldable pub start : Settings → Bool → Pump
unfolding ready_scanner_for warmup_scanner_for response_scanner_for
start cfg is_err = record {
  is_err = is_err;
  ready_scanner = ready_scanner_for cfg is_err;
  warmup_scanner = warmup_scanner_for cfg is_err;
  scanner = response_scanner_for cfg is_err;
  scanned_seq = 0;
}

-- `deliver_repl_output`: no bytes are no output.
abbrev pub deliver : Bytes → Bool → List Action
deliver bytes to_client = if is_nil bytes then [] else output bytes to_client ∷ []

-- The outcome of a detector's `feed`; a scanner that has finished would panic, and is dropped before.
unfoldable pub detected :
    Action → Option (MarkerScanner × Feed) → Option MarkerScanner × List Action
detected a none = (none, [])
detected a (some (sc, more bytes)) = (some sc, [])
detected a (some (sc, done outcome bytes)) = (none, a ∷ [])

unfoldable pub detect_ready :
    Bool → Option MarkerScanner → Bytes → Option MarkerScanner × List Action
unfolding detected
detect_ready is_booting none chunk = (none, [])
detect_ready is_booting (some rs) chunk =
    if not is_booting then (none, []) else detected signal_ready (Scanner.feed rs chunk)

unfoldable pub detect_warmup :
    Bool → Option MarkerScanner → Bytes → Option MarkerScanner × List Action
unfolding detected
detect_warmup is_sent none chunk = (none, [])
detect_warmup is_sent (some ws) chunk =
    if not is_sent then (some ws, []) else detected warmup_done (Scanner.feed ws chunk)

unfoldable pub boot_chunk : Pump → Seen → Bytes → Pump × List Action
unfolding detect_ready
boot_chunk p s chunk =
    let (rs, acts) = detect_ready s.booting p.ready_scanner chunk in
    (record p { ready_scanner = rs }, acts ++ deliver chunk false)

unfoldable pub warmup_chunk : Pump → Seen → Bytes → Pump × List Action
unfolding detect_warmup
warmup_chunk p s chunk =
    let (ws, acts) = detect_warmup s.warmup_sent p.warmup_scanner chunk in
    (record p { warmup_scanner = ws }, acts ++ deliver chunk false)

unfoldable pub raw_chunk : Pump → Seen → Phase → Bytes → Pump × List Action
unfolding boot_chunk warmup_chunk
raw_chunk p s (booting since) chunk = boot_chunk p s chunk
raw_chunk p s (warmup since) chunk = warmup_chunk p s chunk
raw_chunk p s _ chunk = (p, deliver chunk true)

-- `if let Some(s) = scanner.take() { flush }`.
abbrev pub flushed : Option ResponseScanner → List Action
flushed none = []
flushed (some sc) = deliver sc.hold false

-- A new request: the old scanner's bytes go to the server, and scanning starts afresh.
unfoldable pub renew : Settings → Pump → ℕ → Pump × List Action
unfolding response_scanner_for
renew cfg p seq = if seq == p.scanned_seq then (p, []) else (
  record p { scanner = response_scanner_for cfg p.is_err; scanned_seq = seq },
  flushed p.scanner,
)

unfoldable pub scan_chunk : Pump → Option ResponseScanner → Bytes → Pump × List Action
scan_chunk p none chunk = (p, deliver chunk true)
scan_chunk p (some sc) chunk =
    let (sc', emit, boundaries) = Response.feed sc chunk in
    (
      record p { scanner = some sc' },
      deliver emit true ++ (if ltb 0 boundaries then response_end ∷ [] else []),
    )

unfoldable pub response_chunk : Settings → Pump → Seen → Bytes → Pump × List Action
response_chunk cfg p s chunk =
    let (q, first) = renew cfg p s.req_seq in
    let (r, then_) = scan_chunk q q.scanner chunk in (r, first ++ then_)

unfoldable pub framed_chunk : Settings → Pump → Seen → Phase → Bytes → Pump × List Action
unfolding boot_chunk warmup_chunk response_chunk
framed_chunk cfg p s (booting since) chunk = boot_chunk p s chunk
framed_chunk cfg p s (warmup since) chunk = warmup_chunk p s chunk
framed_chunk cfg p s idle chunk = (p, deliver chunk s.serving)
framed_chunk cfg p s stopped chunk = (p, deliver chunk false)
framed_chunk cfg p s busy chunk = response_chunk cfg p s chunk
framed_chunk cfg p s (draining deadline) chunk = response_chunk cfg p s chunk

-- One round of the loop of `pump`.
unfoldable pub pump_chunk : Settings → Pump → Seen → Bytes → Pump × List Action
unfolding raw_chunk framed_chunk
pump_chunk cfg p s chunk =
    if not cfg.protocol then raw_chunk p s s.phase chunk else framed_chunk cfg p s s.phase chunk

-- Behind the loop, at the end of the REPL's output.
unfoldable pub pump_end : Settings → Pump → List Action
pump_end cfg p = if not cfg.protocol then [] else flushed p.scanner

-- An action on the shared state.
unfoldable pub perform : Settings → Bool → Instant → Action → Shared → Shared
unfolding Shared.signal_ready Shared.warmup_done Shared.response_end Shared.route_err
    Shared.route_out
perform cfg is_err now signal_ready sh = Shared.signal_ready cfg now sh
perform cfg is_err now warmup_done sh = Shared.warmup_done sh
perform cfg is_err now response_end sh = Shared.response_end sh
perform cfg is_err now (output bytes to_client) sh =
    if is_err
    then Shared.route_err cfg bytes to_client sh
    else Shared.route_out cfg bytes to_client sh
