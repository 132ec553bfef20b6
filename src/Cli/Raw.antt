-- ===== src/Cli/Raw.antt =====
-- `Raw`, `handle_long` and `handle_short` of src/cli/mod.rs. The arguments that are still to come are
-- a list, where the source has the vector and an index.
use replstoke.Common.{
  ℕ, ◌+◌, ◌/◌, ◌%◌, ltb, Bool, true, false, List, [], ◌∷◌, ◌++◌, Option, none, some, if◌then◌else◌,
  Bytes, codes, bytes_eq, ◌==◌, ok, err, ◌>>=◌, ◌>>◌,
}
use mathlib.Core.Option
use replstoke.Strings.Utf8.{from_utf8_lossy}
use replstoke.Strings.Decimal.{parse_uint, max_u16}
use replstoke.Error.{AppResult, usage}
use replstoke.Cli.Config.{Duration}

pub record Raw : Type 0 where
  pub server : Bool
  pub client : Bool
  pub restart : Bool
  pub strip_marker_stdout : Bool
  pub strip_marker_stderr : Bool
  pub raw : Bool
  pub help : Bool
  pub version : Bool
  pub addr : Option (Option Bytes)
  pub port : Option ℕ
  pub unixsocket : Option (Option Bytes)
  pub pidfile : Option (Option Bytes)
  pub kill : Option (Option Bytes)
  pub arginput : Option Bytes
  pub fileinput : Option Bytes
  pub suffix : Option Bytes
  pub end_marker_stdout : Option Bytes
  pub end_marker_stderr : Option Bytes
  pub error_marker_stdout : Option Bytes
  pub error_marker_stderr : Option Bytes
  pub ready_marker_stdout : Option Bytes
  pub ready_marker_stderr : Option Bytes
  pub ready_wait : Option Duration
  pub ready_marker_timeout : Option Duration
  pub warmup : Option Bytes
  pub warmup_marker_stdout : Option Bytes
  pub warmup_marker_stderr : Option Bytes
  pub warmup_wait : Option Duration
  pub warmup_marker_timeout : Option Duration
  pub ctl : Option Bytes
  pub timeout : Option Duration
  pub response_timeout : Option Duration
  pub exec : Option (List Bytes)

abbrev pub blank : Raw
blank = record {
  server = false;
  client = false;
  restart = false;
  strip_marker_stdout = false;
  strip_marker_stderr = false;
  raw = false;
  help = false;
  version = false;
  addr = none;
  port = none;
  unixsocket = none;
  pidfile = none;
  kill = none;
  arginput = none;
  fileinput = none;
  suffix = none;
  end_marker_stdout = none;
  end_marker_stderr = none;
  error_marker_stdout = none;
  error_marker_stderr = none;
  ready_marker_stdout = none;
  ready_marker_stderr = none;
  ready_wait = none;
  ready_marker_timeout = none;
  warmup = none;
  warmup_marker_stdout = none;
  warmup_marker_stderr = none;
  warmup_wait = none;
  warmup_marker_timeout = none;
  ctl = none;
  timeout = none;
  response_timeout = none;
  exec = none;
}

-- What an option leaves: the accumulator, the arguments still to come, and whether parsing stops.
abbrev pub Step : Type 0
Step = Raw × List Bytes × Bool

-- `parse::<f64>()`, then finite and positive: floating point numbers are a parameter. It is about numbers
-- that fit a `Duration`: `Duration::from_secs_f64` panics on a bigger one, and there is no result then.
abbrev pub ParseSeconds : Type 0
ParseSeconds = Bytes → Option Duration

unfoldable pub parse_port : Bytes → AppResult ℕ
unfolding usage
parse_port bytes =
    let s = from_utf8_lossy bytes in
    elim (parse_uint max_u16 s) [
      | none ↦ err (usage (codes "invalid port number '" ++ s ++ codes "'"))
      | some port ↦ ok port
    ]

unfoldable pub parse_timeout : ParseSeconds → Bytes → AppResult Duration
unfolding usage
parse_timeout seconds bytes =
    let s = from_utf8_lossy bytes in
    elim (seconds s) [
      | none ↦ err (
          usage
            (codes "invalid timeout '" ++ s ++ codes "'; expected a positive number of seconds"))
      | some d ↦ ok d
    ]

-- The closure `no_value` of `handle_long`.
unfoldable pub no_value : Bytes → Option Bytes → AppResult (Unit {0})
unfolding usage
no_value name none = ok tt
no_value name (some v) = err (usage (codes "option '--" ++ name ++ codes "' does not take a value"))

-- The closure `required`: the attached value, or the next argument.
unfoldable pub required : Bytes → Option Bytes → List Bytes → AppResult (Bytes × List Bytes)
unfolding usage
required name (some v) args = ok (v, args)
required name none (a ∷ args) = ok (a, args)
required name none [] = err (usage (codes "option '--" ++ name ++ codes "' requires an argument"))

-- The options of one kind: how a value changes the accumulator.
abbrev flag : Bytes → Option Bytes → List Bytes → Raw → AppResult Step
flag name value args raw = do no_value name value; ok (raw, args, false)

abbrev taking : Bytes → Option Bytes → List Bytes → (Bytes → AppResult Raw) → AppResult Step
taking name value args set = do
  (v, rest) ← required name value args
  raw ← set v
  ok (raw, rest, false)

abbrev from_value : Option Bytes → List Bytes
from_value none = []
from_value (some v) = v ∷ []

-- The last arms of `handle_long`, those that parse durations among them.
unfoldable pub long_required2 :
    ParseSeconds → Raw → Bytes → Option Bytes → List Bytes → AppResult Step
unfolding usage parse_timeout required
long_required2 seconds raw name value args =
    if bytes_eq name (codes "ready-wait")
    then taking name value args
        (λ v. do d ← parse_timeout seconds v; ok (record raw { ready_wait = some d }))
    else if bytes_eq name (codes "ready-marker-timeout")
    then taking name value args
        (λ v. do d ← parse_timeout seconds v; ok (record raw { ready_marker_timeout = some d }))
    else if bytes_eq name (codes "warmup-input")
    then taking name value args (λ v. ok (record raw { warmup = some v }))
    else if bytes_eq name (codes "warmup-marker-stdout")
    then taking name value args (λ v. ok (record raw { warmup_marker_stdout = some v }))
    else if bytes_eq name (codes "warmup-marker-stderr")
    then taking name value args (λ v. ok (record raw { warmup_marker_stderr = some v }))
    else if bytes_eq name (codes "warmup-wait")
    then taking name value args
        (λ v. do d ← parse_timeout seconds v; ok (record raw { warmup_wait = some d }))
    else if bytes_eq name (codes "warmup-marker-timeout")
    then taking name value args
        (λ v. do d ← parse_timeout seconds v; ok (record raw { warmup_marker_timeout = some d }))
    else if bytes_eq name (codes "ctl")
    then taking name value args (λ v. ok (record raw { ctl = some (from_utf8_lossy v) }))
    else if bytes_eq name (codes "timeout")
    then taking name value args
        (λ v. do d ← parse_timeout seconds v; ok (record raw { timeout = some d }))
    else if bytes_eq name (codes "response-timeout")
    then taking name value args
        (λ v. do d ← parse_timeout seconds v; ok (record raw { response_timeout = some d }))
    else if bytes_eq name (codes "fileinput")
    then taking name value args (λ v. ok (record raw { fileinput = some v }))
    else if bytes_eq name (codes "exec")
    then ok (record raw { exec = some (from_value value ++ args) }, [], true)
    else err (usage (codes "unknown option '--" ++ name ++ codes "'"))

-- The arms from `port` on, which require a value.
unfoldable pub long_required :
    ParseSeconds → Raw → Bytes → Option Bytes → List Bytes → AppResult Step
unfolding long_required2 parse_port required
long_required seconds raw name value args =
    if bytes_eq name (codes "port")
    then taking name value args (λ v. do p ← parse_port v; ok (record raw { port = some p }))
    else if bytes_eq name (codes "arginput")
    then taking name value args (λ v. ok (record raw { arginput = some v }))
    else if bytes_eq name (codes "suffix")
    then taking name value args (λ v. ok (record raw { suffix = some v }))
    else if bytes_eq name (codes "end-marker-stdout")
    then taking name value args (λ v. ok (record raw { end_marker_stdout = some v }))
    else if bytes_eq name (codes "end-marker-stderr")
    then taking name value args (λ v. ok (record raw { end_marker_stderr = some v }))
    else if bytes_eq name (codes "error-marker-stdout")
    then taking name value args (λ v. ok (record raw { error_marker_stdout = some v }))
    else if bytes_eq name (codes "error-marker-stderr")
    then taking name value args (λ v. ok (record raw { error_marker_stderr = some v }))
    else if bytes_eq name (codes "ready-marker-stdout")
    then taking name value args (λ v. ok (record raw { ready_marker_stdout = some v }))
    else if bytes_eq name (codes "ready-marker-stderr")
    then taking name value args (λ v. ok (record raw { ready_marker_stderr = some v }))
    else long_required2 seconds raw name value args

-- `handle_long`: the arms without a value and with an optional one stand first.
unfoldable pub handle_long : ParseSeconds → Raw → Bytes → Option Bytes → List Bytes → AppResult Step
unfolding long_required no_value
handle_long seconds raw name value args =
    if bytes_eq name (codes "server")
    then flag name value args (record raw { server = true })
    else if bytes_eq name (codes "client")
    then flag name value args (record raw { client = true })
    else if bytes_eq name (codes "restart")
    then flag name value args (record raw { restart = true })
    else if bytes_eq name (codes "strip-marker-stdout")
    then flag name value args (record raw { strip_marker_stdout = true })
    else if bytes_eq name (codes "strip-marker-stderr")
    then flag name value args (record raw { strip_marker_stderr = true })
    else if bytes_eq name (codes "raw")
    then flag name value args (record raw { raw = true })
    else if bytes_eq name (codes "help")
    then flag name value args (record raw { help = true })
    else if bytes_eq name (codes "version")
    then flag name value args (record raw { version = true })
    else if bytes_eq name (codes "addr")
    then ok (record raw { addr = some (Option.map from_utf8_lossy value) }, args, false)
    else if bytes_eq name (codes "unixsocket")
    then ok (record raw { unixsocket = some value }, args, false)
    else if bytes_eq name (codes "pidfile")
    then ok (record raw { pidfile = some value }, args, false)
    else if bytes_eq name (codes "kill")
    then ok (record raw { kill = some value }, args, false)
    else long_required seconds raw name value args

-- `c as char` in a message: U+0000 to U+00FF in UTF-8.
unfoldable pub as_char : ℕ → Bytes
as_char c = if ltb c 0x80 then c ∷ [] else (0xC0 + c / 64) ∷ (0x80 + c % 64) ∷ []

-- The closure `take_required` of `handle_short`: the rest of the token, or the next argument.
unfoldable pub take_required : ℕ → Bytes → List Bytes → AppResult (Bytes × List Bytes)
unfolding usage as_char
take_required c (a ∷ attached) args = ok (a ∷ attached, args)
take_required c [] (a ∷ args) = ok (a, args)
take_required c [] [] =
    err (usage (codes "option '-" ++ as_char c ++ codes "' requires an argument"))

-- The closure `optional`.
unfoldable pub optional : Bytes → Option Bytes
optional [] = none
optional (a ∷ attached) = some (a ∷ attached)

abbrev taking_short : ℕ → Bytes → List Bytes → (Bytes → AppResult Raw) → AppResult Step
taking_short c attached args set = do
  (v, rest) ← take_required c attached args
  raw ← set v
  ok (raw, rest, false)

-- The arms of `handle_short` that end the token.
unfoldable pub short_value : Raw → ℕ → Bytes → List Bytes → AppResult Step
unfolding usage as_char parse_port take_required optional
short_value raw c attached args =
    if c == b'a'
    then ok
        (record raw { addr = some (Option.map from_utf8_lossy (optional attached)) }, args, false)
    else if c == b'u'
    then ok (record raw { unixsocket = some (optional attached) }, args, false)
    else if c == b'd'
    then ok (record raw { pidfile = some (optional attached) }, args, false)
    else if c == b'k'
    then ok (record raw { kill = some (optional attached) }, args, false)
    else if c == b'p'
    then taking_short c attached args (λ v. do p ← parse_port v; ok (record raw { port = some p }))
    else if c == b'i'
    then taking_short c attached args (λ v. ok (record raw { arginput = some v }))
    else if c == b'f'
    then taking_short c attached args (λ v. ok (record raw { fileinput = some v }))
    else if c == b'm'
    then taking_short c attached args (λ v. ok (record raw { end_marker_stdout = some v }))
    else if c == b'x'
    then taking_short c attached args (λ v. ok (record raw { suffix = some v }))
    else if c == b'e'
    then ok (record raw { exec = some (from_value (optional attached) ++ args) }, [], true)
    else err (usage (codes "unknown option '-" ++ as_char c ++ codes "'"))

-- The loop over the letters of a token.
unfoldable pub handle_short : Raw → Bytes → List Bytes → AppResult Step
unfolding short_value
handle_short raw [] args = ok (raw, args, false)
handle_short raw (c ∷ attached) args =
    let server = handle_short (record raw { server = true }) attached args in
    let client = handle_short (record raw { client = true }) attached args in
    let restart = handle_short (record raw { restart = true }) attached args in
    let help = handle_short (record raw { help = true }) attached args in
    if c == b's'
    then server
    else if c == b'c'
    then client
    else if c == b'r'
    then restart
    else if c == b'h'
    then help
    else short_value raw c attached args
