-- ===== src/Cli/Build.antt =====
-- `build_config` of src/cli/mod.rs.
pub mod Valid
use replstoke.Common.{
  ℕ, ◌≡◌, refl, Bool, true, false, not, ◌||◌, ◌&&◌, List, [], ◌∷◌, ◌++◌, Option, none, some,
  if◌then◌else◌, Bytes, codes, bytes_eq, is_nil, Result, ok, err, ◌>>=◌, ◌>>◌,
}
use mathlib.Core.Option
use replstoke.Error.{AppError, AppResult, usage}
use replstoke.Client.{CtlRoute, ignore, stdout, stderr}
use replstoke.Cli.Config.{
  Bind, tcp, unix, PidfileSpec, FileInput, GeneralAction, help, version, ServerConfig, ClientConfig,
  Config, server, client, general, default_addr, default_port, default_end_marker_stdout,
  default_error_marker_stderr,
}
use replstoke.Cli.Config
use replstoke.Cli.Raw.{Raw, ParseSeconds}
use replstoke.Cli.Tokens.{tokenize}

abbrev pub is_some {ℓ} : {A : Type ℓ} → Option A → Bool
is_some none = false
is_some (some a) = true

abbrev pub unwrap_or {ℓ} : {A : Type ℓ} → A → Option A → A
unwrap_or d none = d
unwrap_or d (some a) = a

-- `if test { return Err(e) }`.
abbrev pub refuse : Bool → AppError → AppResult (Unit {0})
refuse true e = err e
refuse false e = ok tt

unfoldable pub not_allowed : Bytes → Bytes → AppError
unfolding usage
not_allowed opt mode =
    usage (opt ++ codes " is not allowed when running in " ++ mode ++ codes " mode")

unfoldable pub resolve_bind : Raw → AppResult Bind
unfolding usage
resolve_bind raw =
    if is_some raw.unixsocket && is_some raw.addr
    then err (usage (codes "-a and -u cannot be combined"))
    else if is_some raw.unixsocket
    then (if is_some raw.port
        then err (usage (codes "-p is only allowed together with -a"))
        else ok (unix (unwrap_or none raw.unixsocket)))
    else ok
        (tcp (unwrap_or default_addr (unwrap_or none raw.addr)) (unwrap_or default_port raw.port))

-- What `build_server` refuses of the client's options.
unfoldable pub server_options : Raw → AppResult (Unit {0})
unfolding not_allowed
server_options raw = do
  refuse (is_some raw.arginput) (not_allowed (codes "--arginput") (codes "server"))
  refuse (is_some raw.fileinput) (not_allowed (codes "--fileinput") (codes "server"))
  refuse (is_some raw.suffix) (not_allowed (codes "--suffix") (codes "server"))
  refuse (is_some raw.ctl) (not_allowed (codes "--ctl") (codes "server"))
  refuse (is_some raw.kill) (not_allowed (codes "--kill") (codes "server"))
  refuse (is_some raw.timeout) (not_allowed (codes "--timeout") (codes "server"))

unfoldable pub pidfile_spec : Option (Option Bytes) → Option PidfileSpec
pidfile_spec none = none
pidfile_spec (some none) = some PidfileSpec.default
pidfile_spec (some (some p)) = some (PidfileSpec.path p)

-- `raw.exec.filter(|v| !v.is_empty())`.
unfoldable pub command_of : Option (List Bytes) → AppResult (List Bytes)
unfolding usage
command_of (some (a ∷ argv)) = ok (a ∷ argv)
command_of _ = err (usage (codes "no REPL command given; use -e or -- followed by the command"))

abbrev pub has_ready_marker : Raw → Bool
has_ready_marker raw =
    not (is_nil (unwrap_or [] raw.ready_marker_stdout))
    || not (is_nil (unwrap_or [] raw.ready_marker_stderr))

abbrev pub has_warmup_marker : Raw → Bool
has_warmup_marker raw =
    not (is_nil (unwrap_or [] raw.warmup_marker_stdout))
    || not (is_nil (unwrap_or [] raw.warmup_marker_stderr))

-- The checks on readiness and warmup.
unfoldable pub phase_options : Raw → AppResult (Unit {0})
unfolding usage
phase_options raw = do
  refuse (has_ready_marker raw && is_some raw.ready_wait) (
      usage (
        codes
          "--ready-wait cannot be combined with --ready-marker-stdout or --ready-marker-stderr"))
  refuse (is_some raw.ready_marker_timeout && not (has_ready_marker raw)) (
      usage
        (codes "--ready-marker-timeout requires --ready-marker-stdout or --ready-marker-stderr"))
  let warms = not (is_nil (unwrap_or [] raw.warmup))
  let has_end = has_warmup_marker raw || is_some raw.warmup_wait
  refuse (warms && not has_end) (
      usage (
        codes
          "--warmup-input requires a way to detect its end (--warmup-marker-stdout/--warmup-marker-stderr or --warmup-wait)"))
  refuse (not warms && has_end)
      (usage (codes "--warmup-marker-* / --warmup-wait require --warmup-input"))
  refuse (is_some raw.warmup_marker_timeout && not (has_warmup_marker raw)) (
      usage
        (codes "--warmup-marker-timeout requires --warmup-marker-stdout or --warmup-marker-stderr"))

unfoldable pub server_config : Raw → Bind → List Bytes → ServerConfig
unfolding pidfile_spec
server_config raw bind repl_argv = record {
  repl_argv = repl_argv;
  restart = raw.restart;
  bind = bind;
  pidfile = pidfile_spec raw.pidfile;
  raw = raw.raw;
  end_marker_stdout = unwrap_or default_end_marker_stdout raw.end_marker_stdout;
  end_marker_stderr = unwrap_or [] raw.end_marker_stderr;
  error_marker_stdout = unwrap_or [] raw.error_marker_stdout;
  error_marker_stderr = unwrap_or default_error_marker_stderr raw.error_marker_stderr;
  strip_marker_stdout = raw.strip_marker_stdout;
  strip_marker_stderr = raw.strip_marker_stderr;
  ready_marker_stdout = unwrap_or [] raw.ready_marker_stdout;
  ready_marker_stderr = unwrap_or [] raw.ready_marker_stderr;
  ready_wait = raw.ready_wait;
  ready_marker_timeout = raw.ready_marker_timeout;
  warmup = unwrap_or [] raw.warmup;
  warmup_marker_stdout = unwrap_or [] raw.warmup_marker_stdout;
  warmup_marker_stderr = unwrap_or [] raw.warmup_marker_stderr;
  warmup_wait = raw.warmup_wait;
  warmup_marker_timeout = raw.warmup_marker_timeout;
  response_timeout = raw.response_timeout;
}

unfoldable pub build_server : Raw → AppResult ServerConfig
unfolding server_options resolve_bind command_of phase_options server_config
build_server raw = do
  server_options raw
  bind ← resolve_bind raw
  repl_argv ← command_of raw.exec
  phase_options raw
  ok (server_config raw bind repl_argv)

unfoldable pub client_options : Raw → AppResult (Unit {0})
unfolding not_allowed
client_options raw = do
  refuse (is_some raw.exec) (not_allowed (codes "--exec") (codes "client"))
  refuse raw.restart (not_allowed (codes "--restart") (codes "client"))
  refuse (is_some raw.response_timeout) (not_allowed (codes "--response-timeout") (codes "client"))
  refuse (is_some raw.ready_marker_stdout)
      (not_allowed (codes "--ready-marker-stdout") (codes "client"))
  refuse (is_some raw.ready_marker_stderr)
      (not_allowed (codes "--ready-marker-stderr") (codes "client"))
  refuse (is_some raw.ready_wait) (not_allowed (codes "--ready-wait") (codes "client"))
  refuse (is_some raw.ready_marker_timeout)
      (not_allowed (codes "--ready-marker-timeout") (codes "client"))
  refuse (is_some raw.warmup) (not_allowed (codes "--warmup-input") (codes "client"))
  refuse (is_some raw.warmup_marker_stdout)
      (not_allowed (codes "--warmup-marker-stdout") (codes "client"))
  refuse (is_some raw.warmup_marker_stderr)
      (not_allowed (codes "--warmup-marker-stderr") (codes "client"))
  refuse (is_some raw.warmup_wait) (not_allowed (codes "--warmup-wait") (codes "client"))
  refuse (is_some raw.warmup_marker_timeout)
      (not_allowed (codes "--warmup-marker-timeout") (codes "client"))
  refuse (is_some raw.pidfile) (not_allowed (codes "--pidfile") (codes "client"))
  refuse (is_some raw.kill) (not_allowed (codes "--kill") (codes "client"))

unfoldable pub ctl_route : Option Bytes → AppResult CtlRoute
unfolding usage
ctl_route none = ok ignore
ctl_route (some mode) =
    if bytes_eq mode (codes "ignore")
    then ok ignore
    else if bytes_eq mode (codes "stdout")
    then ok stdout
    else if bytes_eq mode (codes "stderr")
    then ok stderr
    else err (
        usage
          (codes "invalid --ctl mode '" ++ mode ++ codes "'; expected ignore, stdout, or stderr"))

unfoldable pub file_input : Bytes → FileInput
file_input p = if bytes_eq p (codes "-") then FileInput.stdin else FileInput.path p

unfoldable pub client_config : Raw → Bind → CtlRoute → ClientConfig
unfolding file_input
client_config raw bind ctl = record {
  bind = bind;
  arginput = raw.arginput;
  fileinput = Option.map file_input raw.fileinput;
  suffix = unwrap_or [] raw.suffix;
  end_marker_stdout = unwrap_or default_end_marker_stdout raw.end_marker_stdout;
  end_marker_stderr = unwrap_or [] raw.end_marker_stderr;
  error_marker_stdout = unwrap_or [] raw.error_marker_stdout;
  error_marker_stderr = unwrap_or default_error_marker_stderr raw.error_marker_stderr;
  strip_marker_stdout = raw.strip_marker_stdout;
  strip_marker_stderr = raw.strip_marker_stderr;
  ctl = ctl;
  raw = raw.raw;
  timeout = raw.timeout;
}

unfoldable pub build_client : Raw → AppResult ClientConfig
unfolding client_options resolve_bind ctl_route client_config
build_client raw = do
  client_options raw
  bind ← resolve_bind raw
  ctl ← ctl_route raw.ctl
  ok (client_config raw bind ctl)

-- The table `forbidden` of `build_general`.
unfoldable pub forbidden : Raw → List (Bool × Bytes)
forbidden raw =
    (is_some raw.addr, codes "-a")
    ∷ (is_some raw.port, codes "-p")
    ∷ (is_some raw.unixsocket, codes "-u")
    ∷ (is_some raw.exec, codes "-e")
    ∷ (raw.restart, codes "--restart")
    ∷ (raw.raw, codes "--raw")
    ∷ (is_some raw.pidfile, codes "--pidfile")
    ∷ (is_some raw.arginput, codes "--arginput")
    ∷ (is_some raw.fileinput, codes "--fileinput")
    ∷ (is_some raw.suffix, codes "--suffix")
    ∷ (is_some raw.end_marker_stdout, codes "--end-marker-stdout")
    ∷ (is_some raw.end_marker_stderr, codes "--end-marker-stderr")
    ∷ (is_some raw.error_marker_stdout, codes "--error-marker-stdout")
    ∷ (is_some raw.error_marker_stderr, codes "--error-marker-stderr")
    ∷ (is_some raw.ready_marker_stdout, codes "--ready-marker-stdout")
    ∷ (is_some raw.ready_marker_stderr, codes "--ready-marker-stderr")
    ∷ (is_some raw.ready_wait, codes "--ready-wait")
    ∷ (is_some raw.ready_marker_timeout, codes "--ready-marker-timeout")
    ∷ (is_some raw.warmup, codes "--warmup-input")
    ∷ (is_some raw.warmup_marker_stdout, codes "--warmup-marker-stdout")
    ∷ (is_some raw.warmup_marker_stderr, codes "--warmup-marker-stderr")
    ∷ (is_some raw.warmup_wait, codes "--warmup-wait")
    ∷ (is_some raw.warmup_marker_timeout, codes "--warmup-marker-timeout")
    ∷ (is_some raw.ctl, codes "--ctl")
    ∷ (is_some raw.timeout, codes "--timeout")
    ∷ (is_some raw.response_timeout, codes "--response-timeout")
    ∷ (raw.strip_marker_stdout, codes "--strip-marker-stdout")
    ∷ (raw.strip_marker_stderr, codes "--strip-marker-stderr")
    ∷ []

unfoldable pub refuse_any : List (Bool × Bytes) → AppResult (Unit {0})
unfolding usage
refuse_any [] = ok tt
refuse_any ((present, opt) ∷ rest) =
    if present
    then err (usage (opt ++ codes " is only valid in server or client mode"))
    else refuse_any rest

unfoldable pub kill_action : Option (Option Bytes) → AppResult GeneralAction
unfolding usage
kill_action none = err (usage (codes "no mode selected; use --server, --client, --kill, or --help"))
kill_action (some k) = ok (GeneralAction.kill k)

unfoldable pub build_general : Raw → AppResult GeneralAction
unfolding forbidden refuse_any kill_action
build_general raw = do refuse_any (forbidden raw); kill_action raw.kill

unfoldable pub build_config : Raw → AppResult Config
unfolding build_server build_client build_general usage
build_config raw =
    if raw.help
    then ok (general help)
    else if raw.version
    then ok (general version)
    else if raw.server && raw.client
    then err (usage (codes "-s and -c cannot be combined"))
    else if raw.server
    then (build_server raw >>= λ c. ok (server c))
    else if raw.client
    then (build_client raw >>= λ c. ok (client c))
    else (build_general raw >>= λ a. ok (general a))

-- The whole command line.
unfoldable pub parse : ParseSeconds → List Bytes → AppResult Config
unfolding tokenize build_config
parse seconds args = do raw ← tokenize seconds args; build_config raw
