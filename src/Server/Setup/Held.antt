-- ===== src/Server/Setup/Held.antt =====
-- What `run` of src/server.rs holds when it returns.
use replstoke.Common.{
  ℕ, ◌≡◌, ◌∙◌, refl, Bool, true, false, ◌&&◌, ◌||◌, not, List, [], ◌∷◌, ◌++◌, append_assoc, Option,
  none, some, if◌then◌else◌, Bytes, bytes_eq, bytes_eq_refl, ok, err, arith,
}
use replstoke.Error.{AppError, AppResult}
use replstoke.Cli.Config.{Bind, tcp, unix, PidfileSpec, ServerConfig}
use replstoke.Names.{default_socket_path}
use replstoke.Server.Setup.{
  Call, spawned, bound, written, terminated, removed, Outcomes, Ready, is_set, path_or,
  resolve_bind, pidfile_path, after_bind, on_bind, on_spawn, after_spawn, set_up, finish, run,
  cleanup, before, remove_stale_socket,
}

pub data Resource : Type 0 where
  repl : Resource
  file : (path : Bytes) → Resource

abbrev is_file : Bytes → Resource → Bool
is_file p repl = false
is_file p (file q) = bytes_eq p q

abbrev is_repl : Resource → Bool
is_repl repl = true
is_repl (file q) = false

abbrev without : (Resource → Bool) → List Resource → List Resource
without t [] = []
without t (r ∷ rs) = if t r then without t rs else r ∷ without t rs

-- What is held behind a call.
abbrev after : Call → List Resource → List Resource
after spawned rs = repl ∷ rs
after (bound (unix (some p))) rs = file p ∷ rs
after (bound (unix none)) rs = rs
after (bound (tcp addr port)) rs = rs
after (written p content) rs = file p ∷ rs
after terminated rs = without is_repl rs
after (removed p) rs = without (is_file p) rs

abbrev pub held : List Call → List Resource → List Resource
held [] rs = rs
held (c ∷ cs) rs = held cs (after c rs)

-- The REPL and the socket are there, and then a call fails.
abbrev pub fails_late : Outcomes → ServerConfig → Bool
fails_late oc cfg =
    not (is_set oc.spawn_error)
    && (not (is_set oc.bind_error)
        && (is_set oc.nonblocking_error || (is_set cfg.pidfile && is_set oc.write_error)))

abbrev pub started : Bytes → ℕ → Bind → List Resource
started cmdname pid (tcp addr port) = repl ∷ []
started cmdname pid (unix path) = file (path_or (default_socket_path cmdname pid) path) ∷ repl ∷ []

held-append : (cs ds : List Call) (rs : List Resource) → held (cs ++ ds) rs ≡ held ds (held cs rs)
held-append [] ds rs = refl
held-append (c ∷ cs) ds rs = held-append cs ds (after c rs)

held-finish :
    (outcome : AppResult (Unit {0})) (cs : List Call) (x : List Call × AppResult Ready)
    (rs : List Resource)
    → held (finish outcome (before cs x)).0 rs ≡ held (finish outcome x).0 (held cs rs)
unfolding finish
held-finish outcome cs (ds, err e) rs = held-append cs ds rs
held-finish outcome cs (ds, ok r) rs =
    simp append_assoc (held-append cs (ds ++ cleanup r.created_socket r.pidfile) rs)

held-stale : (oc : Outcomes) (p : Bytes) → held (remove_stale_socket oc p) (repl ∷ []) ≡ repl ∷ []
unfolding remove_stale_socket
held-stale oc p = ground arith

-- The REPL, and the socket's file.
abbrev with_socket : Option Bytes → List Resource
with_socket none = repl ∷ []
with_socket (some p) = file p ∷ repl ∷ []

module _ (oc : Outcomes) (outcome : AppResult (Unit {0})) (cmdname : Bytes) (pid : ℕ) where
  abbrev fails_then : Option PidfileSpec → Bool
  fails_then spec = is_set oc.nonblocking_error || (is_set spec && is_set oc.write_error)

  after_bind-held :
      (spec : Option PidfileSpec) (bind : Bind) (created : Option Bytes)
      → held (finish outcome (after_bind oc spec cmdname pid bind created)).0 (with_socket created)
        ≡ (if fails_then spec then with_socket created else [])
  unfolding after_bind finish
  after_bind-held none bind none = ground arith
  after_bind-held none bind (some p) = ground (arith, bytes_eq_refl p)
  after_bind-held (some spec) bind none =
      ground (arith, bytes_eq_refl (pidfile_path spec cmdname pid))
  after_bind-held (some spec) bind (some p) =
      ground (arith, bytes_eq_refl p, bytes_eq_refl (pidfile_path spec cmdname pid))

  on_bind-held :
      (spec : Option PidfileSpec) (bind : Bind) (created : Option Bytes) (e : Option Bytes)
      → after (bound bind) (repl ∷ []) ≡ with_socket created
      → held (finish outcome (on_bind oc spec cmdname pid bind created e)).0 (repl ∷ [])
        ≡ (if not (is_set e) && fails_then spec then with_socket created else [])
  unfolding on_bind
  on_bind-held spec bind created none taken =
      held-finish outcome (bound bind ∷ []) (after_bind oc spec cmdname pid bind created)
        (repl ∷ [])
      ∙ rw taken (after_bind-held spec bind created)
  on_bind-held spec bind created (some e) taken = unfold finish in refl

  after_spawn-held :
      (spec : Option PidfileSpec) (calls : List Call) (bind : Bind) (created : Option Bytes)
      → held calls (repl ∷ []) ≡ repl ∷ []
      → after (bound bind) (repl ∷ []) ≡ with_socket created
      → held (finish outcome (after_spawn oc spec cmdname pid (calls, bind, created))).0 (repl ∷ [])
        ≡ (if not (is_set oc.bind_error) && fails_then spec then with_socket created else [])
  unfolding after_spawn
  after_spawn-held spec calls bind created stale taken =
      held-finish outcome calls (on_bind oc spec cmdname pid bind created oc.bind_error) (repl ∷ [])
      ∙ rw stale (on_bind-held spec bind created oc.bind_error taken)

  bind-held :
      (spec : Option PidfileSpec) (bind : Bind)
      → held
          (finish outcome (after_spawn oc spec cmdname pid (resolve_bind oc cmdname pid bind))).0
          (repl ∷ [])
        ≡ (if not (is_set oc.bind_error) && fails_then spec then started cmdname pid bind else [])
  unfolding resolve_bind
  bind-held spec (tcp addr port) = after_spawn-held spec [] (tcp addr port) none refl refl
  bind-held spec (unix path) =
      let p = path_or (default_socket_path cmdname pid) path in
      after_spawn-held spec (remove_stale_socket oc p) (unix (some p)) (some p) (held-stale oc p)
        refl

  on_spawn-held :
      (cfg : ServerConfig) (e : Option AppError)
      → held (finish outcome (on_spawn oc cfg cmdname pid e)).0 [] ≡ (
          if not (is_set e) && (not (is_set oc.bind_error) && fails_then cfg.pidfile)
          then started cmdname pid cfg.bind
          else [])
  unfolding on_spawn
  on_spawn-held cfg (some e) = unfold finish in refl
  on_spawn-held cfg none =
      let x = after_spawn oc cfg.pidfile cmdname pid (resolve_bind oc cmdname pid cfg.bind) in
      held-finish outcome (spawned ∷ []) x [] ∙ bind-held cfg.pidfile cfg.bind

-- What run still holds when it returns, by the calls it makes to take and give back: nothing, whether
-- it fails to start or ends its loop; except when the listener cannot be made non-blocking or the
-- pidfile cannot be written, and then the REPL is not terminated and a unix socket's file is left
-- behind.
pub run-held :
    (oc : Outcomes) (outcome : AppResult (Unit {0})) (cfg : ServerConfig) (cmdname : Bytes)
    (pid : ℕ)
    → held (run oc outcome cfg cmdname pid).0 []
      ≡ (if fails_late oc cfg then started cmdname pid cfg.bind else [])
unfolding run set_up
run-held oc outcome cfg cmdname pid = on_spawn-held oc outcome cmdname pid cfg oc.spawn_error
