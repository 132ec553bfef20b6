-- ===== src/Cli/Build/Valid.antt =====
-- Which configurations the command line can make.
use replstoke.Common.{
  ◌≡◌, ◌≢◌, refl, Bool, true, false, not, ◌||◌, ◌&&◌, List, [], ◌∷◌, Option, none, some, arith,
  Bytes, is_nil, ok, err, ◌>>=◌, ◌>>◌,
}
use mathlib.Core.Path.{subst}
use replstoke.Error.{AppError, AppResult}
use replstoke.Cli.Config.{Bind, ServerConfig}
use replstoke.Cli.Raw.{Raw}
use replstoke.Cli.Build.{
  is_some, unwrap_or, refuse, server_options, resolve_bind, command_of, phase_options,
  server_config, build_server, has_ready_marker, has_warmup_marker,
}

-- Some marker of the two streams is set.
abbrev pub has_marker : Bytes → Bytes → Bool
has_marker a b = not (is_nil a) || not (is_nil b)

-- What the server relies on.
pub record IsValid (c : ServerConfig) : Type 0 where
  pub command : c.repl_argv ≢ []
  pub one_readiness :
      is_some c.ready_wait ≡ true → has_marker c.ready_marker_stdout c.ready_marker_stderr ≡ false
  pub ready_bound :
      is_some c.ready_marker_timeout ≡ true
      → has_marker c.ready_marker_stdout c.ready_marker_stderr ≡ true
  pub warmup_ends :
      is_nil c.warmup ≡ false
      → (has_marker c.warmup_marker_stdout c.warmup_marker_stderr || is_some c.warmup_wait) ≡ true
  pub warmup_needed :
      is_nil c.warmup ≡ true
      → (has_marker c.warmup_marker_stdout c.warmup_marker_stderr || is_some c.warmup_wait) ≡ false
  pub warmup_bound :
      is_some c.warmup_marker_timeout ≡ true
      → has_marker c.warmup_marker_stdout c.warmup_marker_stderr ≡ true

bind_ok :
    {A B : Type 0} (m : AppResult A) (f : A → AppResult B) {b : B}
    → (m >>= f) ≡ ok b
    → (a : A) × (m ≡ ok a) × (f a ≡ ok b)
bind_ok (ok a) f h = (a, refl, h)
bind_ok (err e) f h = cc

command_nonempty :
    (e : Option (List Bytes)) (argv : List Bytes) → command_of e ≡ ok argv → argv ≢ []
unfolding command_of
command_nonempty none argv h = cc
command_nonempty (some []) argv h = cc
command_nonempty (some (a ∷ as')) argv h = ground arith

refuse_ok :
    {B : Type 0} (b : Bool) (e : AppError) (m : AppResult B) {r : B}
    → (refuse b e >> m) ≡ ok r
    → (b ≡ false) × (m ≡ ok r)
refuse_ok true e m h = cc
refuse_ok false e m h = (refl, h)

refuse-false : (b : Bool) (e : AppError) {r : Unit {0}} → refuse b e ≡ ok r → b ≡ false
refuse-false true e h = cc
refuse-false false e h = refl

-- The checks of `phase_options`, each of which must be false.
excludes : (a b : Bool) → (a && b) ≡ false → b ≡ true → a ≡ false
excludes a b h k = ground arith

requires : (a b : Bool) → (a && not b) ≡ false → a ≡ true → b ≡ true
requires a b h k = ground arith

requires_not : (a b : Bool) → (not a && not b) ≡ false → a ≡ false → b ≡ true
requires_not a b h k = ground arith

excludes_not : (a b : Bool) → (not (not a) && b) ≡ false → a ≡ true → b ≡ false
excludes_not a b h k = ground arith

phase-IsValid :
    (raw : Raw) (bind : Bind) (argv : List Bytes)
    → argv ≢ []
    → phase_options raw ≡ ok tt
    → IsValid (server_config raw bind argv)
unfolding phase_options server_config
phase-IsValid raw bind argv nonempty h =
    let (one, h1) = refuse_ok (has_ready_marker raw && is_some raw.ready_wait) _ _ h in
    let (bound, h2) =
      refuse_ok (is_some raw.ready_marker_timeout && not (has_ready_marker raw)) _ _ h1 in
    let warm = is_nil (unwrap_or [] raw.warmup) in
    let over = has_warmup_marker raw || is_some raw.warmup_wait in
    let (ends, h3) = refuse_ok (not warm && not over) _ _ h2 in
    let (needed, h4) = refuse_ok (not (not warm) && over) _ _ h3 in
    let last =
      refuse-false (is_some raw.warmup_marker_timeout && not (has_warmup_marker raw)) _ h4 in
    record {
      command = nonempty;
      one_readiness = excludes (has_ready_marker raw) (is_some raw.ready_wait) one;
      ready_bound = requires (is_some raw.ready_marker_timeout) (has_ready_marker raw) bound;
      warmup_ends = requires_not warm over ends;
      warmup_needed = excludes_not warm over needed;
      warmup_bound = requires (is_some raw.warmup_marker_timeout) (has_warmup_marker raw) last;
    }

-- A command line that is accepted for a server gives a configuration that names a command, has at most
-- one readiness mechanism, ends its warmup exactly if it has one, and bounds a wait for a marker only
-- where there is a marker.
pub build_server-IsValid : (raw : Raw) {c : ServerConfig} → build_server raw ≡ ok c → IsValid c
unfolding build_server
build_server-IsValid raw {c} h =
    let (u, options, h1) = bind_ok (server_options raw) _ h in
    let (bind, bound, h2) = bind_ok (resolve_bind raw) _ h1 in
    let (argv, command, h3) = bind_ok (command_of raw.exec) _ h2 in
    let (v, phases, h4) = bind_ok (phase_options raw) _ h3 in
    let valid = phase-IsValid raw bind argv (command_nonempty raw.exec argv command) phases in
    subst IsValid (cc (h4)) valid
