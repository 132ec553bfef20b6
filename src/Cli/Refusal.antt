-- ===== src/Cli/Refusal.antt =====
-- How a command line is refused: src/cli/mod.rs.
use replstoke.Common.{
  ℕ, zero, suc, ◌≡◌, refl, Bool, true, false, List, [], ◌∷◌, Option, none, some, if◌then◌else◌,
  Bytes, ok, err, arith, ◌>>=◌, length, ◌&&◌,
}
use replstoke.Strings.Utf8.{from_utf8_lossy}
use replstoke.Strings.Split.{split_once}
use replstoke.Error.{AppResult, exit_usage}
use replstoke.Cli.Config.{server, client, general}
use replstoke.Cli.Raw.{
  Raw, blank, Step, ParseSeconds, parse_port, parse_timeout, no_value, required, long_required2,
  long_required, handle_long, take_required, short_value, handle_short,
}
use replstoke.Cli.Tokens.{
  Form, rest, long, short, stray, before_next, tokens_loop, tokenize, take_long,
  unexpected_argument, form_of,
}
use replstoke.Cli.Build.{
  resolve_bind, server_options, command_of, phase_options, build_server, client_options, ctl_route,
  build_client, refuse_any, kill_action, forbidden, build_general, build_config, parse,
}

-- A result, or an error of usage.
abbrev pub IsUsage : {A : Type 0} → AppResult A → Type 0
IsUsage (ok a) = Unit
IsUsage (err e) = e.code ≡ exit_usage

bind-IsUsage :
    {A : Type 0} {B : Type 0} (m : AppResult A) (f : A → AppResult B)
    → IsUsage m
    → ((a : A) → IsUsage (f a))
    → IsUsage (m >>= f)
bind-IsUsage (ok a) f h k = k a
bind-IsUsage (err e) f h k = h

if-IsUsage :
    {A : Type 0} (b : Bool) (x y : AppResult A)
    → IsUsage x
    → IsUsage y
    → IsUsage (if b then x else y)
if-IsUsage true x y h k = h
if-IsUsage false x y h k = k

server_options-IsUsage : (raw : Raw) → IsUsage (server_options raw)
unfolding server_options
server_options-IsUsage raw = ground arith

client_options-IsUsage : (raw : Raw) → IsUsage (client_options raw)
unfolding client_options
client_options-IsUsage raw = ground arith

phase_options-IsUsage : (raw : Raw) → IsUsage (phase_options raw)
unfolding phase_options
phase_options-IsUsage raw = ground arith

resolve_bind-IsUsage : (raw : Raw) → IsUsage (resolve_bind raw)
unfolding resolve_bind
resolve_bind-IsUsage raw = ground arith

command_of-IsUsage : (argv : Option (List Bytes)) → IsUsage (command_of argv)
unfolding command_of
command_of-IsUsage argv = ground arith

ctl_route-IsUsage : (mode : Option Bytes) → IsUsage (ctl_route mode)
unfolding ctl_route
ctl_route-IsUsage mode = ground arith

refuse_any-IsUsage : (l : List (Bool × Bytes)) → IsUsage (refuse_any l)
unfolding refuse_any
refuse_any-IsUsage [] = tt
refuse_any-IsUsage ((true, opt) ∷ l) = refl
refuse_any-IsUsage ((false, opt) ∷ l) = refuse_any-IsUsage l

kill_action-IsUsage : (k : Option (Option Bytes)) → IsUsage (kill_action k)
unfolding kill_action
kill_action-IsUsage none = refl
kill_action-IsUsage (some k) = tt

required-IsUsage :
    (name : Bytes) (v : Option Bytes) (args : List Bytes) → IsUsage (required name v args)
unfolding required
required-IsUsage name v args = ground arith

take_required-IsUsage : (c : ℕ) (s : Bytes) (args : List Bytes) → IsUsage (take_required c s args)
unfolding take_required
take_required-IsUsage c s args = ground arith

parse_port-IsUsage : (s : Bytes) → IsUsage (parse_port s)
unfolding parse_port
parse_port-IsUsage s = ground arith

parse_timeout-IsUsage : (seconds : ParseSeconds) (s : Bytes) → IsUsage (parse_timeout seconds s)
unfolding parse_timeout
parse_timeout-IsUsage seconds s = ground arith

no_value-IsUsage : (name : Bytes) (v : Option Bytes) → IsUsage (no_value name v)
unfolding no_value
no_value-IsUsage name none = tt
no_value-IsUsage name (some v) = refl

long_required2-IsUsage :
    (seconds : ParseSeconds) (raw : Raw) (name : Bytes) (v : Option Bytes) (args : List Bytes)
    → IsUsage (long_required2 seconds raw name v args)
unfolding long_required2
long_required2-IsUsage seconds raw name v args = ground arith

long_required-IsUsage :
    (seconds : ParseSeconds) (raw : Raw) (name : Bytes) (v : Option Bytes) (args : List Bytes)
    → IsUsage (long_required seconds raw name v args)
unfolding long_required
long_required-IsUsage seconds raw name v args =
    ground (arith, long_required2-IsUsage seconds raw name v args)

handle_long-IsUsage :
    (seconds : ParseSeconds) (raw : Raw) (name : Bytes) (v : Option Bytes) (args : List Bytes)
    → IsUsage (handle_long seconds raw name v args)
unfolding handle_long
handle_long-IsUsage seconds raw name v args =
    ground (arith, long_required-IsUsage seconds raw name v args)

short_value-IsUsage :
    (raw : Raw) (c : ℕ) (s : Bytes) (args : List Bytes) → IsUsage (short_value raw c s args)
unfolding short_value
short_value-IsUsage raw c s args = ground arith

handle_short-IsUsage :
    (raw : Raw) (s : Bytes) (args : List Bytes) → IsUsage (handle_short raw s args)
unfolding handle_short
handle_short-IsUsage raw [] args = tt
handle_short-IsUsage raw (c ∷ s) args = ground (
  arith,
  handle_short-IsUsage (record raw { server = true }) s args,
  handle_short-IsUsage (record raw { client = true }) s args,
  handle_short-IsUsage (record raw { restart = true }) s args,
  handle_short-IsUsage (record raw { help = true }) s args,
  short_value-IsUsage raw c s args,
)

take_long-IsUsage :
    (seconds : ParseSeconds) (raw : Raw) (body : Bytes) (args : List Bytes)
    → IsUsage (take_long seconds raw body args)
unfolding take_long
take_long-IsUsage seconds raw body args =
    elim (split_once b'=' body)
      as (λ z. IsUsage {A = Step} (elim z [
        | none ↦ handle_long seconds raw (from_utf8_lossy body) none args
        | some (name, value) ↦ handle_long seconds raw (from_utf8_lossy name) (some value) args
      ])) [
        | none ↦ handle_long-IsUsage seconds raw (from_utf8_lossy body) none args
        | some (name, value) ↦
            handle_long-IsUsage seconds raw (from_utf8_lossy name) (some value) args
      ]

unexpected_argument-usage :
    (arg : Bytes) (prev : Option Bytes) → (unexpected_argument arg prev).code ≡ exit_usage
unfolding unexpected_argument
unexpected_argument-usage arg prev = ground arith

-- What a round of the tokenizer makes of an option.
round-IsUsage :
    (m : AppResult Step) (next : Step → AppResult Raw)
    → IsUsage m
    → ((s : Step) → IsUsage (next s))
    → IsUsage {A = Raw} (elim m [ err e ↦ err e | ok s ↦ if s.2 then ok s.0 else next s ])
round-IsUsage (err e) next h k = h
round-IsUsage (ok (raw, args, true)) next h k = tt
round-IsUsage (ok (raw, args, false)) next h k = k (raw, args, false)

form-IsUsage :
    (f : Form) (r t : AppResult Raw) (l o : Bytes → AppResult Raw)
    → IsUsage r
    → ((b : Bytes) → IsUsage (l b))
    → ((b : Bytes) → IsUsage (o b))
    → IsUsage t
    → IsUsage {A = Raw}
        (elim f [ rest ↦ r | long body ↦ l body | short chars ↦ o chars | stray ↦ t ])
form-IsUsage rest r t l o hr hl ho ht = hr
form-IsUsage (long b) r t l o hr hl ho ht = hl b
form-IsUsage (short b) r t l o hr hl ho ht = ho b
form-IsUsage stray r t l o hr hl ho ht = ht

tokens_loop-IsUsage :
    (fuel : ℕ) (seconds : ParseSeconds) (raw : Raw) (prev : Option Bytes) (args : List Bytes)
    → IsUsage (tokens_loop fuel seconds raw prev args)
unfolding tokens_loop
tokens_loop-IsUsage fuel seconds raw prev [] = tt
tokens_loop-IsUsage zero seconds raw prev (tok ∷ args) = tt
tokens_loop-IsUsage (suc fuel) seconds raw prev (tok ∷ args) =
    let next = λ (s : Step). tokens_loop fuel seconds s.0 (some (before_next tok args s.1)) s.1 in
    let go_on =
      λ (s : Step). tokens_loop-IsUsage fuel seconds s.0 (some (before_next tok args s.1)) s.1 in
    form-IsUsage (form_of tok) _ _ _ _ tt
      (λ b.
        round-IsUsage (take_long seconds raw b args) next (take_long-IsUsage seconds raw b args)
          go_on)
      (λ b. round-IsUsage (handle_short raw b args) next (handle_short-IsUsage raw b args) go_on)
      (unexpected_argument-usage (from_utf8_lossy tok) prev)

build_server-IsUsage : (raw : Raw) → IsUsage (build_server raw)
unfolding build_server
build_server-IsUsage raw = bind-IsUsage (server_options raw) _ (server_options-IsUsage raw) (λ u.
    bind-IsUsage (resolve_bind raw) _ (resolve_bind-IsUsage raw) (λ b.
      bind-IsUsage (command_of raw.exec) _ (command_of-IsUsage raw.exec)
        (λ argv. bind-IsUsage (phase_options raw) _ (phase_options-IsUsage raw) (λ v. tt))))

build_client-IsUsage : (raw : Raw) → IsUsage (build_client raw)
unfolding build_client
build_client-IsUsage raw = bind-IsUsage (client_options raw) _ (client_options-IsUsage raw) (λ u.
    bind-IsUsage (resolve_bind raw) _ (resolve_bind-IsUsage raw)
      (λ b. bind-IsUsage (ctl_route raw.ctl) _ (ctl_route-IsUsage raw.ctl) (λ r. tt)))

build_config-IsUsage : (raw : Raw) → IsUsage (build_config raw)
unfolding build_config build_general
build_config-IsUsage raw =
    let s =
      bind-IsUsage (build_server raw) (λ c. ok (server c)) (build_server-IsUsage raw) (λ c. tt) in
    let c =
      bind-IsUsage (build_client raw) (λ c. ok (client c)) (build_client-IsUsage raw) (λ c. tt) in
    let g =
      bind-IsUsage (refuse_any (forbidden raw)) (λ u. kill_action raw.kill)
        (refuse_any-IsUsage (forbidden raw)) (λ u. kill_action-IsUsage raw.kill) in
    let a = bind-IsUsage (build_general raw) (λ a. ok (general a)) g (λ a. tt) in
    if-IsUsage raw.help _ _ tt (
      if-IsUsage raw.version _ _ tt (
        if-IsUsage (raw.server && raw.client) _ _ refl
          (if-IsUsage raw.server _ _ s (if-IsUsage raw.client _ _ c a))))

pub parse-IsUsage : (seconds : ParseSeconds) (args : List Bytes) → IsUsage (parse seconds args)
unfolding parse tokenize
parse-IsUsage seconds args =
    bind-IsUsage (tokenize seconds args) build_config
      (tokens_loop-IsUsage (length args) seconds blank none args) build_config-IsUsage
