-- ===== src/Cli/Tokens.antt =====
-- `tokenize` and `unexpected_argument` of src/cli/mod.rs.
use replstoke.Common.{
  ℕ, zero, suc, ◌≡◌, refl, List, [], ◌∷◌, ◌++◌, Option, none, some, if◌then◌else◌, Bytes, codes,
  bytes_eq, is_nil, ◌==◌, ◌||◌, ok, err, length,
}
use replstoke.Strings.Utf8.{from_utf8_lossy}
use replstoke.Strings.Split.{split_once}
use replstoke.Error.{AppError, AppResult, usage}
use replstoke.Cli.Raw.{Raw, blank, Step, ParseSeconds, handle_long, handle_short}

-- The letter and the long name of an optional-value option spelled bare.
unfoldable pub bare_option : Bytes → Option (Bytes × Bytes)
bare_option tok =
    if bytes_eq tok (codes "-a") || bytes_eq tok (codes "--addr")
    then some (codes "a", codes "addr")
    else if bytes_eq tok (codes "-u") || bytes_eq tok (codes "--unixsocket")
    then some (codes "u", codes "unixsocket")
    else if bytes_eq tok (codes "-d") || bytes_eq tok (codes "--pidfile")
    then some (codes "d", codes "pidfile")
    else if bytes_eq tok (codes "-k") || bytes_eq tok (codes "--kill")
    then some (codes "k", codes "kill")
    else none

abbrev hint : Bytes → Option (Bytes × Bytes) → AppError
hint arg none = usage (codes "unexpected argument '" ++ arg ++ codes "'")
hint arg (some (short, long)) = usage (
    codes "unexpected argument '"
    ++ arg
    ++ codes "'; did you mean -"
    ++ short
    ++ arg
    ++ codes " or --"
    ++ long
    ++ codes "="
    ++ arg
    ++ codes "? optional-value options take their value attached, not as a separate argument")

unfoldable pub unexpected_argument : Bytes → Option Bytes → AppError
unfolding usage bare_option
unexpected_argument arg none = hint arg none
unexpected_argument arg (some prev) = hint arg (bare_option prev)

-- A token by its form: `--`, `--body`, `-chars`, or a stray argument.
pub data Form : Type 0 where
  rest : Form
  long : (body : Bytes) → Form
  short : (chars : Bytes) → Form
  stray : Form

unfoldable pub form_of : Bytes → Form
form_of [] = stray
form_of (c ∷ []) = stray
form_of (c ∷ d ∷ cs) =
    if c == b'-'
    then (if d == b'-' then (if is_nil cs then rest else long cs) else short (d ∷ cs))
    else stray

-- `--name=value` or `--name`.
unfoldable pub take_long : ParseSeconds → Raw → Bytes → List Bytes → AppResult Step
take_long seconds raw body args = elim (split_once b'=' body) [
  | none ↦ handle_long seconds raw (from_utf8_lossy body) none args
  | some (name, value) ↦ handle_long seconds raw (from_utf8_lossy name) (some value) args
]

-- `args[i - 1]` at the next token: an option takes at most one argument behind it.
abbrev pub before_next : Bytes → List Bytes → List Bytes → Bytes
before_next tok [] later = tok
before_next tok (a ∷ args) later = if length later == length (a ∷ args) then tok else a

-- The loop of `tokenize`. A round takes at least one argument, so their number is enough fuel.
unfoldable pub tokens_loop : ℕ → ParseSeconds → Raw → Option Bytes → List Bytes → AppResult Raw
unfolding take_long form_of unexpected_argument
tokens_loop fuel seconds raw prev [] = ok raw
tokens_loop zero seconds raw prev (tok ∷ args) = ok raw
tokens_loop (suc fuel) seconds raw prev (tok ∷ args) = elim (form_of tok) [
  | rest ↦ ok (record raw { exec = some args })
  | long body ↦ elim (take_long seconds raw body args) [
    | err e ↦ err e
    | ok step ↦
        let next = tokens_loop fuel seconds step.0 (some (before_next tok args step.1)) step.1 in
        if step.2 then ok step.0 else next
  ]
  | short chars ↦ elim (handle_short raw chars args) [
    | err e ↦ err e
    | ok step ↦
        let next = tokens_loop fuel seconds step.0 (some (before_next tok args step.1)) step.1 in
        if step.2 then ok step.0 else next
  ]
  | stray ↦ err (unexpected_argument (from_utf8_lossy tok) prev)
]

unfoldable pub tokenize : ParseSeconds → List Bytes → AppResult Raw
unfolding tokens_loop
tokenize seconds args = tokens_loop (length args) seconds blank none args

-- Whatever the REPL's command line holds, it is taken verbatim, and the three ways to begin it agree.
pub exec_verbatim :
    (seconds : ParseSeconds) (argv : List Bytes)
    → (tokenize seconds (codes "--" ∷ argv) ≡ ok (record blank { exec = some argv }))
      × (tokenize seconds (codes "-e" ∷ argv) ≡ ok (record blank { exec = some argv }))
      × (tokenize seconds (codes "--exec" ∷ argv) ≡ ok (record blank { exec = some argv }))
unfolding tokenize handle_long handle_short split_once from_utf8_lossy
exec_verbatim seconds argv = (refl, refl, refl)
