-- ===== src/Names.antt =====
-- src/names.rs: the default file names and the discovery of one of them in a directory. What
-- `std::fs::read_dir` lists is a parameter: the names in it, or its error's text. The name of the REPL's
-- executable, which `cmdname` takes from its path, is one too.
pub mod Discovery
use replstoke.Common.{
  ℕ, ◌-◌, ◌≡◌, refl, Bool, true, false, ◌&&◌, List, [], ◌∷◌, ◌++◌, leb, if◌then◌else◌, Bytes, codes,
  bytes_eq, Result, ok, err, length, take, drop,
}
use replstoke.Strings.Utf8.{from_utf8_lossy}
use replstoke.Strings.Decimal.{format_uint}
use replstoke.Error.{AppResult, failure}
use replstoke.Cli.Config.{name_prefix, socket_suffix, pidfile_suffix}

abbrev pub here : Bytes
here = codes "./"

-- The name behind `./`.
unfoldable pub file_name : Bytes → ℕ → Bytes → Bytes
file_name cmdname pid suffix =
    name_prefix ++ (format_uint pid ++ (codes "_" ++ (cmdname ++ suffix)))

unfoldable pub default_socket_path : Bytes → ℕ → Bytes
unfolding file_name
default_socket_path cmdname pid = here ++ file_name cmdname pid socket_suffix

unfoldable pub default_pidfile_path : Bytes → ℕ → Bytes
unfolding file_name
default_pidfile_path cmdname pid = here ++ file_name cmdname pid pidfile_suffix

unfoldable pub starts_with : Bytes → Bytes → Bool
starts_with prefix name = bytes_eq (take (length prefix) name) prefix

unfoldable pub ends_with : Bytes → Bytes → Bool
ends_with suffix name =
    leb (length suffix) (length name) && bytes_eq (drop (length name - length suffix) name) suffix

-- The test of the loop.
unfoldable pub is_match : Bytes → Bytes → Bytes → Bool
unfolding starts_with ends_with
is_match prefix suffix entry =
    starts_with prefix (from_utf8_lossy entry) && ends_with suffix (from_utf8_lossy entry)

-- `entry.path()` in the directory `.`.
unfoldable pub collect : Bytes → Bytes → List Bytes → List Bytes
unfolding is_match
collect prefix suffix [] = []
collect prefix suffix (e ∷ es) =
    let rest = collect prefix suffix es in
    if is_match prefix suffix e then (here ++ e) ∷ rest else rest

unfoldable pub pick_one : Bytes → Bytes → Bytes → List Bytes → AppResult Bytes
unfolding failure format_uint
pick_one prefix suffix kind [] =
    err
      (failure (codes "no " ++ kind ++ codes " found matching ./" ++ prefix ++ codes "*" ++ suffix))
pick_one prefix suffix kind (p ∷ []) = ok p
pick_one prefix suffix kind (p ∷ q ∷ ps) = err (
    failure (
      codes "found "
      ++ format_uint (length (p ∷ q ∷ ps))
      ++ codes " "
      ++ kind
      ++ codes " matching ./"
      ++ prefix
      ++ codes "*"
      ++ suffix
      ++ codes "; specify one explicitly"))

-- In the directory `.`, by what its listing returns.
unfoldable pub discover_one_in : Result Bytes (List Bytes) → Bytes → Bytes → Bytes → AppResult Bytes
unfolding pick_one failure collect
discover_one_in (err e) prefix suffix kind =
    err (failure (codes "cannot read directory '.': " ++ e))
discover_one_in (ok entries) prefix suffix kind =
    pick_one prefix suffix kind (collect prefix suffix entries)

unfoldable pub discover_socket : Result Bytes (List Bytes) → AppResult Bytes
unfolding discover_one_in
discover_socket listing = discover_one_in listing name_prefix socket_suffix (codes "socket")

unfoldable pub discover_pidfile : Result Bytes (List Bytes) → AppResult Bytes
unfolding discover_one_in
discover_pidfile listing = discover_one_in listing name_prefix pidfile_suffix (codes "pidfile")
