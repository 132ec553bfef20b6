-- ===== src/Tests/Directories.antt =====
-- Discovery in a directory at concrete inputs: src/names.rs.
use replstoke.Common.{◌≡◌, refl, false, Bytes, [], ◌∷◌, ◌++◌, arith, codes, ok}
use replstoke.Strings.Utf8.{from_utf8_lossy}
use replstoke.Cli.Config.{name_prefix, socket_suffix, pidfile_suffix}
use replstoke.Names.{file_name, default_socket_path, is_match, discover_socket}
use replstoke.Names.Discovery.{discover_socket-default_socket_path}

abbrev readme : Bytes
readme = codes "README.md"

no_socket : is_match name_prefix socket_suffix readme ≡ false
unfolding is_match from_utf8_lossy
no_socket = refl

no_pidfile : is_match name_prefix pidfile_suffix readme ≡ false
unfolding is_match from_utf8_lossy
no_pidfile = refl

discover_socket-default_socket_path_example :
    discover_socket (ok ((readme ∷ []) ++ file_name (codes "python3") 42 socket_suffix ∷ []))
    ≡ ok (default_socket_path (codes "python3") 42)
discover_socket-default_socket_path_example =
    discover_socket-default_socket_path (codes "python3") 42 (readme ∷ []) [] (omega arith)
      (no_socket, tt) tt
