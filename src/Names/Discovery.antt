-- ===== src/Names/Discovery.antt =====
-- Discovery of a server's default names: src/names.rs.
use replstoke.Common.{
  ℕ, ◌+◌, ◌-◌, ◌≡◌, refl, true, false, List, [], ◌∷◌, ◌++◌, arith, leb, Bytes, codes, bytes_eq_refl,
  ok, length, All, All-append, take-append, drop-append, length-append, append_assoc,
}
use replstoke.Strings.Utf8.{IsAscii, from_utf8_lossy-ascii}
use replstoke.Strings.Decimal.{IsDigit, format_uint, digits-All}
use replstoke.Cli.Config.{name_prefix, socket_suffix, pidfile_suffix}
use replstoke.Names.{
  here, file_name, default_socket_path, default_pidfile_path, starts_with, ends_with, is_match,
  collect, discover_socket, discover_pidfile,
}

digits-IsAscii : (s : Bytes) → All IsDigit s → All IsAscii s
digits-IsAscii [] h = tt
digits-IsAscii (c ∷ s) h = (omega (arith, h.0), digits-IsAscii s h.1)

file_name-IsAscii :
    (cmd : Bytes) (pid : ℕ) (suffix : Bytes)
    → All IsAscii cmd
    → All IsAscii suffix
    → All IsAscii (file_name cmd pid suffix)
unfolding file_name format_uint
file_name-IsAscii cmd pid suffix c x = All-append IsAscii name_prefix _ (omega arith) (
    All-append IsAscii (format_uint pid) _
      (digits-IsAscii (format_uint pid) (digits-All (pid + 1) pid [] tt))
      (All-append IsAscii (codes "_") _ (omega arith) (All-append IsAscii cmd suffix c x)))

starts_with-append : (p s : Bytes) → starts_with p (p ++ s) ≡ true
unfolding starts_with
starts_with-append p s = rw (take-append p s) (bytes_eq_refl p)

ends_with-append : (p s : Bytes) → ends_with s (p ++ s) ≡ true
unfolding ends_with
ends_with-append p s =
    let fits : leb (length s) (length (p ++ s)) ≡ true = ground (arith, length-append p s) in
    let cut : length (p ++ s) - length s ≡ length p = omega (arith, length-append p s) in
    rw (fits, cut, drop-append p s) (bytes_eq_refl s)

file_name-starts :
    (cmd : Bytes) (pid : ℕ) (suffix : Bytes)
    → starts_with name_prefix (file_name cmd pid suffix) ≡ true
unfolding file_name
file_name-starts cmd pid suffix =
    starts_with-append name_prefix (format_uint pid ++ (codes "_" ++ (cmd ++ suffix)))

file_name-ends :
    (cmd : Bytes) (pid : ℕ) (suffix : Bytes) → ends_with suffix (file_name cmd pid suffix) ≡ true
unfolding file_name
file_name-ends cmd pid suffix =
    let front = name_prefix ++ (format_uint pid ++ (codes "_" ++ cmd)) in
    let whole : front ++ suffix
        ≡ name_prefix ++ (format_uint pid ++ (codes "_" ++ (cmd ++ suffix))) =
      simp append_assoc in
    rw (← whole) (ends_with-append front suffix)

file_name-match :
    (cmd : Bytes) (pid : ℕ) (suffix : Bytes)
    → All IsAscii cmd
    → All IsAscii suffix
    → is_match name_prefix suffix (file_name cmd pid suffix) ≡ true
unfolding is_match
file_name-match cmd pid suffix c x = rw (
  from_utf8_lossy-ascii (file_name cmd pid suffix) (file_name-IsAscii cmd pid suffix c x),
  file_name-starts cmd pid suffix,
  file_name-ends cmd pid suffix,
)

collect-none :
    (p s : Bytes) (es : List Bytes) → All (λ e. is_match p s e ≡ false) es → collect p s es ≡ []
unfolding collect
collect-none p s [] h = refl
collect-none p s (e ∷ es) h = rw (h.0, collect-none p s es h.1)

collect-one :
    (p s name : Bytes) (before after : List Bytes)
    → is_match p s name ≡ true
    → All (λ e. is_match p s e ≡ false) before
    → All (λ e. is_match p s e ≡ false) after
    → collect p s (before ++ name ∷ after) ≡ (here ++ name) ∷ []
unfolding collect
collect-one p s name [] after m hb ha = rw (m, collect-none p s after ha)
collect-one p s name (e ∷ es) after m hb ha = rw (hb.0, collect-one p s name es after m hb.1 ha)

-- In a directory that holds the default socket of a server whose executable's name is ASCII, and no
-- other file that looks like a socket, a client without a path discovers the path that the server used.
pub discover_socket-default_socket_path :
    (cmd : Bytes) (pid : ℕ) (before after : List Bytes)
    → All IsAscii cmd
    → All (λ e. is_match name_prefix socket_suffix e ≡ false) before
    → All (λ e. is_match name_prefix socket_suffix e ≡ false) after
    → discover_socket (ok (before ++ file_name cmd pid socket_suffix ∷ after))
      ≡ ok (default_socket_path cmd pid)
unfolding discover_socket default_socket_path
discover_socket-default_socket_path cmd pid before after c hb ha = rw (
    collect-one name_prefix socket_suffix (file_name cmd pid socket_suffix) before after
      (file_name-match cmd pid socket_suffix c (omega arith)) hb ha)

-- The option --kill without a path discovers the default pidfile of a server whose executable's name is
-- ASCII, in a directory that holds it and no other file that looks like a pidfile.
pub discover_pidfile-default_pidfile_path :
    (cmd : Bytes) (pid : ℕ) (before after : List Bytes)
    → All IsAscii cmd
    → All (λ e. is_match name_prefix pidfile_suffix e ≡ false) before
    → All (λ e. is_match name_prefix pidfile_suffix e ≡ false) after
    → discover_pidfile (ok (before ++ file_name cmd pid pidfile_suffix ∷ after))
      ≡ ok (default_pidfile_path cmd pid)
unfolding discover_pidfile default_pidfile_path
discover_pidfile-default_pidfile_path cmd pid before after c hb ha = rw (
    collect-one name_prefix pidfile_suffix (file_name cmd pid pidfile_suffix) before after
      (file_name-match cmd pid pidfile_suffix c (omega arith)) hb ha)
