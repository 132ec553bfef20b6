-- ===== src/Server/Setup/Pidfile.antt =====
-- The pidfile that src/server.rs writes and src/general.rs reads.
use replstoke.Common.{ℕ, ◌^◌, ◌<◌, ◌≡◌, refl, Bytes, ok, arith}
use replstoke.Strings.Decimal.{format_uint, format_uint-All, parse_uint-format_uint, max_u32}
use replstoke.Strings.Trim.{trim-digits}
use replstoke.General.{pid_of}
use replstoke.Server.Setup.{pid_line}

-- The pid that the server writes into its pidfile is the pid that --kill reads there.
pub pid_of-pid_line :
    (path : Bytes) (pid : ℕ) → pid < 2 ^ 32 → pid_of path (ok (pid_line pid)) ≡ ok pid
unfolding pid_of pid_line
pid_of-pid_line path pid h =
    rw
      (
        trim-digits (format_uint pid) (format_uint-All pid),
        parse_uint-format_uint max_u32 pid (omega arith),
      )
      refl
