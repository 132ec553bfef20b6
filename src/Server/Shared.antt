-- ===== src/Server/Shared.antt =====
-- `Shared` of src/server.rs: the state that the threads share. A method that holds a lock to its end is
-- one function here. A condvar wakes a waiter only to look at the state again, so it holds no state.
-- A write to a socket or pipe that fails leaves nothing behind.
pub mod Delivery
use replstoke.Common.{
  ℕ, ◌+◌, ◌-◌, ◌/◌, ◌≡◌, refl, Bool, true, false, not, ◌||◌, ◌&&◌, List, [], ◌∷◌, ◌++◌, Option,
  none, some, if◌then◌else◌, Bytes, codes, is_nil, ◌==◌,
}
use mathlib.Core.Option
use replstoke.Strings.Decimal.{format_uint}
use replstoke.Protocol.Types.{stream_out, stream_err, stream_ctl}
use replstoke.Protocol.Encode.{encode}
use replstoke.Protocol.Ctl.{ctl_status, ctl_error}
use replstoke.Server.Core.{Instant, Duration, Core, is_pre_serving}
use replstoke.Server.Core

-- The fields of `Shared` that never change.
pub record Settings : Type 0 where
  pub initial_ready : Bool
  pub warmup : Bytes
  pub warmup_marker_stdout : Bytes
  pub warmup_marker_stderr : Bytes
  pub protocol : Bool
  pub end_marker_stdout : Bytes
  pub end_marker_stderr : Bytes
  pub error_marker_stdout : Bytes
  pub error_marker_stderr : Bytes
  pub ready_marker_stdout : Bytes
  pub ready_marker_stderr : Bytes
  pub strip_out : Bool
  pub strip_err : Bool
  pub response_timeout : Option Duration
  pub start : Instant
  pub started_at : Bytes
  pub server_pid : ℕ
  pub listen_desc : Bytes

-- The write handle of a client, with the bytes written so far and whether a write fails.
pub record ClientConn : Type 0 where
  pub gen : ℕ
  pub wire : Bytes
  pub broken : Bool

-- The stdin of a REPL, likewise.
pub record ReplStdin : Type 0 where
  pub taken : Bytes
  pub broken : Bool

pub record Shared : Type 0 where
  pub core : Core
  pub sink : Option ClientConn
  pub repl_stdin : Option ReplStdin
  pub shutdown : Bool
  pub warmup_sent : Bool
  pub stdout : Bytes  -- what the server's own streams were given
  pub stderr : Bytes

unfoldable pub has_warmup : Settings → Bool
has_warmup cfg = not (is_nil cfg.warmup)

-- `signalled` is `platform::shutdown_requested()`.
unfoldable pub should_stop : Shared → Bool → Bool
should_stop sh signalled = sh.shutdown || signalled

unfoldable pub request_start : Settings → Shared → Shared
request_start cfg sh = record sh { core = Core.request_start sh.core cfg.protocol }

unfoldable pub response_end : Shared → Shared
response_end sh = record sh { core = Core.response_end sh.core }

unfoldable pub signal_ready : Settings → Instant → Shared → Shared
unfolding has_warmup
signal_ready cfg now sh = record sh { core = (Core.ready sh.core (has_warmup cfg) now).0 }

unfoldable pub warmup_done : Shared → Shared
warmup_done sh =
    if not sh.warmup_sent then sh else record sh { core = (Core.warmup_done sh.core).0 }

unfoldable pub write_stdin : Bytes → ReplStdin → ReplStdin
write_stdin bytes w = if w.broken then w else record w { taken = w.taken ++ bytes }

unfoldable pub send_warmup : Settings → Shared → Shared
unfolding write_stdin
send_warmup cfg sh = record sh {
  repl_stdin = Option.map (write_stdin cfg.warmup) sh.repl_stdin;
  warmup_sent = true;
}

unfoldable pub begin_booting : Settings → Instant → Shared → Shared
unfolding has_warmup
begin_booting cfg now sh = record sh {
  warmup_sent = false;
  core = Core.begin_booting sh.core cfg.initial_ready (has_warmup cfg) now;
}

unfoldable pub stop : Shared → Shared
stop sh = record sh { shutdown = true; core = Core.stop sh.core }

-- `sink.as_ref().map(|c| c.gen) == Some(gen)`.
abbrev pub is_gen : ℕ → Option ClientConn → Bool
is_gen gen none = false
is_gen gen (some c) = c.gen == gen

unfoldable pub client_gone : Settings → Instant → ℕ → Shared → Shared
client_gone cfg now gen sh = record sh {
  sink = if is_gen gen sh.sink then none else sh.sink;
  core = Core.client_gone sh.core (Option.map (λ t. now + t) cfg.response_timeout);
}

unfoldable pub clear_sink : Shared → Shared
clear_sink sh = record sh { sink = none }

-- A packet or raw bytes; `none` if the write fails.
unfoldable pub deliver : Settings → ClientConn → Bytes → Bytes → Option ClientConn
deliver cfg conn stream_name chunk =
    let bytes = if cfg.protocol then encode [] stream_name chunk else chunk in
    if conn.broken then none else some (record conn { wire = conn.wire ++ bytes })

-- `if self.deliver(..).is_err() { *guard = None; }` on the sink.
unfoldable pub deliver_sink : Settings → Option ClientConn → Bytes → Bytes → Option ClientConn
unfolding deliver
deliver_sink cfg none stream_name chunk = none
deliver_sink cfg (some conn) stream_name chunk = deliver cfg conn stream_name chunk

abbrev pub is_some {ℓ} : {A : Type ℓ} → Option A → Bool
is_some none = false
is_some (some a) = true

unfoldable pub route_out : Settings → Bytes → Bool → Shared → Shared
unfolding deliver_sink
route_out cfg chunk to_client sh =
    if is_some sh.sink && to_client
    then record sh { sink = deliver_sink cfg sh.sink stream_out chunk }
    else record sh { stdout = sh.stdout ++ chunk }

unfoldable pub route_err : Settings → Bytes → Bool → Shared → Shared
unfolding deliver_sink
route_err cfg chunk to_client sh =
    let logged = record sh { stderr = sh.stderr ++ chunk } in
    if not to_client
    then logged
    else record logged { sink = deliver_sink cfg sh.sink stream_err chunk }

unfoldable pub send_ctl : Settings → Bytes → Shared → Shared
unfolding deliver_sink
send_ctl cfg payload sh =
    if not cfg.protocol
    then sh
    else record sh { sink = deliver_sink cfg sh.sink stream_ctl payload }

unfoldable pub status_fields : Settings → ℕ → ℕ → Instant → Bytes
status_fields cfg repl_pid requests now =
    codes "server_pid="
    ++ format_uint cfg.server_pid
    ++ (codes " repl_pid=" ++ format_uint repl_pid)
    ++ (codes " requests=" ++ format_uint requests)
    ++ (codes " uptime_s=" ++ format_uint ((now - cfg.start) / 1000))
    ++ (codes " started=" ++ cfg.started_at)
    ++ (codes " listening=" ++ cfg.listen_desc)

unfoldable pub send_ctl_status : Settings → ℕ → Instant → Shared → Shared
unfolding send_ctl status_fields
send_ctl_status cfg repl_pid now sh =
    send_ctl cfg (ctl_status (status_fields cfg repl_pid sh.core.requests now)) sh

unfoldable pub send_ctl_error : Settings → Bytes → Shared → Shared
unfolding send_ctl
send_ctl_error cfg message sh = send_ctl cfg (ctl_error message) sh

-- One look of `wait_until_ready`: `none` is to wait on, else whether the client may be read.
unfoldable pub look_ready : Bool → Shared → Option Bool
unfolding should_stop
look_ready signalled sh =
    if should_stop sh signalled
    then some false
    else if is_pre_serving sh.core
    then none
    else some true

-- One round of `forward_to_repl` behind its wait: the state, and whether the data was written.
unfoldable pub try_forward : Bytes → Shared → Shared × Bool
unfolding write_stdin
try_forward chunk sh = elim sh.repl_stdin [
  | none ↦ (sh, false)
  | some w ↦
      if w.broken
      then (sh, false)
      else (record sh { repl_stdin = some (write_stdin chunk w) }, true)
]

-- The accept gate of `handle_connection`, under both locks: `cloned` is whether `try_clone` succeeds.
-- The second part is the new client's generation.
unfoldable pub admit : Shared → Core → Option ℕ → Shared × Option ℕ
admit sh c none = (record sh { core = c }, none)
admit sh c (some gen) = (
  record sh { core = c; sink = some (record { gen = gen; wire = []; broken = false }) },
  some gen,
)

unfoldable pub register : Bool → Shared → Shared × Option ℕ
unfolding admit
register cloned sh =
    let (c, gen) = Core.try_accept sh.core false in
    if is_some sh.sink || not cloned then (sh, none) else admit sh c gen

-- `handle_connection` behind the gate.
unfoldable pub greet : Settings → ℕ → Instant → Shared × Option ℕ → Shared × Option ℕ
unfolding send_ctl_status
greet cfg repl_pid now (sh, none) = (sh, none)
greet cfg repl_pid now (sh, some gen) = (send_ctl_status cfg repl_pid now sh, some gen)

-- `handle_connection` up to the start of `client_in`, with no other thread between its two parts.
unfoldable pub handle_connection : Settings → Bool → ℕ → Instant → Shared → Shared × Option ℕ
unfolding register greet
handle_connection cfg cloned repl_pid now sh = greet cfg repl_pid now (register cloned sh)
