-- ===== src/Server/Core.antt =====
-- `Phase` and `Core` of src/server.rs: the control state of the server. Instants and durations are
-- numbers of milliseconds.
pub mod Lifecycle
pub mod Requests
use replstoke.Common.{
  ℕ, ◌+◌, ◌%◌, ◌^◌, ◌≡◌, refl, Bool, true, false, not, ◌||◌, ◌&&◌, Option, none, some,
  if◌then◌else◌,
}

abbrev pub Instant : Type 0
Instant = ℕ

abbrev pub Duration : Type 0
Duration = ℕ

abbrev pub u64 : ℕ → ℕ
u64 n = n % 2 ^ 64

pub data Phase : Type 0 where
  booting : (since : Instant) → Phase
  warmup : (since : Instant) → Phase
  idle : Phase
  busy : Phase
  draining : (deadline : Option Instant) → Phase
  stopped : Phase

pub record Core : Type 0 where
  pub phase : Phase
  pub served : Bool
  pub requests : ℕ  -- u64
  pub next_gen : ℕ  -- u64
  pub req_seq : ℕ  -- u64
  pub serving : Bool

-- The phase of a freshly spawned REPL.
unfoldable pub initial_phase : Bool → Bool → Instant → Phase
initial_phase ready has_warmup now =
    if not ready then booting now else if has_warmup then warmup now else idle

unfoldable pub new : Bool → Bool → Instant → Core
unfolding initial_phase
new ready has_warmup now = record {
  phase = initial_phase ready has_warmup now;
  served = false;
  requests = 0;
  next_gen = 1;
  req_seq = 0;
  serving = false;
}

abbrev pub is_booting_phase : Phase → Bool
is_booting_phase (booting since) = true
is_booting_phase _ = false

abbrev pub is_warmup_phase : Phase → Bool
is_warmup_phase (warmup since) = true
is_warmup_phase _ = false

abbrev pub is_idle_phase : Phase → Bool
is_idle_phase idle = true
is_idle_phase _ = false

abbrev pub is_busy_phase : Phase → Bool
is_busy_phase busy = true
is_busy_phase _ = false

abbrev pub is_draining_phase : Phase → Bool
is_draining_phase (draining deadline) = true
is_draining_phase _ = false

unfoldable pub is_booting : Core → Bool
is_booting c = is_booting_phase c.phase

unfoldable pub is_pre_serving : Core → Bool
is_pre_serving c = is_booting_phase c.phase || is_warmup_phase c.phase

-- The accept gate: the new client's generation, or `none`.
unfoldable pub try_accept : Core → Bool → Core × Option ℕ
try_accept c has_sink =
    let acceptable = is_booting_phase c.phase || is_warmup_phase c.phase || is_idle_phase c.phase in
    if has_sink || not acceptable then (c, none) else (
      record c {
        next_gen = u64 (c.next_gen + 1);
        requests = u64 (c.requests + 1);
        served = true;
        serving = false;
      },
      some c.next_gen,
    )

unfoldable pub request_start : Core → Bool → Core
request_start c protocol =
    let d = record c { serving = true } in
    if not protocol
    then c
    else if is_idle_phase c.phase
    then record d { phase = busy; req_seq = u64 (c.req_seq + 1) }
    else d

unfoldable pub response_end : Core → Core
response_end c =
    if is_busy_phase c.phase || is_draining_phase c.phase then record c { phase = idle } else c

unfoldable pub client_gone : Core → Option Instant → Core
client_gone c deadline =
    let d = record c { serving = false } in
    if is_busy_phase c.phase then record d { phase = draining deadline } else d

-- Whether it changed the phase is the second part.
unfoldable pub ready : Core → Bool → Instant → Core × Bool
unfolding is_booting
ready c has_warmup now =
    if is_booting c
    then (record c { phase = if has_warmup then warmup now else idle }, true)
    else (c, false)

unfoldable pub warmup_done : Core → Core × Bool
warmup_done c = if is_warmup_phase c.phase then (record c { phase = idle }, true) else (c, false)

unfoldable pub begin_booting : Core → Bool → Bool → Instant → Core
unfolding initial_phase
begin_booting c is_ready has_warmup now = record c {
  phase = initial_phase is_ready has_warmup now;
  served = false;
  serving = false;
}

unfoldable pub stop : Core → Core
stop c = record c { phase = stopped }
