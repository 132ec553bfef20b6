-- ===== src/Platform/Windows.antt =====
-- src/platform/windows.rs: the job object that holds the REPL, and `--kill` by a console event. The calls
-- of kernel32 are the parameter `Kernel`: each takes the state of the system and returns the next. A
-- handle is a number, and 0 is the null handle.
pub mod Ledger
pub mod Terminate
use replstoke.Common.{
  ℕ, zero, suc, ◌+◌, ◌≡◌, refl, Bool, true, false, not, Option, none, some, if◌then◌else◌, leb,
  ◌==◌,
}

abbrev pub create_new_process_group : ℕ
create_new_process_group = 512

abbrev pub ctrl_break_event : ℕ
ctrl_break_event = 1

abbrev pub job_object_extended_limit_information : ℕ
job_object_extended_limit_information = 9

abbrev pub job_object_limit_kill_on_job_close : ℕ
job_object_limit_kill_on_job_close = 8192

abbrev pub process_terminate : ℕ
process_terminate = 1

abbrev pub synchronize : ℕ
synchronize = 1048576

abbrev pub wait_timeout : ℕ
wait_timeout = 258

pub record JobBasicLimitInformation : Type 0 where
  pub per_process_user_time_limit : ℕ
  pub per_job_user_time_limit : ℕ
  pub limit_flags : ℕ
  pub minimum_working_set_size : ℕ
  pub maximum_working_set_size : ℕ
  pub active_process_limit : ℕ
  pub affinity : ℕ
  pub priority_class : ℕ
  pub scheduling_class : ℕ

pub record IoCounters : Type 0 where
  pub read_operation_count : ℕ
  pub write_operation_count : ℕ
  pub other_operation_count : ℕ
  pub read_transfer_count : ℕ
  pub write_transfer_count : ℕ
  pub other_transfer_count : ℕ

pub record JobExtendedLimitInformation : Type 0 where
  pub basic_limit_information : JobBasicLimitInformation
  pub io_info : IoCounters
  pub process_memory_limit : ℕ
  pub job_memory_limit : ℕ
  pub peak_process_memory_used : ℕ
  pub peak_job_memory_used : ℕ

-- What the program calls of the system. Time is in milliseconds.
pub record Kernel (W : Type 0) : Type 0 where
  pub create_job_object : W → W × ℕ
  pub set_information_job_object : ℕ → ℕ → JobExtendedLimitInformation → W → W
  pub assign_process_to_job_object : ℕ → ℕ → W → W
  pub open_process : ℕ → ℕ → W → W × ℕ
  pub terminate_process : ℕ → ℕ → W → W
  pub wait_for_single_object : ℕ → ℕ → W → W × ℕ
  pub generate_console_ctrl_event : ℕ → ℕ → W → W
  pub close_handle : ℕ → W → W
  pub now : W → W × ℕ
  pub sleep : ℕ → W → W

-- `mem::zeroed()` with the flag.
abbrev pub kill_on_close : JobExtendedLimitInformation
kill_on_close = record {
  basic_limit_information = record {
    per_process_user_time_limit = 0;
    per_job_user_time_limit = 0;
    limit_flags = job_object_limit_kill_on_job_close;
    minimum_working_set_size = 0;
    maximum_working_set_size = 0;
    active_process_limit = 0;
    affinity = 0;
    priority_class = 0;
    scheduling_class = 0;
  };
  io_info = record {
    read_operation_count = 0;
    write_operation_count = 0;
    other_operation_count = 0;
    read_transfer_count = 0;
    write_transfer_count = 0;
    other_transfer_count = 0;
  };
  process_memory_limit = 0;
  job_memory_limit = 0;
  peak_process_memory_used = 0;
  peak_job_memory_used = 0;
}

-- The handler's new value of `SHUTDOWN`, and what it returns.
unfoldable pub ctrl_handler : ℕ → Bool → Bool × ℕ
ctrl_handler ctrl shutdown = (true, 1)

-- The creation flags of the command for the REPL.
pub record Command : Type 0 where
  pub creation_flags : ℕ

unfoldable pub configure_command : Command → Command
configure_command cmd = record cmd { creation_flags = create_new_process_group }

pub record ReplGuard : Type 0 where
  pub job : ℕ
  pub pid : ℕ

module _ {W : Type 0} (k : Kernel W) where
  -- The job of a new REPL, with the REPL in it, if it can be created.
  unfoldable pub confine : ℕ → ℕ → W → W
  confine job process w =
      k.assign_process_to_job_object job process
        (k.set_information_job_object job job_object_extended_limit_information kill_on_close w)

  unfoldable pub after_spawn : ℕ → ℕ → W → W × ReplGuard
  unfolding confine
  after_spawn process pid w =
      let (w1, job) = k.create_job_object w in
      (if job == 0 then w1 else confine job process w1, record { job = job; pid = pid })

  unfoldable pub terminate : ReplGuard → W → W
  terminate guard w =
      let w1 = k.sleep 200 (k.generate_console_ctrl_event ctrl_break_event guard.pid w) in
      if guard.job == 0 then w1 else k.close_handle guard.job w1

  -- The wait and the close behind `OpenProcess` in `is_alive`.
  unfoldable pub still_runs : ℕ → W → W × Bool
  still_runs h w =
      let (w1, r) = k.wait_for_single_object h 0 w in (k.close_handle h w1, r == wait_timeout)

  unfoldable pub is_alive : ℕ → W → W × Bool
  unfolding still_runs
  is_alive pid w =
      let (w1, h) = k.open_process synchronize pid w in
      if h == 0 then (w1, false) else still_runs h w1

  -- `!is_alive(pid)`.
  unfoldable pub is_gone : ℕ → W → W × Bool
  unfolding is_alive
  is_gone pid w = let (w1, alive) = is_alive pid w in (w1, not alive)

  -- The loop of `terminate_pid`: whether the process has gone, `none` when the fuel runs out.
  unfoldable pub wait_gone : ℕ → ℕ → ℕ → W → Option (W × Bool)
  wait_gone zero pid deadline w = none
  wait_gone (suc fuel) pid deadline w =
      let (w1, t) = k.now w in
      let (w2, alive) = is_alive pid w1 in
      let rest = wait_gone fuel pid deadline (k.sleep 20 w2) in
      if leb deadline t then some (w1, false) else if not alive then some (w2, true) else rest

  -- `TerminateProcess` on an open handle.
  unfoldable pub kill_by : ℕ → W → W
  kill_by h w = k.close_handle h (k.wait_for_single_object h 2000 (k.terminate_process h 1 w)).0

  -- Behind the loop.
  unfoldable pub force : ℕ → W → W × Bool
  unfolding kill_by is_gone
  force pid w =
      let (w1, h) = k.open_process (process_terminate + synchronize) pid w in
      if h == 0 then is_gone pid w1 else is_gone pid (kill_by h w1)

  unfoldable pub after_wait : ℕ → Option (W × Bool) → Option (W × Bool)
  after_wait pid none = none
  after_wait pid (some (w, gone)) = some (if gone then (w, true) else force pid w)

  unfoldable pub terminate_pid : ℕ → ℕ → ℕ → W → Option (W × Bool)
  terminate_pid fuel pid timeout w =
      let (w1, alive) = is_alive pid w in
      let w2 = k.generate_console_ctrl_event ctrl_break_event pid w1 in
      let (w3, t) = k.now w2 in
      if not alive then some (w1, true) else after_wait pid (wait_gone fuel pid (t + timeout) w3)
