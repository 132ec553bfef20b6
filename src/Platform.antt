-- ===== src/Platform.antt =====
-- src/platform/unix.rs on Linux: signals to a process or a group, and the test for a zombie. A pointer to
-- a handler is no data: its effect is `handle_signal`. The system's
-- calls are the parameter `Os`: each takes the state of the system and returns the next.
pub mod Terminate
pub mod Target
pub mod Zombie
pub mod Windows
use replstoke.Common.{
  ℕ, zero, suc, ◌+◌, ◌-◌, ◌^◌, ◌≤◌, ◌≡◌, Bool, true, false, not, ◌&&◌, ◌||◌, List, [], ◌∷◌, ◌++◌,
  Option, none, some, if◌then◌else◌, Bytes, codes, Result, ok, err, ltb, leb, ◌==◌, drop,
}
use replstoke.Strings.Decimal.{format_uint}

-- `i32` values.
pub data ℤ : Type 0 where
  pos : ℕ → ℤ
  negsuc : ℕ → ℤ

abbrev pub is_zero : ℤ → Bool
is_zero (pos zero) = true
is_zero z = false

-- `pid as i32` of a `u32`.
unfoldable pub as_i32 : ℕ → ℤ
as_i32 pid = if ltb pid (2 ^ 31) then pos pid else negsuc (2 ^ 32 - 1 - pid)

abbrev pub negate : ℤ → ℤ
negate (pos zero) = pos zero
negate (pos (suc n)) = negsuc n
negate (negsuc n) = pos (suc n)

abbrev pub sigkill : ℕ
sigkill = 9

abbrev pub sigterm : ℕ
sigterm = 15

abbrev pub sigint : ℕ
sigint = 2

-- The new value of `SHUTDOWN`.
unfoldable pub handle_signal : ℤ → Bool → Bool
handle_signal sig shutdown = true

-- `signal(signum, handle_signal)` is a parameter.
unfoldable pub install_shutdown_handler : {W : Type 0} → (ℕ → W → W) → W → W
install_shutdown_handler signal w = signal sigint (signal sigterm w)

-- What the child of `configure_command` runs before the REPL: `setpgid` and the error's text are
-- parameters.
unfoldable pub enter_group :
    {W : Type 0} → (ℤ → ℤ → W → W × ℤ) → (W → Bytes) → W → W × Result Bytes (Unit {0})
enter_group setpgid last_os_error w =
    let (w1, r) = setpgid (pos 0) (pos 0) w in
    (w1, if is_zero r then ok tt else err (last_os_error w1))

-- What terminates the REPL's process group, from the child's id, a `u32`.
pub record ReplGuard : Type 0 where
  pub pgid : ℤ

unfoldable pub after_spawn : ℕ → ReplGuard
unfolding as_i32
after_spawn child = record { pgid = as_i32 child }

-- `-self.pgid`.
abbrev pub group : ReplGuard → ℤ
group guard = negate guard.pgid

-- What the program calls of the system. `kill` says whether it returns 0, a file's error is its text.
-- Time is in milliseconds.
pub record Os (W : Type 0) : Type 0 where
  pub kill : ℤ → ℕ → W → W × Bool
  pub now : W → W × ℕ
  pub sleep : ℕ → W → W
  pub read_to_string : Bytes → W → W × Result Bytes Bytes
  pub exists : Bytes → W → W × Bool
  pub remove_file : Bytes → W → W
  pub read_dir : W → W × Result Bytes (List Bytes)

-- `stat.rfind(')')`, with what stands behind it.
unfoldable pub behind_last : Bytes → Option Bytes
behind_last [] = none
behind_last (c ∷ s) = elim (behind_last s) [
  | some r ↦ some r
  | none ↦ if c == b')' then some s else none
]

-- `get(idx + 2) == Some(&b'Z')`, from what stands behind the index.
unfoldable pub is_z : Bytes → Bool
is_z (c ∷ d ∷ s) = d == b'Z'
is_z s = false

abbrev pub found_z : Option Bytes → Bool
found_z none = false
found_z (some s) = is_z s

unfoldable pub zombie_stat : Result Bytes Bytes → Bool
unfolding behind_last is_z
zombie_stat (err e) = false
zombie_stat (ok stat) = found_z (behind_last stat)

unfoldable pub stat_path : ℕ → Bytes
stat_path pid = codes "/proc/" ++ (format_uint pid ++ codes "/stat")

module _ {W : Type 0} (os : Os W) where
  unfoldable pub is_zombie : ℕ → W → W × Bool
  unfolding zombie_stat stat_path
  is_zombie pid w = let (w', stat) = os.read_to_string (stat_path pid) w in (w', zombie_stat stat)

  unfoldable pub is_alive : ℕ → W → W × Bool
  unfolding is_zombie as_i32
  is_alive pid w =
      let (w', found) = os.kill (as_i32 pid) 0 w in
      let (w'', zombie) = is_zombie pid w' in if not found then (w', false) else (w'', not zombie)

  -- The loop of `terminate_pid`: whether the process has gone, `none` when the fuel runs out.
  unfoldable pub wait_gone : ℕ → ℕ → ℕ → W → Option (W × Bool)
  wait_gone zero pid deadline w = none
  wait_gone (suc fuel) pid deadline w =
      let (w1, t) = os.now w in
      let (w2, alive) = is_alive pid w1 in
      let rest = wait_gone fuel pid deadline (os.sleep 20 w2) in
      if leb deadline t then some (w1, false) else if not alive then some (w2, true) else rest

  -- Behind the loop.
  unfoldable pub force : ℕ → W → W × Bool
  force pid w =
      let (w1, delivered) = os.kill (as_i32 pid) sigkill w in
      let (w2, alive) = is_alive pid w1 in if delivered then (w1, true) else (w2, not alive)

  unfoldable pub after_wait : ℕ → Option (W × Bool) → Option (W × Bool)
  after_wait pid none = none
  after_wait pid (some (w, gone)) = some (if gone then (w, true) else force pid w)

  unfoldable pub terminate_pid : ℕ → ℕ → ℕ → W → Option (W × Bool)
  terminate_pid fuel pid timeout w =
      let (w1, alive) = is_alive pid w in
      let (w2, sent) = os.kill (as_i32 pid) sigterm w1 in
      let (w3, t) = os.now w2 in
      if not alive then some (w1, true) else after_wait pid (wait_gone fuel pid (t + timeout) w3)

  -- `ReplGuard::terminate`, with its loop: whether the group was seen to be gone.
  unfoldable pub wait_group : ℕ → ReplGuard → ℕ → W → Option (W × Bool)
  wait_group zero guard deadline w = none
  wait_group (suc fuel) guard deadline w =
      let (w1, t) = os.now w in
      let (w2, alive) = os.kill (group guard) 0 w1 in
      let rest = wait_group fuel guard deadline (os.sleep 10 w2) in
      if leb deadline t then some (w1, false) else if not alive then some (w2, true) else rest

  unfoldable pub after_group : ReplGuard → Option (W × Bool) → Option W
  after_group guard none = none
  after_group guard (some (w, gone)) =
      some (if gone then w else (os.kill (group guard) sigkill w).0)

  unfoldable pub terminate : ℕ → ReplGuard → W → Option W
  unfolding wait_group after_group
  terminate fuel guard w =
      let (w1, sent) = os.kill (group guard) sigterm w in
      let (w2, t) = os.now w1 in after_group guard (wait_group fuel guard (t + 500) w2)
