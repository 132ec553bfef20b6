-- ===== src/General/Kill.antt =====
-- `--kill` of src/general.rs: how it ends, and the pidfile that it reads.
use replstoke.Common.{
  ℕ, ◌≡◌, refl, ap, Bool, true, false, Option, none, some, arith, ◌⊎◌, inl, inr, Bytes, ok, err,
  if◌then◌else◌,
}
use replstoke.Error.{AppResult}
use replstoke.Platform.{Os, terminate_pid}
use replstoke.Platform.Terminate.{IsClock, Gone, Survives, Returns, terminate_pid-Returns}
use replstoke.General.{
  kill_timeout, kill_fuel, cannot_terminate, read_pid, after_terminate, kill_pid, kill_path,
  kill_server,
}

module _ {W : Type 0} (os : Os W) where
  -- What `kill` leaves when the process has gone in `v`.
  unfoldable pub without_pidfile : Bytes → W → W
  without_pidfile path v =
      let (v1, found) = os.exists path v in if found then os.remove_file path v1 else v1

  abbrev pub Ends : Bytes → W → Option (W × AppResult (Unit {0})) → Type 0
  Ends path w none = ⊥
  Ends path w (some (w', ok u)) =
      (pid : ℕ) × (v : W) × ((read_pid os path w).1 ≡ ok pid)
      × Gone os pid v
      × (w' ≡ without_pidfile path v)
  Ends path w (some (w', err e)) =
      (read_pid os path w ≡ (w', err e))
      ⊎ ((pid : ℕ) × ((read_pid os path w).1 ≡ ok pid)
          × (e ≡ cannot_terminate pid)
          × Survives os pid w')

  module _ (clock : W → ℕ) (law : IsClock os clock) where
    after-Ends :
        (path : Bytes) (w : W) (pid : ℕ)
        → (read_pid os path w).1 ≡ ok pid
        → (o : Option (W × Bool)) → Returns os clock law pid o
        → Ends path w
            (elim o [ none ↦ none | some (w', gone) ↦ some (after_terminate os path pid w' gone) ])
    unfolding after_terminate without_pidfile
    after-Ends path w pid e none h = absurd h
    after-Ends path w pid e (some (v, true)) h = (pid, v, e, h, refl)
    after-Ends path w pid e (some (v, false)) h = inr (pid, e, refl, h)

    pid-Ends :
        (path : Bytes) (w : W) (x : W × AppResult ℕ)
        → read_pid os path w ≡ x
        → Ends path w (kill_pid os path x)
    unfolding kill_pid
    pid-Ends path w (v, err e) h = inl h
    pid-Ends path w (v, ok pid) h =
        after-Ends path w pid (ap (λ y. y.1) h) (terminate_pid os kill_fuel pid kill_timeout v)
          (terminate_pid-Returns os clock law 250 pid kill_timeout v (omega arith))

    -- On a system whose clock never turns back and whose sleeps take their time, --kill with a path
    -- ends within its fuel. If it succeeds, the pidfile held a pid, that process was seen to be
    -- gone or SIGKILL was delivered to it, and the pidfile was removed if it was still there. If it
    -- fails, either the pidfile gave no pid, and nothing but the reading was done, or SIGKILL could
    -- not be delivered and the process was seen alive after it, and the error names the pid.
    pub kill_server-Ends : (path : Bytes) (w : W) → Ends path w (kill_server os (some path) w)
    unfolding kill_server kill_path
    kill_server-Ends path w = pid-Ends path w (read_pid os path w) refl
