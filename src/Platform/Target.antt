-- ===== src/Platform/Target.antt =====
-- Whom `terminate_pid` of src/platform/unix.rs signals.
use replstoke.Common.{
  ℕ, zero, suc, ◌+◌, ◌^◌, ◌<◌, ◌≡◌, refl, ap, Bool, true, false, Option, none, some, arith,
}
use replstoke.Platform.{
  ℤ, pos, Os, as_i32, sigkill, sigterm, is_zombie, is_alive, wait_gone, force, after_wait,
  terminate_pid,
}

module _ {W : Type 0} (os : Os W) (k : ℤ → ℕ → W → W × Bool) (pid : ℕ) (small : pid < 2 ^ 31)
    (same : (s : ℕ) (w : W) → k (pos pid) s w ≡ os.kill (pos pid) s w) where
  abbrev other : Os W
  other = record os { kill = k }

  as_i32-pos : as_i32 pid ≡ pos pid
  unfolding as_i32
  as_i32-pos = ground arith

  is_alive-same : (w : W) → is_alive other pid w ≡ is_alive os pid w
  unfolding is_alive
  is_alive-same w = rw (as_i32-pos, same 0 w) (unfold is_zombie in refl)

  wait_gone-same :
      (fuel deadline : ℕ) (w : W)
      → wait_gone other fuel pid deadline w ≡ wait_gone os fuel pid deadline w
  unfolding wait_gone
  wait_gone-same zero deadline w = refl
  wait_gone-same (suc fuel) deadline w =
      rw
        (
          is_alive-same (os.now w).0,
          wait_gone-same fuel deadline (os.sleep 20 (is_alive os pid (os.now w).0).0),
        )
        refl

  force-same : (w : W) → force other pid w ≡ force os pid w
  unfolding force
  force-same w = rw (as_i32-pos, same sigkill w, is_alive-same (os.kill (pos pid) sigkill w).0) refl

  after_wait-same : (o : Option (W × Bool)) → after_wait other pid o ≡ after_wait os pid o
  unfolding after_wait
  after_wait-same none = refl
  after_wait-same (some (w, true)) = refl
  after_wait-same (some (w, false)) = ap some (force-same w)

  -- For a pid below 2 ^ 31, terminate_pid depends on the system's kill only at that very target: two
  -- systems that answer it alike there, and are alike but for kill, give the same result and the same
  -- state.
  pub terminate_pid-one_process :
      (fuel timeout : ℕ) (w : W)
      → terminate_pid other fuel pid timeout w ≡ terminate_pid os fuel pid timeout w
  unfolding terminate_pid
  terminate_pid-one_process fuel timeout w =
      let x = is_alive os pid w in
      let t = os.now (os.kill (pos pid) sigterm x.0).0 in
      rw
        (
          as_i32-pos,
          is_alive-same w,
          same sigterm x.0,
          wait_gone-same fuel (t.1 + timeout) t.0,
          after_wait-same (wait_gone os fuel pid (t.1 + timeout) t.0),
        )
        refl
