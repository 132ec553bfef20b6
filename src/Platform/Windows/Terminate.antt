-- ===== src/Platform/Windows/Terminate.antt =====
-- `terminate_pid` and `ReplGuard::terminate` of src/platform/windows.rs: they end, what the answer says,
-- and which handles they leave.
use replstoke.Common.{
  ℕ, zero, suc, ◌+◌, ◌*◌, ◌≤◌, ◌≡◌, ◌≢◌, ◌∙◌, refl, Bool, true, false, not, Option, [], ◌∷◌, none,
  some, arith, leb, ◌==◌, ==_iff, Bool-cases, inl, inr, leb_of_le,
}
use replstoke.Platform.Windows
use replstoke.Platform.Windows.{
  Kernel, ReplGuard, after_spawn, terminate, confine, still_runs, is_alive, is_gone, wait_gone,
  kill_by, force, after_wait, terminate_pid,
}
use replstoke.Platform.Windows.Ledger.{Open, ledgered, IsClock, is_alive-ledger, force-ledger}

module _ {W : Type 0} (k : Kernel W) (clock : W → ℕ) (law : IsClock k clock) where
  is_alive-later : (pid : ℕ) (w : W) → clock w ≤ clock (is_alive k pid w).0
  unfolding is_alive still_runs
  is_alive-later pid w =
      let o = k.open_process Windows.synchronize pid w in
      let r = k.wait_for_single_object o.1 0 o.0 in
      ground (
        arith,
        law.open_later Windows.synchronize pid w,
        law.wait_later o.1 0 o.0,
        law.close_later o.1 r.0,
      )

module _ {W : Type 0} (k : Kernel W) (clock : W → ℕ) (law : IsClock k clock) where
  abbrev K : Kernel (W × Open)
  K = ledgered k

  ledgered-IsClock : IsClock K (λ x. clock x.0)
  ledgered-IsClock = record {
    reads = λ x. law.reads x.0;
    now_later = λ x. law.now_later x.0;
    sleep_later = λ d x. law.sleep_later d x.0;
    open_later = λ a p x. law.open_later a p x.0;
    wait_later = λ h d x. law.wait_later h d x.0;
    close_later = λ h x. law.close_later h x.0;
  }

  -- The last look at the process gave this answer.
  abbrev pub Seen : ℕ → (W × Open) × Bool → Type 0
  Seen pid (x, gone) = (v : W × Open) × (is_gone K pid v ≡ (x, gone))

  abbrev Waited : ℕ → Open → Option ((W × Open) × Bool) → Type 0
  Waited pid l none = ⊥
  Waited pid l (some (x, true)) = (x.1 ≡ l) × Seen pid (x, true)
  Waited pid l (some (x, false)) = x.1 ≡ l

  seen_gone :
      (pid : ℕ) (x : W × Open)
      → (is_alive K pid x).1 ≡ false
      → Seen pid ((is_alive K pid x).0, true)
  unfolding is_gone
  seen_gone pid x e = (x, (λ i. ((is_alive K pid x).0, not (e i))))

  wait_gone-Waited :
      (fuel pid deadline : ℕ) (x : W × Open) (l : Open)
      → x.1 ≡ l
      → deadline ≤ clock x.0 + 20 * fuel
      → Waited pid l (wait_gone K (suc fuel) pid deadline x)
  unfolding wait_gone
  wait_gone-Waited zero pid deadline x l same h =
      rw (leb_of_le deadline (k.now x.0).1 (omega (arith, law.reads x.0))) same
  wait_gone-Waited (suc fuel) pid deadline x l same h =
      let w1 = (K.now x).0 in
      let a = is_alive K pid w1 in
      let kept = is_alive-ledger k pid w1 ∙ same in
      let later = is_alive-later K (λ y. clock y.0) ledgered-IsClock pid w1 in
      let rest =
        wait_gone-Waited fuel pid deadline (K.sleep 20 a.0) l kept
          (omega (arith, law.reads x.0, law.now_later x.0, later, law.sleep_later 20 a.0.0)) in
      elim (Bool-cases (leb deadline (k.now x.0).1)) [
        | inl e ↦ rw e same
        | inr e ↦ elim (Bool-cases a.1) [
          | inl on ↦ rw (e, on) rest
          | inr off ↦ rw (e, off) (kept, seen_gone pid w1 off)
        ]
      ]

  abbrev pub Returns : ℕ → Open → Option ((W × Open) × Bool) → Type 0
  Returns pid l none = ⊥
  Returns pid l (some r) = (r.0.1 ≡ l) × Seen pid r

  force-Seen : (pid : ℕ) (x : W × Open) → Seen pid (force K pid x)
  unfolding force
  force-Seen pid x =
      let o = K.open_process (Windows.process_terminate + Windows.synchronize) pid x in
      elim (Bool-cases (o.1 == 0)) [
        | inl e ↦ rw e (o.0, refl)
        | inr e ↦ rw e (kill_by K o.1 o.0, refl)
      ]

  after_wait-Returns :
      (pid : ℕ) (l : Open) (o : Option ((W × Open) × Bool))
      → Waited pid l o
      → Returns pid l (after_wait K pid o)
  unfolding after_wait
  after_wait-Returns pid l none h = absurd h
  after_wait-Returns pid l (some (x, true)) h = h
  after_wait-Returns pid l (some (x, false)) h = (force-ledger k pid x ∙ h, force-Seen pid x)

  -- On windows, with the documented clock and fuel for a round each 20 ms of the timeout and one
  -- more, terminate_pid returns, whatever the process does; its answer is that of a last test of the
  -- process, which gave the state that it leaves; and on every branch it has closed each handle that
  -- it opened and no other.
  pub terminate_pid-settles :
      (fuel pid timeout : ℕ) (w : W) (l : Open)
      → timeout ≤ 20 * fuel
      → Returns pid l (terminate_pid K (suc fuel) pid timeout (w, l))
  unfolding terminate_pid
  terminate_pid-settles fuel pid timeout w l h =
      let a = is_alive K pid (w, l) in
      let kept = is_alive-ledger k pid (w, l) in
      let t = K.now (K.generate_console_ctrl_event Windows.ctrl_break_event pid a.0) in
      let loop = wait_gone-Waited fuel pid (t.1 + timeout) t.0 l kept (
        omega (
          arith,
          h,
          law.now_later (k.generate_console_ctrl_event Windows.ctrl_break_event pid a.0.0),
        )) in
      elim (Bool-cases a.1) [
        | inl on ↦
            rw on (after_wait-Returns pid l (wait_gone K (suc fuel) pid (t.1 + timeout) t.0) loop)
        | inr off ↦ rw off (kept, seen_gone pid (w, l) off)
      ]

-- The guard of a REPL.
module _ {W : Type 0} (k : Kernel W) (process pid : ℕ) (w : W) where
  abbrev spawned : (W × Open) × ReplGuard
  spawned = after_spawn (ledgered k) process pid (w, some [])

  abbrev guard : ReplGuard
  guard = spawned.1

  abbrev once : W × Open
  once = terminate (ledgered k) guard spawned.0

  abbrev twice : W × Open
  twice = terminate (ledgered k) guard once

  -- On windows, if the job of a new REPL can be created, its handle is open until the guard is
  -- terminated, which closes it; terminating the guard again closes a handle that is not open.
  pub guard_closes_once :
      guard.job ≢ 0 → (spawned.0.1 ≡ some (guard.job ∷ [])) × (once.1 ≡ some []) × (twice.1 ≡ none)
  unfolding after_spawn confine terminate
  guard_closes_once ne =
      let job = (k.create_job_object w).1 in
      let some_job : (job == 0) ≡ false = ground arith in
      let same : (job == job) ≡ true = (==_iff job job).1 refl in
      (rw some_job refl, rw (some_job, same) refl, rw (some_job, same) refl)
