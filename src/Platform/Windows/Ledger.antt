-- ===== src/Platform/Windows/Ledger.antt =====
-- The handles that src/platform/windows.rs opens and closes, and what `terminate_pid` answers.
use replstoke.Common.{
  ℕ, ◌+◌, ◌≤◌, ◌≡◌, ◌∙◌, refl, true, false, List, [], ◌∷◌, Option, none, some, if◌then◌else◌, ◌==◌,
  ==_iff, Bool-cases, inl, inr,
}
use replstoke.Platform.Windows
use replstoke.Platform.Windows.{
  Kernel, ReplGuard, after_spawn, terminate, confine, still_runs, is_alive, is_gone, wait_gone,
  kill_by, force, after_wait, terminate_pid,
}

-- The handles that are open, the newest first; `none` when one was closed that is not the newest.
abbrev pub Open : Type 0
Open = Option (List ℕ)

abbrev pub opened : ℕ → Open → Open
opened h none = none
opened h (some hs) = if h == 0 then some hs else some (h ∷ hs)

abbrev pub closed : ℕ → Open → Open
closed h none = none
closed h (some []) = none
closed h (some (g ∷ hs)) = if g == h then some hs else none

-- The system with a record of the open handles beside it.
abbrev pub ledgered : {W : Type 0} → Kernel W → Kernel (W × Open)
ledgered k = record {
  create_job_object = λ x. (
    ((k.create_job_object x.0).0, opened (k.create_job_object x.0).1 x.1),
    (k.create_job_object x.0).1,
  );
  set_information_job_object = λ h n info x. (k.set_information_job_object h n info x.0, x.1);
  assign_process_to_job_object = λ h p x. (k.assign_process_to_job_object h p x.0, x.1);
  open_process = λ a p x. (
    ((k.open_process a p x.0).0, opened (k.open_process a p x.0).1 x.1),
    (k.open_process a p x.0).1,
  );
  terminate_process = λ h c x. (k.terminate_process h c x.0, x.1);
  wait_for_single_object =
      λ h d x. (((k.wait_for_single_object h d x.0).0, x.1), (k.wait_for_single_object h d x.0).1);
  generate_console_ctrl_event = λ e p x. (k.generate_console_ctrl_event e p x.0, x.1);
  close_handle = λ h x. (k.close_handle h x.0, closed h x.1);
  now = λ x. (((k.now x.0).0, x.1), (k.now x.0).1);
  sleep = λ d x. (k.sleep d x.0, x.1);
}

-- What the clock of the documented system does: `now` reads it, a sleep takes at least its time, and no
-- call turns it back.
pub record IsClock {W : Type 0} (k : Kernel W) (clock : W → ℕ) : Type 0 where
  pub reads : (w : W) → clock w ≤ (k.now w).1
  pub now_later : (w : W) → (k.now w).1 ≤ clock (k.now w).0
  pub sleep_later : (d : ℕ) (w : W) → clock w + d ≤ clock (k.sleep d w)
  pub open_later : (a p : ℕ) (w : W) → clock w ≤ clock (k.open_process a p w).0
  pub wait_later : (h d : ℕ) (w : W) → clock w ≤ clock (k.wait_for_single_object h d w).0
  pub close_later : (h : ℕ) (w : W) → clock w ≤ clock (k.close_handle h w)

closed-opened : (h : ℕ) (l : Open) → (h == 0) ≡ false → closed h (opened h l) ≡ l
closed-opened h none e = refl
closed-opened h (some hs) e = rw (e, (==_iff h h).1 refl)

null_opened : (h : ℕ) (l : Open) → (h == 0) ≡ true → opened h l ≡ l
null_opened h none e = refl
null_opened h (some hs) e = rw e

module _ {W : Type 0} (k : Kernel W) where
  abbrev K : Kernel (W × Open)
  K = ledgered k

  pub is_alive-ledger : (pid : ℕ) (x : W × Open) → (is_alive K pid x).0.1 ≡ x.1
  unfolding is_alive
  is_alive-ledger pid (w, l) =
      let h = (k.open_process Windows.synchronize pid w).1 in
      elim (Bool-cases (h == 0)) [
        | inl e ↦ rw e (null_opened h l e)
        | inr e ↦ rw e (closed-opened h l e)
      ]

  is_gone-ledger : (pid : ℕ) (x : W × Open) → (is_gone K pid x).0.1 ≡ x.1
  unfolding is_gone
  is_gone-ledger pid x = is_alive-ledger pid x

  pub force-ledger : (pid : ℕ) (x : W × Open) → (force K pid x).0.1 ≡ x.1
  unfolding force
  force-ledger pid (w, l) =
      let access = Windows.process_terminate + Windows.synchronize in
      let h = (k.open_process access pid w).1 in
      let w1 = (k.open_process access pid w).0 in
      elim (Bool-cases (h == 0)) [
        | inl e ↦ rw e (is_gone-ledger pid (w1, opened h l) ∙ null_opened h l e)
        | inr e ↦ rw e (
            is_gone-ledger pid (kill_by K h (w1, opened h l))
            ∙ (unfold kill_by in closed-opened h l e))
      ]
