-- ===== src/Platform/Terminate.antt =====
-- `terminate_pid` of src/platform/unix.rs: it ends, and what its answer says.
use replstoke.Common.{
  ℕ, zero, suc, ◌+◌, ◌*◌, ◌≤◌, ◌≡◌, Bool, true, false, Option, none, some, arith, ◌⊎◌, inl, inr,
  Bytes, leb, Bool-cases, leb_of_le,
}
use replstoke.Platform.{
  ℤ, Os, as_i32, sigkill, sigterm, is_zombie, is_alive, stat_path, wait_gone, force, after_wait,
  terminate_pid,
}

-- What the clock of the documented system does: `now` reads it, a sleep takes at least its time, and no
-- call turns it back.
pub record IsClock {W : Type 0} (os : Os W) (clock : W → ℕ) : Type 0 where
  pub reads : (w : W) → clock w ≤ (os.now w).1
  pub now_later : (w : W) → (os.now w).1 ≤ clock (os.now w).0
  pub sleep_later : (d : ℕ) (w : W) → clock w + d ≤ clock (os.sleep d w)
  pub kill_later : (p : ℤ) (s : ℕ) (w : W) → clock w ≤ clock (os.kill p s w).0
  pub read_later : (path : Bytes) (w : W) → clock w ≤ clock (os.read_to_string path w).0

module _ {W : Type 0} (os : Os W) where
  -- What the answer rests on: the last test of the process, or a SIGKILL that was delivered.
  abbrev pub Gone : ℕ → W → Type 0
  Gone pid w =
      ((v : W) × (is_alive os pid v ≡ (w, false)))
      ⊎ ((v : W) × (os.kill (as_i32 pid) sigkill v ≡ (w, true)))

  abbrev pub Survives : ℕ → W → Type 0
  Survives pid w =
      (v : W) × ((os.kill (as_i32 pid) sigkill v).1 ≡ false)
      × (is_alive os pid (os.kill (as_i32 pid) sigkill v).0 ≡ (w, true))

  abbrev pub Answers : ℕ → W → Bool → Type 0
  Answers pid w true = Gone pid w
  Answers pid w false = Survives pid w

  module _ (clock : W → ℕ) (law : IsClock os clock) where
    is_alive-later : (pid : ℕ) (w : W) → clock w ≤ clock (is_alive os pid w).0
    unfolding is_alive
    is_alive-later pid w =
        let k = law.kill_later (as_i32 pid) 0 w in
        let r = law.read_later (stat_path pid) (os.kill (as_i32 pid) 0 w).0 in
        unfold is_zombie in ground (arith, k, r)

    abbrev Waited : ℕ → Option (W × Bool) → Type 0
    Waited pid none = ⊥
    Waited pid (some (w, true)) = (v : W) × (is_alive os pid v ≡ (w, false))
    Waited pid (some (w, false)) = Unit

    -- Each round sleeps 20 ms.
    wait_gone-Waited :
        (fuel pid deadline : ℕ) (w : W)
        → deadline ≤ clock w + 20 * fuel
        → Waited pid (wait_gone os (suc fuel) pid deadline w)
    unfolding wait_gone
    wait_gone-Waited zero pid deadline w h =
        rw (leb_of_le deadline (os.now w).1 (omega (arith, law.reads w))) tt
    wait_gone-Waited (suc fuel) pid deadline w h =
        let w1 = (os.now w).0 in
        let x = is_alive os pid w1 in
        let rec = wait_gone-Waited fuel pid deadline (os.sleep 20 x.0) (
          omega
            (arith, law.reads w, law.now_later w, is_alive-later pid w1, law.sleep_later 20 x.0)) in
        elim (Bool-cases (leb deadline (os.now w).1)) [
          | inl e ↦ rw e tt
          | inr e ↦ elim (Bool-cases x.1) [
            | inl a ↦ rw (e, a) rec
            | inr a ↦ rw (e, a) (w1, (λ i. (x.0, a i)))
          ]
        ]

    abbrev pub Returns : ℕ → Option (W × Bool) → Type 0
    Returns pid none = ⊥
    Returns pid (some (w, gone)) = Answers pid w gone

    force-Answers : (pid : ℕ) (w : W) → Answers pid (force os pid w).0 (force os pid w).1
    unfolding force
    force-Answers pid w =
        let k = os.kill (as_i32 pid) sigkill w in
        let x = is_alive os pid k.0 in
        elim (Bool-cases k.1) [
          | inl e ↦ rw e (inr (w, (λ i. (k.0, e i))))
          | inr e ↦ elim (Bool-cases x.1) [
            | inl a ↦ rw (e, a) (w, e, (λ i. (x.0, a i)))
            | inr a ↦ rw (e, a) (inl (k.0, (λ i. (x.0, a i))))
          ]
        ]

    after_wait-Returns :
        (pid : ℕ) (o : Option (W × Bool)) → Waited pid o → Returns pid (after_wait os pid o)
    unfolding after_wait
    after_wait-Returns pid none h = absurd h
    after_wait-Returns pid (some (w, true)) h = inl h
    after_wait-Returns pid (some (w, false)) h = force-Answers pid w

    -- With a round for every 20 ms of the timeout, `terminate_pid` returns.
    pub terminate_pid-Returns :
        (fuel pid timeout : ℕ) (w : W)
        → timeout ≤ 20 * fuel
        → Returns pid (terminate_pid os (suc fuel) pid timeout w)
    unfolding terminate_pid
    terminate_pid-Returns fuel pid timeout w h =
        let x = is_alive os pid w in
        let k = os.kill (as_i32 pid) sigterm x.0 in
        let t = os.now k.0 in
        let loop =
          wait_gone-Waited fuel pid (t.1 + timeout) t.0 (omega (arith, h, law.now_later k.0)) in
        elim (Bool-cases x.1) [
          | inl e ↦
              rw e (after_wait-Returns pid (wait_gone os (suc fuel) pid (t.1 + timeout) t.0) loop)
          | inr e ↦ rw e (inl (w, (λ i. (x.0, e i))))
        ]
