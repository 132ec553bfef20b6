-- ===== src/Tests/Sockets.antt =====
-- The system of src/platform/windows.rs and of src/transport.rs at concrete inputs.
use replstoke.Common.{
  ℕ, ◌+◌, ◌≡◌, refl, arith, Bool, true, false, [], ◌∷◌, none, some, ok, ltb, if◌then◌else◌,
}
use replstoke.Platform.Windows.{Kernel, after_spawn, terminate, terminate_pid}
use replstoke.Platform.Windows.Ledger.{ledgered, IsClock}
use replstoke.Platform.Windows.Terminate.{Returns, terminate_pid-settles, guard_closes_once}
use replstoke.Transport.{Sockets, Listener, Stream, accept}
use replstoke.Transport.Blocking.{Sets, Blocks, of_stream, of_listener, accept-Blocks}

-- The state is the time. The process ends at 50, and each handle is 5.
abbrev kernel : Kernel ℕ
kernel = record {
  create_job_object = λ w. (w, 5);
  set_information_job_object = λ h n info w. w;
  assign_process_to_job_object = λ h p w. w;
  open_process = λ a p w. (w, 5);
  terminate_process = λ h c w. w;
  wait_for_single_object = λ h d w. (w, if ltb w 50 then 258 else 0);
  generate_console_ctrl_event = λ e p w. w;
  close_handle = λ h w. w;
  now = λ w. (w, w);
  sleep = λ d w. w + d;
}

kernel-IsClock : IsClock kernel (λ w. w)
kernel-IsClock = record {
  reads = λ w. omega arith;
  now_later = λ w. omega arith;
  sleep_later = λ d w. omega arith;
  open_later = λ a p w. omega arith;
  wait_later = λ h d w. omega arith;
  close_later = λ h w. omega arith;
}

terminate_pid-settles_example :
    Returns kernel
      (λ w. w)
      kernel-IsClock
      7
      (some (3 ∷ []))
      (terminate_pid (ledgered kernel) 6 7 100 (0, some (3 ∷ [])))
terminate_pid-settles_example =
    terminate_pid-settles kernel (λ w. w) kernel-IsClock 5 7 100 0 (some (3 ∷ [])) (omega arith)

guard_closes_once_example :
    let spawned = after_spawn (ledgered kernel) 9 7 (0, some []) in
    let guard = spawned.1 in
    let once = terminate (ledgered kernel) guard spawned.0 in
    (spawned.0.1 ≡ some (guard.job ∷ []))
    × (once.1 ≡ some [])
    × ((terminate (ledgered kernel) guard once).1 ≡ none)
guard_closes_once_example = guard_closes_once kernel 9 7 0 (unfold after_spawn in omega arith)

-- A system whose state is whether the socket that was accepted last waits; accepted sockets inherit
-- that they do not.
abbrev net : {A : Type 0} → Sockets A Bool
net = record {
  bind = λ a w. (w, ok 3);
  accept = λ l w. (false, ok 4);
  connect = λ a w. (w, ok 5);
  set_nonblocking = λ s b w. (if b then false else true, ok tt);
  try_clone = λ s w. (w, ok 6);
  shutdown = λ s how w. (w, ok tt);
  read = λ s n w. (w, ok []);
  write = λ s buf w. (w, ok 0);
  flush = λ s w. (w, ok tt);
}

net-Sets : {A : Type 0} → Sets (net {A = A}) (λ s w. w ≡ true)
net-Sets = record { sets = λ s w w' e. cc }

accept-Blocks_example :
    (of_stream (Stream.unix 4) ≡ of_listener (Listener.unix 3))
    × Blocks (λ s w. w ≡ true) (λ s w. w ≡ true) (Stream.unix 4) true
unfolding accept
accept-Blocks_example =
    accept-Blocks net net (λ s w. w ≡ true) (λ s w. w ≡ true) net-Sets net-Sets (Listener.unix 3)
      false true (Stream.unix 4) refl
