-- ===== src/Server/System/Streams.antt =====
-- Runs of the threads of src/server.rs: they join, and the pumps stay on their streams.
use replstoke.Common.{ℕ, ◌≡◌, ◌∙◌, refl, false, arith, Bool, Option, none, some, Bytes}
use replstoke.Marker.Response.{ResponseScanner}
use replstoke.Server.Core.{Phase, Instant, booting, warmup, idle, busy, draining, stopped}
use replstoke.Server.Shared.{Settings, Shared}
use replstoke.Server.Pump.{
  Pump, Seen, pump_chunk, response_chunk, renew, scan_chunk, start as start_pump,
}
use replstoke.Server.Supervise.{Limits}
use replstoke.Server.Threads.{PumpThread, PumpStep, look_at}
use replstoke.Server.System.{System, MainStep, Step, Reach, init, Steps, stay, next}

scan_chunk-is_err :
    (p : Pump) (sc : Option ResponseScanner) (c : Bytes) → (scan_chunk p sc c).0.is_err ≡ p.is_err
unfolding scan_chunk
scan_chunk-is_err p none c = refl
scan_chunk-is_err p (some sc) c = refl

renew-is_err : (cfg : Settings) (p : Pump) (seq : ℕ) → (renew cfg p seq).0.is_err ≡ p.is_err
unfolding renew
renew-is_err cfg p seq = ground arith

response_chunk-is_err :
    (cfg : Settings) (p : Pump) (s : Seen) (c : Bytes)
    → (response_chunk cfg p s c).0.is_err ≡ p.is_err
unfolding response_chunk
response_chunk-is_err cfg p s c =
    let q = (renew cfg p s.req_seq).0 in
    scan_chunk-is_err q q.scanner c ∙ renew-is_err cfg p s.req_seq

pump_chunk-is_err :
    (cfg : Settings) (p : Pump) (s : Seen) (ph : Phase) (c : Bytes)
    → s.phase ≡ ph
    → (pump_chunk cfg p s c).0.is_err ≡ p.is_err
unfolding pump_chunk
pump_chunk-is_err cfg p s busy c e = ground (arith, response_chunk-is_err cfg p s c)
pump_chunk-is_err cfg p s (draining d) c e = ground (arith, response_chunk-is_err cfg p s c)
pump_chunk-is_err cfg p s (booting t) c e = ground arith
pump_chunk-is_err cfg p s (warmup t) c e = ground arith
pump_chunk-is_err cfg p s idle c e = ground arith
pump_chunk-is_err cfg p s stopped c e = ground arith

PumpStep-is_err :
    {cfg : Settings} {is_err : Bool} {now : Instant} {sh sh' : Shared} {p p' : PumpThread}
    → PumpStep cfg is_err now sh p sh' p'
    → p'.pump.is_err ≡ p.pump.is_err
PumpStep-is_err (PumpStep.read chunk) = refl
PumpStep-is_err {cfg} {sh = sh} {p = p}
      (PumpStep.scan {phase = phase} {serving = serving} {chunk = chunk}) =
    pump_chunk-is_err cfg p.pump (look_at phase serving sh) phase chunk (unfold look_at in refl)
PumpStep-is_err PumpStep.act = refl
PumpStep-is_err PumpStep.again = refl
PumpStep-is_err PumpStep.read_end = refl
PumpStep-is_err PumpStep.close = refl
PumpStep-is_err PumpStep.exit = refl

-- One run behind another.
pub trans :
    {cfg : Settings} {lim : Limits} {repl_pid : ℕ} {s t u : System}
    → Steps cfg lim repl_pid s t
    → Steps cfg lim repl_pid t u
    → Steps cfg lim repl_pid s u
trans a stay = a
trans a (next b st) = next (trans a b) st

module _ (cfg : Settings) (lim : Limits) (repl_pid : ℕ) where
  main_is_out :
      {s t : System}
      → MainStep cfg lim repl_pid s t
      → s.out.pump.is_err ≡ false
      → t.out.pump.is_err ≡ false
  unfolding start_pump
  main_is_out (MainStep.wires e) h = refl
  main_is_out (MainStep.stop e d) h = h
  main_is_out (MainStep.look e d) h = h
  main_is_out (MainStep.time p e) h = h
  main_is_out (MainStep.runs e) h = h
  main_is_out (MainStep.lost e) h = h
  main_is_out (MainStep.exits e j) h = h
  main_is_out (MainStep.quits e) h = h
  main_is_out (MainStep.respawns e) h = h
  main_is_out (MainStep.fails er e) h = h
  main_is_out (MainStep.waits e) h = h
  main_is_out (MainStep.accept cloned e) h = h
  main_is_out (MainStep.greet gen e) h = h

  step_is_out :
      {s t : System}
      → Step cfg lim repl_pid s t
      → s.out.pump.is_err ≡ false
      → t.out.pump.is_err ≡ false
  step_is_out (Step.out_moves st) h = PumpStep-is_err st ∙ h
  step_is_out (Step.err_moves st) h = h
  step_is_out (Step.client_moves gen st) h = h
  step_is_out (Step.main_moves st) h = main_is_out st h
  step_is_out (Step.tick d) h = h
  step_is_out Step.signal h = h
  step_is_out (Step.hangs_up c e) h = h
  step_is_out (Step.dies w e) h = h

  -- The pump of stdout is one of stdout.
  pub Reach-is_out :
      {now : Instant} {n : ℕ} {s : System}
      → Reach cfg lim repl_pid now n s
      → s.out.pump.is_err ≡ false
  unfolding init start_pump
  Reach-is_out Reach.start = refl
  Reach-is_out (Reach.later r st) = step_is_out st (Reach-is_out r)
