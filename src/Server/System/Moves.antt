-- ===== src/Server/System/Moves.antt =====
-- Steps of a pump or a client's thread of src/server.rs: lemmas for the system of threads.
use replstoke.Common.{
  ℕ, ◌+◌, ◌≤◌, ◌<◌, ◌^◌, ◌≡◌, ◌≢◌, refl, ap, Bool, Option, none, some, arith, Bytes,
}
use replstoke.Marker.Response.{ResponseScanner}
use replstoke.Server.Core.{Phase, Instant, booting, warmup, idle, busy, draining, stopped}
use replstoke.Server.Shared.{Settings, Shared}
use replstoke.Server.Pump.{Pump, Seen, pump_chunk, response_chunk, renew, scan_chunk}
use replstoke.Server.Threads.{PumpThread, ClientPc, absent, PumpStep, ClientStep, look_at}
use replstoke.Server.System.Methods.{
  IsSane, perform-IsSane, request_start-IsSane, client_gone-IsSane, try_forward-IsSane,
}
use replstoke.Server.System.Counts.{
  Counted, Grows, same-Grows, perform-Grows, request_start-Grows, client_gone-Grows,
  try_forward-Grows,
}

scan_chunk-seq :
    (p : Pump) (sc : Option ResponseScanner) (c : Bytes)
    → (scan_chunk p sc c).0.scanned_seq ≡ p.scanned_seq
unfolding scan_chunk
scan_chunk-seq p none c = refl
scan_chunk-seq p (some sc) c = refl

renew-seq :
    (cfg : Settings) (p : Pump) (seq : ℕ)
    → p.scanned_seq ≤ seq
    → (renew cfg p seq).0.scanned_seq ≤ seq
unfolding renew
renew-seq cfg p seq h = ground arith

response_chunk-seq :
    (cfg : Settings) (p : Pump) (s : Seen) (c : Bytes)
    → p.scanned_seq ≤ s.req_seq
    → (response_chunk cfg p s c).0.scanned_seq ≤ s.req_seq
unfolding response_chunk
response_chunk-seq cfg p s c h =
    let q = (renew cfg p s.req_seq).0 in
    omega (arith, renew-seq cfg p s.req_seq, scan_chunk-seq q q.scanner c)

pump_chunk-seq :
    (cfg : Settings) (p : Pump) (s : Seen) (ph : Phase) (c : Bytes)
    → s.phase ≡ ph
    → p.scanned_seq ≤ s.req_seq
    → (pump_chunk cfg p s c).0.scanned_seq ≤ s.req_seq
unfolding pump_chunk
pump_chunk-seq cfg p s busy c e h = ground (arith, response_chunk-seq cfg p s c)
pump_chunk-seq cfg p s (draining d) c e h = ground (arith, response_chunk-seq cfg p s c)
pump_chunk-seq cfg p s (booting t) c e h = ground arith
pump_chunk-seq cfg p s (warmup t) c e h = ground arith
pump_chunk-seq cfg p s idle c e h = ground arith
pump_chunk-seq cfg p s stopped c e h = ground arith

-- What a step of a thread other than the main loop keeps.
pub record Moves (cfg : Settings) (n : ℕ) (sh sh' : Shared) : Type 0 where
  pub sane : IsSane cfg sh'
  pub grows : Grows n sh sh'

module _ (cfg : Settings) (n : ℕ) (few : n + 2 < 2 ^ 64) where
  pub PumpStep-Moves :
      {is_err : Bool} {now : Instant} {sh sh' : Shared} {p p' : PumpThread}
      → PumpStep cfg is_err now sh p sh' p'
      → IsSane cfg sh
      → Counted n sh
      → p.pump.scanned_seq ≤ sh.core.req_seq
      → Moves cfg n sh sh' × (p'.pump.scanned_seq ≤ sh'.core.req_seq)
  PumpStep-Moves {sh = sh} (PumpStep.read chunk) v c h =
      (record { sane = v; grows = same-Grows cfg n few sh c }, h)
  PumpStep-Moves {sh = sh} {p = p}
        (PumpStep.scan {phase = phase} {serving = serving} {chunk = chunk}) v c h =
      (
        record { sane = v; grows = same-Grows cfg n few sh c },
        unfold look_at in pump_chunk-seq cfg p.pump (look_at phase serving sh) phase chunk refl h,
      )
  PumpStep-Moves {is_err} {now} {sh = sh} (PumpStep.act {a = a}) v c h =
      let g = perform-Grows cfg n few is_err now a sh c in
      (record { sane = perform-IsSane cfg is_err now a sh v; grows = g }, omega (arith, g.rises))
  PumpStep-Moves {sh = sh} PumpStep.again v c h =
      (record { sane = v; grows = same-Grows cfg n few sh c }, h)
  PumpStep-Moves {sh = sh} PumpStep.read_end v c h =
      (record { sane = v; grows = same-Grows cfg n few sh c }, h)
  PumpStep-Moves {is_err} {now} {sh = sh} (PumpStep.close {a = a}) v c h =
      let g = perform-Grows cfg n few is_err now a sh c in
      (record { sane = perform-IsSane cfg is_err now a sh v; grows = g }, omega (arith, g.rises))
  PumpStep-Moves {sh = sh} PumpStep.exit v c h =
      (record { sane = v; grows = same-Grows cfg n few sh c }, h)

  pub ClientStep-Moves :
      {signalled : Bool} {now : Instant} {gen : ℕ} {sh sh' : Shared} {p p' : ClientPc}
      → ClientStep cfg signalled now gen sh p sh' p'
      → IsSane cfg sh
      → Counted n sh
      → Moves cfg n sh sh' × (p ≢ absent)
  ClientStep-Moves {sh = sh} (ClientStep.start {chunk = chunk}) v c = (
    record { sane = request_start-IsSane cfg sh v; grows = request_start-Grows cfg n few sh c },
    λ e. cc,
  )
  ClientStep-Moves {now = now} {gen} {sh} ClientStep.leave v c = (
    record {
      sane = client_gone-IsSane cfg now gen sh v;
      grows = client_gone-Grows cfg n few now gen sh c;
    },
    λ e. cc,
  )
  ClientStep-Moves {sh = sh} (ClientStep.write {chunk = chunk} e) v c = (
    record {
      sane = rw (← ap (λ x. x.0) e) (try_forward-IsSane cfg chunk sh v);
      grows = rw (← ap (λ x. x.0) e) (try_forward-Grows cfg n few chunk sh c);
    },
    λ e. cc,
  )
  ClientStep-Moves {sh = sh} (ClientStep.fail {chunk = chunk} e) v c = (
    record {
      sane = rw (← ap (λ x. x.0) e) (try_forward-IsSane cfg chunk sh v);
      grows = rw (← ap (λ x. x.0) e) (try_forward-Grows cfg n few chunk sh c);
    },
    λ e. cc,
  )
  ClientStep-Moves {sh = sh} _ v c =
      (record { sane = v; grows = same-Grows cfg n few sh c }, λ e. cc)
