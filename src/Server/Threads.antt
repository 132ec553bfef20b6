-- ===== src/Server/Threads.antt =====
-- The pumps and the clients' threads of src/server.rs, step by step. A step is a method of `Shared`, or
-- what a thread does on its own; what a thread has read is in its program counter.
pub mod Rounds
pub mod Answered
use replstoke.Common.{ℕ, ◌≡◌, Bool, true, false, List, [], ◌∷◌, some, Bytes}
use replstoke.Server.Core.{Instant, Phase, Core}
use replstoke.Server.Core
use replstoke.Server.Shared
use replstoke.Server.Shared.{Settings, Shared}
use replstoke.Server.Pump
use replstoke.Server.Pump.{Action, Pump, Seen, pump_chunk, pump_end, perform}

-- A pump: about to read; with a chunk and the phase and `serving` that it saw; with calls still to make;
-- with its last calls behind the end of the output; and ended.
pub data PumpPc : Type 0 where
  reading : PumpPc
  saw : (phase : Phase) (serving : Bool) (chunk : Bytes) → PumpPc
  acting : List Action → PumpPc
  closing : List Action → PumpPc
  ended : PumpPc

pub record PumpThread : Type 0 where
  pub pump : Pump
  pub pc : PumpPc

-- `client_in`: before `wait_until_ready`, before the read, before `request_start`, in `forward_to_repl`
-- before its wait, before its write and behind a failed write, before `client_gone`, and ended. A
-- generation that was not given out is `absent`.
pub data ClientPc : Type 0 where
  absent waiting reading : ClientPc
  got forwarding writing failed : (chunk : Bytes) → ClientPc
  leaving gone : ClientPc

-- What the second reading of a chunk sees.
unfoldable pub look_at : Phase → Bool → Shared → Seen
look_at phase serving sh = record {
  phase = phase;
  serving = serving;
  booting = Core.is_booting sh.core;
  warmup_sent = sh.warmup_sent;
  req_seq = sh.core.req_seq;
}

module _ (cfg : Settings) where
  -- `pump`, for one stream.
  pub data PumpStep (is_err : Bool) (now : Instant)
      : Shared → PumpThread → Shared → PumpThread → Type 0 where
    read :
        {sh : Shared} {p : Pump} (chunk : Bytes)
        → PumpStep is_err now sh
            (record { pump = p; pc = reading })
            sh
            (record { pump = p; pc = saw sh.core.phase sh.core.serving chunk })
    scan :
        {sh : Shared} {p : Pump} {phase : Phase} {serving : Bool} {chunk : Bytes}
        → PumpStep is_err now sh
            (record { pump = p; pc = saw phase serving chunk })
            sh
            (record {
              pump = (pump_chunk cfg p (look_at phase serving sh) chunk).0;
              pc = acting (pump_chunk cfg p (look_at phase serving sh) chunk).1;
            })
    act :
        {sh : Shared} {p : Pump} {a : Action} {as' : List Action}
        → PumpStep is_err now sh
            (record { pump = p; pc = acting (a ∷ as') })
            (perform cfg is_err now a sh)
            (record { pump = p; pc = acting as' })
    again :
        {sh : Shared} {p : Pump}
        → PumpStep is_err now sh
            (record { pump = p; pc = acting [] })
            sh
            (record { pump = p; pc = reading })
    read_end :
        {sh : Shared} {p : Pump}
        → PumpStep is_err now sh
            (record { pump = p; pc = reading })
            sh
            (record { pump = p; pc = closing (pump_end cfg p) })
    close :
        {sh : Shared} {p : Pump} {a : Action} {as' : List Action}
        → PumpStep is_err now sh
            (record { pump = p; pc = closing (a ∷ as') })
            (perform cfg is_err now a sh)
            (record { pump = p; pc = closing as' })
    exit :
        {sh : Shared} {p : Pump}
        → PumpStep is_err now sh
            (record { pump = p; pc = closing [] })
            sh
            (record { pump = p; pc = ended })

  -- `client_in` of the client with generation `gen`.
  pub data ClientStep (signalled : Bool) (now : Instant) (gen : ℕ)
      : Shared → ClientPc → Shared → ClientPc → Type 0 where
    ready :
        {sh : Shared}
        → Shared.look_ready signalled sh ≡ some true
        → ClientStep signalled now gen sh waiting sh reading
    give_up :
        {sh : Shared}
        → Shared.look_ready signalled sh ≡ some false
        → ClientStep signalled now gen sh waiting sh leaving
    read : {sh : Shared} (chunk : Bytes) → ClientStep signalled now gen sh reading sh (got chunk)
    read_end : {sh : Shared} → ClientStep signalled now gen sh reading sh leaving
    start :
        {sh : Shared} {chunk : Bytes}
        → ClientStep signalled now gen sh
            (got chunk)
            (Shared.request_start cfg sh)
            (forwarding chunk)
    go_on :
        {sh : Shared} {chunk : Bytes}
        → Shared.look_ready signalled sh ≡ some true
        → ClientStep signalled now gen sh (forwarding chunk) sh (writing chunk)
    drop_input :
        {sh : Shared} {chunk : Bytes}
        → Shared.look_ready signalled sh ≡ some false
        → ClientStep signalled now gen sh (forwarding chunk) sh leaving
    write :
        {sh sh' : Shared} {chunk : Bytes}
        → Shared.try_forward chunk sh ≡ (sh', true)
        → ClientStep signalled now gen sh (writing chunk) sh' waiting
    fail :
        {sh sh' : Shared} {chunk : Bytes}
        → Shared.try_forward chunk sh ≡ (sh', false)
        → ClientStep signalled now gen sh (writing chunk) sh' (failed chunk)
    retry :
        {sh : Shared} {chunk : Bytes}
        → Shared.should_stop sh signalled ≡ false
        → ClientStep signalled now gen sh (failed chunk) sh (forwarding chunk)
    stop :
        {sh : Shared} {chunk : Bytes}
        → Shared.should_stop sh signalled ≡ true
        → ClientStep signalled now gen sh (failed chunk) sh leaving
    leave :
        {sh : Shared}
        → ClientStep signalled now gen sh leaving (Shared.client_gone cfg now gen sh) gone

  -- Both threads of a REPL that has just been spawned.
  abbrev pub fresh_pump : Bool → PumpThread
  fresh_pump is_err = record { pump = Pump.start cfg is_err; pc = reading }
