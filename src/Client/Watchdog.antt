-- ===== src/Client/Watchdog.antt =====
-- The end of `run` in src/client.rs: the reading, the watchdog thread and what is made of both, in any
-- order. The watchdog holds the lock of `done` from the end of its wait on, so it fires in one step.
use replstoke.Common.{
  ℕ, ◌+◌, ◌≤◌, ◌≡◌, ◌⊎◌, inl, inr, refl, Bool, true, false, Option, none, some, arith, Bytes, ok,
  err,
}
use replstoke.Error.{AppError, AppResult, exit_timeout}
use replstoke.Client.{conclude}

-- The main thread: in `read_protocol` or `read_raw`, behind it, behind the release of the watchdog, and
-- behind the joins.
pub data ReadPc : Type 0 where
  reading : ReadPc
  finished released ended : (result : AppResult (Unit {0})) → ReadPc

-- The watchdog's thread: waiting until `deadline`, and ended or never started.
pub data DogPc : Type 0 where
  waiting : (deadline : ℕ) → DogPc
  over : DogPc

pub record Watched : Type 0 where
  pub reader : ReadPc
  pub dog : DogPc
  pub timed_out : Bool
  pub shut : Bool  -- the connection, by the watchdog
  pub now : ℕ

-- `run` once the connection is open, at the time `now`.
unfoldable pub watch : Option ℕ → ℕ → Watched
watch none now = record { reader = reading; dog = over; timed_out = false; shut = false; now = now }
watch (some timeout) now = record {
  reader = reading;
  dog = waiting (now + timeout);
  timed_out = false;
  shut = false;
  now = now;
}

-- `done` is not set.
abbrev pub IsUnreleased : ReadPc → Type 0
IsUnreleased reading = Unit
IsUnreleased (finished r) = Unit
IsUnreleased (released r) = ⊥
IsUnreleased (ended r) = ⊥

module _ (seconds : Bytes) where
  -- A step of the main thread, of the watchdog or of the clock. What the reading returns is arbitrary.
  pub data WatchStep (s : Watched) : Watched → Type 0 where
    finish :
        (result : AppResult (Unit {0}))
        → s.reader ≡ reading
        → WatchStep s (record s { reader = finished result })
    release :
        (result : AppResult (Unit {0}))
        → s.reader ≡ finished result
        → WatchStep s (record s { reader = released result })
    join :
        (result : AppResult (Unit {0}))
        → s.reader ≡ released result
        → s.dog ≡ over
        → WatchStep s (record s { reader = ended (conclude result s.timed_out seconds) })
    fire :
        (deadline : ℕ)
        → s.dog ≡ waiting deadline
        → IsUnreleased s.reader
        → deadline ≤ s.now
        → WatchStep s (record s { dog = over; timed_out = true; shut = true })
    wake :
        (deadline : ℕ) (result : AppResult (Unit {0}))
        → s.dog ≡ waiting deadline
        → s.reader ≡ released result
        → WatchStep s (record s { dog = over })
    tick : (d : ℕ) → WatchStep s (record s { now = s.now + d })

  pub data WatchSteps (s : Watched) : Watched → Type 0 where
    stay : WatchSteps s s
    next : {t u : Watched} → WatchSteps s t → WatchStep t u → WatchSteps s u

  -- The clock has reached the deadline of a timeout that was given when the clock showed `start`.
  abbrev pub IsDue : Option ℕ → ℕ → ℕ → Type 0
  IsDue none start now = ⊥
  IsDue (some timeout) start now = start + timeout ≤ now

  -- The watchdog that still waits does so for that deadline.
  abbrev IsFor : Option ℕ → ℕ → DogPc → Type 0
  IsFor timeout start over = Unit
  IsFor none start (waiting d) = ⊥
  IsFor (some timeout) start (waiting d) = d ≡ start + timeout

  record Sound (timeout : Option ℕ) (start : ℕ) (s : Watched) : Type 0 where
    for_it : IsFor timeout start s.dog
    due : s.timed_out ≡ true → IsDue timeout start s.now

  begin-Sound : (timeout : Option ℕ) (start : ℕ) → Sound timeout start (watch timeout start)
  unfolding watch
  begin-Sound none start = record { for_it = tt; due = λ z. cc }
  begin-Sound (some t) start = record { for_it = refl; due = λ z. cc }

  later :
      (timeout : Option ℕ) (start now d : ℕ)
      → IsDue timeout start now
      → IsDue timeout start (now + d)
  later none start now d h = h
  later (some t) start now d h = omega arith

  fired :
      (timeout : Option ℕ) (start now d : ℕ)
      → IsFor timeout start (waiting d)
      → d ≤ now
      → IsDue timeout start now
  fired none start now d h le = h
  fired (some t) start now d h le = omega arith

  step-Sound :
      (timeout : Option ℕ) (start : ℕ) (s : Watched) {t : Watched}
      → Sound timeout start s
      → WatchStep s t
      → Sound timeout start t
  step-Sound timeout start s v (WatchStep.finish r e) = record { for_it = v.for_it; due = v.due }
  step-Sound timeout start s v (WatchStep.release r e) = record { for_it = v.for_it; due = v.due }
  step-Sound timeout start s v (WatchStep.join r e d) = record { for_it = v.for_it; due = v.due }
  step-Sound timeout start s v (WatchStep.fire deadline e before le) = record {
    for_it = tt;
    due = λ z. fired timeout start s.now deadline (rw e at v.for_it) le;
  }
  step-Sound timeout start s v (WatchStep.wake deadline r e d) = record { for_it = tt; due = v.due }
  step-Sound timeout start s v (WatchStep.tick d) = record {
    for_it = v.for_it;
    due = λ z. later timeout start s.now d (v.due z);
  }

  steps-Sound :
      (timeout : Option ℕ) (start : ℕ) {s t : Watched}
      → Sound timeout start s
      → WatchSteps s t
      → Sound timeout start t
  steps-Sound timeout start v stay = v
  steps-Sound timeout start v (next {t = t} run st) =
      step-Sound timeout start t (steps-Sound timeout start v run) st

  -- The reading has returned `r`, and nothing else is made of it than `conclude` does at the end.
  abbrev Bears : AppResult (Unit {0}) → Bool → ReadPc → Type 0
  Bears r late reading = ⊥
  Bears r late (finished x) = x ≡ r
  Bears r late (released x) = x ≡ r
  Bears r late (ended o) = o ≡ conclude r late seconds

  still :
      (r : AppResult (Unit {0})) (before late : Bool) (pc : ReadPc)
      → IsUnreleased pc
      → Bears r before pc
      → Bears r late pc
  still r before late reading h b = b
  still r before late (finished x) h b = b
  still r before late (released x) h b = absurd h
  still r before late (ended o) h b = absurd h

  step-Bears :
      (r : AppResult (Unit {0})) (s : Watched) {t : Watched}
      → Bears r s.timed_out s.reader
      → WatchStep s t
      → Bears r t.timed_out t.reader
  step-Bears r s b (WatchStep.finish x e) = absurd (rw e at b)
  step-Bears r s b (WatchStep.release x e) = rw e at b
  step-Bears r s b (WatchStep.join x e d) = let same : x ≡ r = rw e at b in rw same refl
  step-Bears r s b (WatchStep.fire deadline e before le) =
      still r s.timed_out true s.reader before b
  step-Bears r s b (WatchStep.wake deadline x e d) = b
  step-Bears r s b (WatchStep.tick d) = b

  steps-Bears :
      (r : AppResult (Unit {0})) {s t : Watched}
      → Bears r s.timed_out s.reader
      → WatchSteps s t
      → Bears r t.timed_out t.reader
  steps-Bears r b stay = b
  steps-Bears r b (next {t = t} run st) = step-Bears r t (steps-Bears r b run) st

  -- The outcome `o` of a reading that returned `r`: the same, or the timeout that a failure becomes.
  abbrev pub Outcome : Option ℕ → ℕ → ℕ → AppResult (Unit {0}) → AppResult (Unit {0}) → Type 0
  Outcome timeout start now r o =
      (o ≡ r)
      ⊎ ((e : AppError) × (x : AppError) × (r ≡ err e)
          × (o ≡ err x)
          × (x.code ≡ exit_timeout)
          × IsDue timeout start now)

  concluded :
      (timeout : Option ℕ) (start now : ℕ) (late : Bool) (r o : AppResult (Unit {0}))
      → o ≡ conclude r late seconds
      → (late ≡ true → IsDue timeout start now)
      → Outcome timeout start now r o
  unfolding conclude
  concluded timeout start now late (ok tt) o e due = inl e
  concluded timeout start now false (err x) o e due = inl e
  concluded timeout start now true (err x) o e due = inr (x, _, refl, e, refl, due refl)

  -- In every run of the reading, the watchdog and the clock, in any order: if the reading returned
  -- `r` in it, whatever it is, and the run then ends with the outcome `o`, then `o` is `r`, unless
  -- `r` is a failure, a timeout was given and its time has passed: then `o` may be an error with the
  -- exit code of a timeout. So a success is never reported as a timeout.
  pub watch_outcome :
      (timeout : Option ℕ) (start : ℕ) (s t : Watched) (r o : AppResult (Unit {0}))
      → WatchSteps (watch timeout start) s
      → s.reader ≡ finished r
      → WatchSteps s t
      → t.reader ≡ ended o
      → Outcome timeout start t.now r o
  watch_outcome timeout start s t r o run returned on e =
      let v =
        steps-Sound timeout start (steps-Sound timeout start (begin-Sound timeout start) run) on in
      let born : Bears r s.timed_out s.reader = rw returned refl in
      let is = rw e at (steps-Bears r born on) in
      concluded timeout start t.now t.timed_out r o is v.due
