-- ===== src/Tests/Timeouts.antt =====
-- A client that times out, at a concrete input: src/client.rs.
use replstoke.Common.{refl, arith, some, err, codes, Bytes, true}
use replstoke.Error.{AppError, failure}
use replstoke.Client.{conclude}
use replstoke.Client.Watchdog.{
  Watched, WatchStep, WatchSteps, stay, next, watch, ended, finished, over, Outcome, watch_outcome,
}

abbrev seconds : Bytes
seconds = codes "0.1"

abbrev closed : AppError
closed = failure (codes "closed")

abbrev late : Watched
late = record {
  reader = ended (conclude (err closed) true seconds);
  dog = over;
  timed_out = true;
  shut = true;
  now = 105;
}

abbrev returned : Watched
returned = record {
  reader = finished (err closed);
  dog = over;
  timed_out = true;
  shut = true;
  now = 105;
}

returns_late : WatchSteps seconds (watch (some 100) 0) returned
unfolding watch
returns_late =
    next (next (next stay (WatchStep.tick 105)) (WatchStep.fire 100 refl tt (omega arith)))
      (WatchStep.finish (err closed) refl)

ends_late : WatchSteps seconds returned late
ends_late =
    next (next stay (WatchStep.release (err closed) refl)) (WatchStep.join (err closed) refl refl)

watch_outcome_example :
    Outcome seconds (some 100) 0 105 (err closed) (conclude (err closed) true seconds)
watch_outcome_example =
    watch_outcome seconds (some 100) 0 returned late (err closed)
      (conclude (err closed) true seconds) returns_late refl ends_late refl
