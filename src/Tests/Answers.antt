-- ===== src/Tests/Answers.antt =====
-- A request from `accept` to what its client writes, at a concrete input.
use replstoke.Common.{◌≡◌, refl, arith, codes, ◌+◌, [], ◌∷◌, ◌++◌, true, none, some, concat, false}
use replstoke.Strings.Decimal.{format_uint}
use replstoke.Protocol.Encode.{overhead}
use replstoke.Protocol.Ctl.{ctl_status}
use replstoke.Marker.Search.{find}
use replstoke.Marker.Set.{find_first, end}
use replstoke.Client.{out_markers}
use replstoke.Server.Core.{idle, draining}
use replstoke.Server.Core
use replstoke.Server.Shared
use replstoke.Server.Shared.{ClientConn, ReplStdin}
use replstoke.Server.Supervise.{check_time}
use replstoke.Server.System.{
  after_accept, System, accepting, main_moves, MainStep, Reach, Steps, init, update,
}
use replstoke.Server.System.Service.{Turns, vacant, view, passed}
use replstoke.Server.System.Serves.{seen, Reach-Turns}
use replstoke.Server.System.Opening.{IsFree, status_line, client_at}
use replstoke.Server.System.Stale.{stale_departure}
use replstoke.Server.Threads.{ClientPc}
use replstoke.Protocol.Types.{stream_ctl}
use replstoke.Protocol.Encode.{encode}
use replstoke.Server.System.Answer.{IsClientOf, IsShort, Receives, request_answered}
use replstoke.Tests.Control.{framed}
use replstoke.Tests.Threads.{lim, begun}
use replstoke.Tests.Responses.{settings, own}

abbrev free_repl : ReplStdin
free_repl = record { taken = []; broken = false }

abbrev accepts : System
accepts = record begun { main = accepting }

accepts-Reach : Reach framed lim 7 0 3 accepts
unfolding init Shared.should_stop Core.new Shared.has_warmup check_time
accepts-Reach =
    Reach.later
      (Reach.later (Reach.later Reach.start (main_moves (MainStep.look refl refl)))
        (main_moves (MainStep.time idle refl)))
      (main_moves (MainStep.runs refl))

accepts-IsFree : IsFree accepts free_repl
unfolding init Core.new Shared.has_warmup
accepts-IsFree = record {
  loops = refl;
  rests = refl;
  prints = refl;
  alone = refl;
  calm = refl;
  takes = refl;
  works = refl;
}

settings-IsClientOf : IsClientOf framed settings
settings-IsClientOf = record {
  framed = refl;
  plain = refl;
  same_end = refl;
  same_error = refl;
  silent = refl;
}

accepts-IsShort : IsShort (status_line framed 7 accepts)
unfolding init Core.new Shared.status_fields format_uint overhead ctl_status
accepts-IsShort = omega arith

no_marker : find_first (out_markers settings) (concat (codes "hi" ∷ codes " E" ∷ [])) ≡ none
unfolding find_first out_markers find
no_marker = refl

marker :
    find_first (out_markers settings) (concat (codes "hi" ∷ codes " E" ∷ []) ++ codes "ND.")
    ≡ some (3, 3, end)
unfolding find_first out_markers find
marker = refl

request_answered_example :
    (t : System) × (conn : ClientConn) × Steps framed lim 7 accepts t
    × (t.shared.core.phase ≡ idle)
    × (t.shared.repl_stdin ≡ some (record { taken = [] ++ codes "q"; broken = false }))
    × (t.shared.sink ≡ some conn)
    × Receives own settings conn.wire (concat (codes "hi" ∷ codes " E" ∷ []) ++ codes "ND.")
request_answered_example =
    request_answered framed lim 7 own settings 0 3 accepts free_repl (codes "q")
      (codes "hi" ∷ codes " E" ∷ []) (codes "ND.") (3, 3, end) (omega arith) accepts-Reach
      accepts-IsFree settings-IsClientOf (λ b. refl) accepts-IsShort no_marker marker

abbrev joins : System
joins = record accepts {
  shared = (Shared.register true accepts.shared).0;
  main = after_accept (Shared.register true accepts.shared).1;
}

joins-Reach : Reach framed lim 7 0 4 joins
joins-Reach = Reach.later accepts-Reach (main_moves (MainStep.accept true refl))

Reach-Turns_example : (turns : Turns vacant (view joins.shared)) × (passed turns ≡ seen joins-Reach)
Reach-Turns_example = Reach-Turns framed lim 7 0 4 joins (omega arith) joins-Reach

-- The REPL that client 1 was attached to has exited, and another one is idle; the client's thread still
-- reads.
abbrev behind : System
behind = record accepts {
  shared = record accepts.shared { core = record accepts.shared.core { next_gen = 2 } };
  clients = update accepts.clients 1 ClientPc.reading;
}

behind-IsFree : IsFree behind free_repl
unfolding init Core.new Shared.has_warmup
behind-IsFree = record {
  loops = refl;
  rests = refl;
  prints = refl;
  alone = refl;
  calm = refl;
  takes = refl;
  works = refl;
}

stale_departure_example :
    (t : System) × Steps framed lim 7 behind t
    × (t.shared.repl_stdin ≡ some (record free_repl { taken = [] ++ codes "q" }))
    × (t.shared.sink
        ≡ some (client_at behind (encode [] stream_ctl (ctl_status (status_line framed 7 behind)))))
    × (t.shared.core.phase ≡ draining (some (0 + 5000)))
    × (t.shared.core.serving ≡ false)
unfolding init
stale_departure_example =
    stale_departure framed lim 7 behind free_repl (codes "q") 1 refl behind-IsFree refl refl
      (omega arith)
