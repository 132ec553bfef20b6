-- ===== src/Server/Threads/Rounds.antt =====
-- Whole rounds of the `repl_out` thread of src/server.rs while no other thread moves: a chunk, from the
-- read to the last call that it leads to.
use replstoke.Common.{
  ℕ, ◌≡◌, ◌∙◌, refl, Bool, true, false, List, [], ◌∷◌, ◌++◌, Option, none, some, arith, inl, Bytes,
  append_assoc, append-nil, ltb,
}
use replstoke.Protocol.Types.{stream_out, IoError}
use replstoke.Protocol.Encode.{encode}
use replstoke.Protocol.Framing.{overhead_lem}
use replstoke.Protocol.RoundTrip.{Spells, encode-Spells, append-Spells}
use replstoke.Marker.Set.{find_first, Match}
use replstoke.Marker.Response
use replstoke.Marker.Response.{ResponseScanner}
use replstoke.Marker.ResponseLaws.{feed-settings}
use replstoke.Marker.Watch.{Watches, feed_quiet}
use replstoke.Marker.Complete.{sent-hold, sent_found}
use replstoke.Server.Core.{Instant, Phase, Core, busy, idle}
use replstoke.Server.Core
use replstoke.Server.Shared
use replstoke.Server.Shared.{Settings, Shared, ClientConn, route_out}
use replstoke.Server.Shared.Delivery.{route_out_lem}
use replstoke.Server.Pump.{Action, output, Pump, Seen, deliver, pump_chunk, perform}
use replstoke.Server.Pump.Routes.{InRequest, in_request, boundary}
use replstoke.Server.Threads.{look_at}

perform-stdin :
    (cfg : Settings) (is_err : Bool) (now : Instant) (a : Action) (sh : Shared)
    → (perform cfg is_err now a sh).repl_stdin ≡ sh.repl_stdin
unfolding perform
perform-stdin cfg is_err now Action.signal_ready sh = refl
perform-stdin cfg is_err now Action.warmup_done sh = ground arith
perform-stdin cfg is_err now Action.response_end sh = refl
perform-stdin cfg is_err now (output b to_client) sh = ground arith

module _ (cfg : Settings) (now : Instant) where
  abbrev pub performs : List Action → Shared → Shared
  performs [] sh = sh
  performs (a ∷ as') sh = performs as' (perform cfg false now a sh)

  -- The shared state and the pump behind a chunk.
  unfoldable pub round : Shared × Pump → Bytes → Shared × Pump
  round (sh, p) chunk =
      let (q, acts) = pump_chunk cfg p (look_at sh.core.phase sh.core.serving sh) chunk in
      (performs acts sh, q)

  abbrev pub rounds : Shared × Pump → List Bytes → Shared × Pump
  rounds x [] = x
  rounds x (c ∷ cs) = rounds (round x c) cs

  pub performs-append :
      (as' bs : List Action) (sh : Shared) → performs (as' ++ bs) sh ≡ performs bs (performs as' sh)
  performs-append [] bs sh = refl
  performs-append (a ∷ as') bs sh = performs-append as' bs (perform cfg false now a sh)

  pub rounds-append :
      (cs ds : List Bytes) (x : Shared × Pump) → rounds x (cs ++ ds) ≡ rounds (rounds x cs) ds
  rounds-append [] ds x = refl
  rounds-append (c ∷ cs) ds x = rounds-append cs ds (round x c)

  performs-stdin : (as' : List Action) (sh : Shared) → (performs as' sh).repl_stdin ≡ sh.repl_stdin
  performs-stdin [] sh = refl
  performs-stdin (a ∷ as') sh =
      performs-stdin as' (perform cfg false now a sh) ∙ perform-stdin cfg false now a sh

  pub rounds-stdin :
      (cs : List Bytes) (x : Shared × Pump) → (rounds x cs).0.repl_stdin ≡ x.0.repl_stdin
  unfolding round
  rounds-stdin [] x = refl
  rounds-stdin (c ∷ cs) (sh, p) =
      let acts = (pump_chunk cfg p (look_at sh.core.phase sh.core.serving sh) c).1 in
      rounds-stdin cs (round (sh, p) c) ∙ performs-stdin acts sh

  -- Output for a client on a connection that works.
  record Delivered (sh sh' : Shared) (conn : ClientConn) (sent wire b : Bytes) : Type 0 where
    core : sh'.core ≡ sh.core
    more : Bytes
    attached : sh'.sink ≡ some (record conn { wire = conn.wire ++ (wire ++ more) })
    spelled :
        (f : Option IoError) (rest : Bytes) → Spells f stream_out (sent ++ b) rest (wire ++ more)

  delivered :
      (sh : Shared) (conn : ClientConn) (sent wire b : Bytes)
      → cfg.protocol ≡ true
      → conn.broken ≡ false
      → sh.sink ≡ some (record conn { wire = conn.wire ++ wire })
      → ((f : Option IoError) (rest : Bytes) → Spells f stream_out sent rest wire)
      → Delivered sh (performs (deliver b true) sh) conn sent wire b
  unfolding perform
  delivered sh conn sent wire [] framed works attached spells = record {
    core = refl;
    more = [];
    attached = rw append-nil attached;
    spelled = rw (append-nil sent, append-nil wire) spells;
  }
  delivered sh conn sent wire (x ∷ b) framed works attached spells =
      let (goes, _, _, _) =
        route_out_lem cfg (x ∷ b) sh (record conn { wire = conn.wire ++ wire }) framed attached
          works in
      record {
        core = rw goes refl;
        more = encode [] stream_out (x ∷ b);
        attached = rw (goes, append_assoc) refl;
        spelled = λ f rest.
            append-Spells f stream_out sent (x ∷ b) rest wire (encode [] stream_out (x ∷ b))
              (spells f (encode [] stream_out (x ∷ b) ++ rest))
              (encode-Spells f stream_out (x ∷ b) rest (omega arith)
                (omega (arith, overhead_lem stream_out)));
      }

  -- In the middle of a response: `sent` of its text has gone out, as `wire`, and the scanner holds back
  -- the rest.
  pub record Responding (x : Shared × Pump) (conn : ClientConn) (sc : ResponseScanner)
      (sent text wire : Bytes) : Type 0 where
    pub busy : x.0.core.phase ≡ Phase.busy
    pub current : x.0.core.req_seq ≡ x.1.scanned_seq
    pub scans : x.1.scanner ≡ some sc
    pub attached : x.0.sink ≡ some (record conn { wire = conn.wire ++ wire })
    pub spelled : (f : Option IoError) (rest : Bytes) → Spells f stream_out sent rest wire
    pub plain : sc.strip ≡ false
    pub watches : Watches sc sent text

  module _ (framed : cfg.protocol ≡ true) (x : Shared × Pump) (conn : ClientConn)
      (works : conn.broken ≡ false) (sc : ResponseScanner) (sent text wire c : Bytes)
      (r : Responding x conn sc sent text wire) where
    abbrev fed : ResponseScanner × Bytes × ℕ
    fed = Response.feed sc c

    abbrev seen : Seen
    seen = look_at x.0.core.phase x.0.core.serving x.0

    abbrev sent_on : Shared
    sent_on = performs (deliver fed.1 true) x.0

    scans_on : InRequest cfg x.1 seen c sc
    unfolding look_at
    scans_on = record { framed = framed; flight = inl r.busy; current = r.current; scans = r.scans }

    round_lem :
        round x c
        ≡ (performs (boundary cfg x.1 seen c fed.2) sent_on, record x.1 { scanner = some fed.0 })
    unfolding round
    round_lem =
        rw (in_request cfg x.1 seen c sc scans_on)
          (rw (performs-append (deliver fed.1 true) (boundary cfg x.1 seen c fed.2) x.0))

    goes_out : Delivered x.0 sent_on conn sent wire fed.1
    goes_out = delivered x.0 conn sent wire fed.1 framed works r.attached r.spelled

    -- A chunk with no marker in the stream so far.
    pub round-Responding :
        find_first sc.markers (text ++ c) ≡ none
        → (more : Bytes) × Responding
            (round x c)
            conn
            fed.0
            (sent ++ fed.1)
            (text ++ c)
            (wire ++ more)
          × ((round x c).0.core ≡ x.0.core)
    round-Responding clear =
        let (watches, silent) = feed_quiet sc sent text c r.watches clear in
        let d = goes_out in
        (
          d.more,
          rw (round_lem, silent)
              (record {
                busy = rw d.core r.busy;
                current = rw d.core r.current;
                scans = refl;
                attached = d.attached;
                spelled = d.spelled;
                plain = (feed-settings sc c).1 ∙ r.plain;
                watches = watches;
              }),
          rw (round_lem, silent) d.core,
        )

    -- The chunk that completes a marker.
    pub round_ends :
        (m : Match)
        → find_first sc.markers (text ++ c) ≡ some m
        → let sh = (round x c).0 in
          (sh.core ≡ record x.0.core { phase = idle })
          × ((more : Bytes) × (sh.sink ≡ some (record conn { wire = conn.wire ++ (wire ++ more) }))
              × ((f : Option IoError) (rest : Bytes)
                  → Spells f stream_out (sent ++ fed.1) rest (wire ++ more)))
          × ((k : Match) × (find_first sc.markers (sent ++ fed.1) ≡ some k))
          × ((sent ++ fed.1) ++ fed.0.hold ≡ text ++ c)
    unfolding perform Shared.response_end Core.response_end
    round_ends m e =
        let (k, pos) = sent_found sc sent text c r.watches r.plain m e in
        let d = goes_out in
        let here : ltb 0 fed.2 ≡ true = ground arith in
        rw (round_lem, here)
          (
            rw (d.core, r.busy) refl,
            (d.more, d.attached, d.spelled),
            k,
            sent-hold sc sent text c r.watches r.plain,
          )
