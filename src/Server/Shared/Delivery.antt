-- ===== src/Server/Shared/Delivery.antt =====
-- What of the REPL's stdout reaches the client and the server's own stdout: `route_out` of src/server.rs.
use replstoke.Common.{◌≡◌, refl, true, false, [], ◌++◌, Option, none, some, arith, Bytes}
use replstoke.Protocol.Types.{stream_out, IoError}
use replstoke.Protocol.Encode.{encode}
use replstoke.Protocol.Framing.{overhead_lem}
use replstoke.Protocol.RoundTrip.{Spells, encode-Spells}
use replstoke.Server.Shared.{Settings, ClientConn, Shared, route_out}

-- With framing and a client attached whose connection works, output for the client goes on its wire
-- only, as packets that spell it; output that is not for the client, or finds none attached, goes to
-- the server's stdout only.
pub route_out_lem :
    (cfg : Settings) (chunk : Bytes) (sh : Shared) (conn : ClientConn)
    → cfg.protocol ≡ true
    → sh.sink ≡ some conn
    → conn.broken ≡ false
    → (route_out cfg chunk true sh ≡ record sh {
      sink = some (record conn { wire = conn.wire ++ encode [] stream_out chunk });
    })
      × ((f : Option IoError) (rest : Bytes)
          → Spells f stream_out chunk rest (encode [] stream_out chunk))
      × (route_out cfg chunk false sh ≡ record sh { stdout = sh.stdout ++ chunk })
      × (route_out cfg chunk true (record sh { sink = none })
          ≡ record sh { sink = none; stdout = sh.stdout ++ chunk })
unfolding route_out
route_out_lem cfg chunk sh conn framed attached works = (
  simp (attached, framed, works),
  (λ f rest.
      encode-Spells f stream_out chunk rest (omega arith) (omega (arith, overhead_lem stream_out))),
  simp attached,
  refl,
)
