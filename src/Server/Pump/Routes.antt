-- ===== src/Server/Pump/Routes.antt =====
-- Where a pump sends the REPL's output, and when it ends a response.
use replstoke.Common.{
  ℕ, ◌≡◌, ◌≢◌, ◌∙◌, refl, ap, Bool, true, false, List, [], ◌∷◌, ◌++◌, Option, none, some, arith,
  ◌↔◌, ◌⊎◌, Bytes, inl, inr, append_assoc, append-nil, ltb, if◌then◌else◌, ◌==◌, ==_iff,
}
use replstoke.Marker.Set.{find_first}
use replstoke.Marker.Response
use replstoke.Marker.Response.{ResponseScanner}
use replstoke.Marker.Scanner.{MarkerScanner}
use replstoke.Marker.ResponseLaws.{feed_keeps}
use replstoke.Marker.Watch.{Watches, boundary_iff}
use replstoke.Server.Core.{Phase, booting, warmup, idle, busy, draining, stopped}
use replstoke.Server.Shared.{Settings}
use replstoke.Server.Pump.{
  Action, signal_ready, warmup_done, response_end, output, Pump, Seen, deliver, flushed,
  detect_ready, detect_warmup, boot_chunk, warmup_chunk, framed_chunk, renew, scan_chunk,
  response_chunk, pump_chunk, response_scanner_for,
}

-- The bytes that the actions send to the client, if one is attached.
abbrev pub client_bytes : List Action → Bytes
client_bytes [] = []
client_bytes (output bytes true ∷ as') = bytes ++ client_bytes as'
client_bytes (a ∷ as') = client_bytes as'

-- Whether the actions end a response.
abbrev pub ends : List Action → Bool
ends [] = false
ends (response_end ∷ as') = true
ends (a ∷ as') = ends as'

-- The phases in which nothing is for the client.
abbrev pub IsWithheld : Bool → Phase → Bool → Type 0
IsWithheld protocol (booting since) serving = Unit
IsWithheld protocol (warmup since) serving = Unit
IsWithheld protocol stopped serving = protocol ≡ true
IsWithheld protocol idle serving = (protocol ≡ true) × (serving ≡ false)
IsWithheld protocol _ serving = ⊥

client_bytes-append :
    (xs ys : List Action) → client_bytes (xs ++ ys) ≡ client_bytes xs ++ client_bytes ys
client_bytes-append [] ys = refl
client_bytes-append (output b true ∷ xs) ys = rw (client_bytes-append xs ys, append_assoc)
client_bytes-append (output b false ∷ xs) ys = client_bytes-append xs ys
client_bytes-append (signal_ready ∷ xs) ys = client_bytes-append xs ys
client_bytes-append (warmup_done ∷ xs) ys = client_bytes-append xs ys
client_bytes-append (response_end ∷ xs) ys = client_bytes-append xs ys

withheld_deliver : (b : Bytes) → client_bytes (deliver b false) ≡ []
withheld_deliver [] = refl
withheld_deliver (x ∷ b) = refl

client_deliver : (b : Bytes) → client_bytes (deliver b true) ≡ b
client_deliver [] = refl
client_deliver (x ∷ b) = append-nil (x ∷ b)

quiet_ready :
    (b : Bool) (rs : Option MarkerScanner) (chunk : Bytes)
    → client_bytes (detect_ready b rs chunk).1 ≡ []
unfolding detect_ready
quiet_ready b none chunk = refl
quiet_ready b (some rs) chunk = ground arith

quiet_warmup :
    (b : Bool) (ws : Option MarkerScanner) (chunk : Bytes)
    → client_bytes (detect_warmup b ws chunk).1 ≡ []
unfolding detect_warmup
quiet_warmup b none chunk = refl
quiet_warmup b (some ws) chunk = ground arith

module _ (cfg : Settings) (p : Pump) (s : Seen) (chunk : Bytes) where
  boot_quiet : client_bytes (boot_chunk p s chunk).1 ≡ []
  unfolding boot_chunk
  boot_quiet =
      rw
        (
          client_bytes-append (detect_ready s.booting p.ready_scanner chunk).1
              (deliver chunk false),
          quiet_ready s.booting p.ready_scanner chunk,
        )
        (withheld_deliver chunk)

  warmup_quiet : client_bytes (warmup_chunk p s chunk).1 ≡ []
  unfolding warmup_chunk
  warmup_quiet =
      rw
        (
          client_bytes-append (detect_warmup s.warmup_sent p.warmup_scanner chunk).1
              (deliver chunk false),
          quiet_warmup s.warmup_sent p.warmup_scanner chunk,
        )
        (withheld_deliver chunk)

  withheld_by :
      (ph : Phase)
      → s.phase ≡ ph
      → IsWithheld cfg.protocol ph s.serving
      → client_bytes (pump_chunk cfg p s chunk).1 ≡ []
  unfolding pump_chunk
  withheld_by (booting t) e h = ground (arith, boot_quiet)
  withheld_by (warmup t) e h = ground (arith, warmup_quiet)
  withheld_by idle e h = ground (arith, withheld_deliver chunk)
  withheld_by stopped e h = ground (arith, withheld_deliver chunk)
  withheld_by busy e h = absurd h
  withheld_by (draining d) e h = absurd h

  -- While the REPL boots or runs its warmup nothing that it prints goes to a client, in either mode;
  -- nor, with framing, once the server has stopped, or while it is idle and serves nobody.
  pub withheld :
      IsWithheld cfg.protocol s.phase s.serving → client_bytes (pump_chunk cfg p s chunk).1 ≡ []
  withheld = withheld_by s.phase refl

  -- A chunk of the request whose scanner the pump has.
  pub record InRequest (sc : ResponseScanner) : Type 0 where
    pub framed : cfg.protocol ≡ true
    pub flight : (s.phase ≡ busy) ⊎ ((d : Option ℕ) × (s.phase ≡ draining d))
    pub current : s.req_seq ≡ p.scanned_seq
    pub scans : p.scanner ≡ some sc

  abbrev pub boundary : ℕ → List Action
  boundary n = if ltb 0 n then response_end ∷ [] else []

  abbrev pub scanned : ResponseScanner → Pump × List Action
  scanned sc = (
    record p { scanner = some (Response.feed sc chunk).0 },
    deliver (Response.feed sc chunk).1 true ++ boundary (Response.feed sc chunk).2,
  )

  renew_same : s.req_seq ≡ p.scanned_seq → renew cfg p s.req_seq ≡ (p, [])
  unfolding renew
  renew_same e = rw ((==_iff s.req_seq p.scanned_seq).1 e)

  scan_some : (sc : ResponseScanner) → scan_chunk p (some sc) chunk ≡ scanned sc
  unfolding scan_chunk
  scan_some sc = refl

  response_same : (sc : ResponseScanner) → InRequest sc → response_chunk cfg p s chunk ≡ scanned sc
  unfolding response_chunk
  response_same sc r = simp (renew_same r.current, r.scans) (scan_some sc)

  pub in_request : (sc : ResponseScanner) → InRequest sc → pump_chunk cfg p s chunk ≡ scanned sc
  unfolding pump_chunk
  in_request sc r = simp r.framed (by_phase r.flight)
    where
      by_phase :
          (s.phase ≡ busy) ⊎ ((d : Option ℕ) × (s.phase ≡ draining d))
          → framed_chunk cfg p s s.phase chunk ≡ scanned sc
      by_phase (inl e) = simp e (response_same sc r)
      by_phase (inr (d, e)) = simp e (response_same sc r)

  boundary_silent : (n : ℕ) → client_bytes (boundary n) ≡ []
  boundary_silent n = ground arith

  ends-boundary : (b : Bytes) (n : ℕ) → (ends (deliver b true ++ boundary n) ≡ false) ↔ (n ≡ 0)
  ends-boundary [] n = ground arith
  ends-boundary (x ∷ b) n = ground arith

  -- With framing, while a request is in flight and the pump scans it without stripping: what a chunk
  -- sends to the client followed by what the scanner then holds is what it held followed by the
  -- chunk, and the response is ended with this chunk exactly if the stream since the last boundary
  -- holds a marker.
  pub InRequest-exact :
      (sc : ResponseScanner) (passed text : Bytes)
      → InRequest sc
      → Watches sc passed text
      → sc.strip ≡ false
      → (client_bytes (pump_chunk cfg p s chunk).1 ++ (Response.feed sc chunk).0.hold
          ≡ sc.hold ++ chunk)
        × ((pump_chunk cfg p s chunk).0.scanner ≡ some (Response.feed sc chunk).0)
        × ((ends (pump_chunk cfg p s chunk).1 ≡ false)
            ↔ (find_first sc.markers (text ++ chunk) ≡ none))
  InRequest-exact sc passed text r w plain = (
    rw
        (
          in_request sc r,
          client_bytes-append (deliver (Response.feed sc chunk).1 true)
              (boundary (Response.feed sc chunk).2),
          client_deliver (Response.feed sc chunk).1,
          boundary_silent (Response.feed sc chunk).2,
          append-nil (Response.feed sc chunk).1,
        )
        (feed_keeps sc chunk w.sound plain),
    rw (in_request sc r),
    rw (in_request sc r) (
      (λ h.
          (boundary_iff sc passed text chunk w).0
            ((ends-boundary (Response.feed sc chunk).1 (Response.feed sc chunk).2).0 h)),
      λ h.
          (ends-boundary (Response.feed sc chunk).1 (Response.feed sc chunk).2).1
            ((boundary_iff sc passed text chunk w).1 h),
    ),
  )

-- Chunks seen in `Idle` do not touch the scanner.
idle_chunk :
    (cfg : Settings) (p : Pump) (s : Seen) (chunk : Bytes)
    → cfg.protocol ≡ true
    → s.phase ≡ idle
    → pump_chunk cfg p s chunk ≡ (p, deliver chunk s.serving)
unfolding pump_chunk
idle_chunk cfg p s chunk framed e = simp (framed, e)

-- The first chunk of the next request.
next_request :
    (cfg : Settings) (p : Pump) (s : Seen) (chunk : Bytes)
    → cfg.protocol ≡ true
    → s.phase ≡ busy
    → s.req_seq ≢ p.scanned_seq
    → (fresh : Pump) × ((pump_chunk cfg p s chunk).1
        ≡ flushed p.scanner ++ (scan_chunk fresh (response_scanner_for cfg p.is_err) chunk).1)
unfolding pump_chunk response_chunk renew
next_request cfg p s chunk framed e other = (
  record p { scanner = response_scanner_for cfg p.is_err; scanned_seq = s.req_seq },
  simp (framed, e, renewed),
)
  where
    renewed : (s.req_seq == p.scanned_seq) ≡ false
    renewed = ground arith

-- With framing, output while the REPL is idle and its client is served goes to the client past the
-- bytes that the scanner still holds, and the next request sends those bytes to the server's own stream
-- before it scans afresh.
pub held_bytes_leave_client :
    (cfg : Settings) (p : Pump) (s t : Seen) (sc : ResponseScanner) (c d : Bytes)
    → cfg.protocol ≡ true
    → p.scanner ≡ some sc
    → s.phase ≡ idle
    → s.serving ≡ true
    → t.phase ≡ busy
    → t.req_seq ≢ p.scanned_seq
    → (client_bytes (pump_chunk cfg p s c).1 ≡ c)
      × ((fresh : Pump) × ((pump_chunk cfg (pump_chunk cfg p s c).0 t d).1
            ≡ deliver sc.hold false ++ (scan_chunk fresh (response_scanner_for cfg p.is_err) d).1))
held_bytes_leave_client cfg p s t sc c d framed holds e serves e' other =
    let quiet = idle_chunk cfg p s c framed e in
    let (fresh, acts) = next_request cfg p t d framed e' other in
    let out = (scan_chunk fresh (response_scanner_for cfg p.is_err) d).1 in
    (
      rw (quiet, serves) (client_deliver c),
      (fresh, rw quiet (acts ∙ ap (λ o. flushed o ++ out) holds)),
    )
