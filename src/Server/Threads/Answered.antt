-- ===== src/Server/Threads/Answered.antt =====
-- A whole response through the `repl_out` thread of src/server.rs, chunk by chunk.
use replstoke.Common.{
  ◌≡◌, ◌≢◌, refl, true, false, List, [], ◌∷◌, ◌++◌, Option, none, some, arith, inl, inr, Bytes,
  concat, append_assoc, append-nil, ◌==◌, ==_iff, Bool-cases,
}
use replstoke.Protocol.Types.{stream_out, IoError}
use replstoke.Protocol.RoundTrip.{Spells, nil_Spells}
use replstoke.Marker.Set.{Markers, find_first, Match, is_empty, end, error, new as new_markers}
use replstoke.Marker.Response
use replstoke.Marker.Response.{ResponseScanner}
use replstoke.Marker.Bounds.{found_active}
use replstoke.Marker.Prefix.{find_first-prefix_none}
use replstoke.Marker.ResponseLaws.{feed-settings}
use replstoke.Marker.Watch.{new-Watches}
use replstoke.Server.Core.{Instant, busy, idle}
use replstoke.Server.Shared.{Settings, Shared, ClientConn, is_some}
use replstoke.Server.Pump
use replstoke.Server.Pump.{
  Action, output, Pump, Seen, flushed, renew, scan_chunk, response_chunk, pump_chunk, perform,
  response_scanner_for,
}
use replstoke.Server.Threads.{look_at}
use replstoke.Server.Threads.Rounds.{
  performs, performs-append, round, rounds, Responding, round-Responding, round_ends,
}

-- The markers that the server looks for on stdout.
abbrev pub stdout_markers : Settings → Markers
stdout_markers cfg =
    new_markers ((cfg.end_marker_stdout, end) ∷ (cfg.error_marker_stdout, error) ∷ [])

to_server :
    (cfg : Settings) (now : Instant) (b : Bytes) (sh : Shared)
    → perform cfg false now (output b false) sh ≡ record sh { stdout = sh.stdout ++ b }
unfolding perform
to_server cfg now b sh = elim (Bool-cases (is_some sh.sink)) [ inl e ↦ rw e | inr e ↦ rw e ]

module _ (cfg : Settings) (now : Instant) where
  -- Chunks without a marker in the stream so far, and then one that completes one.
  pub record Answered (x y : Shared × Pump) (conn : ClientConn) (ms : Markers) (whole : Bytes)
      : Type 0 where
    pub done : y.0.core ≡ record x.0.core { phase = idle }
    pub sent : Bytes
    pub held : Bytes
    pub wire : Bytes
    pub match : Match
    pub attached : y.0.sink ≡ some (record conn { wire = conn.wire ++ wire })
    pub spelled : (f : Option IoError) (rest : Bytes) → Spells f stream_out sent rest wire
    pub found : find_first ms sent ≡ some match
    pub all : sent ++ held ≡ whole

  rounds-Answered :
      (cs : List Bytes) (x : Shared × Pump) (conn : ClientConn) (sc : ResponseScanner)
      (sent text wire c : Bytes) (m : Match)
      → cfg.protocol ≡ true
      → conn.broken ≡ false
      → Responding cfg now x conn sc sent text wire
      → find_first sc.markers (text ++ concat cs) ≡ none
      → find_first sc.markers (text ++ concat cs ++ c) ≡ some m
      → Answered x (round cfg now (rounds cfg now x cs) c) conn sc.markers (text ++ concat cs ++ c)
  rounds-Answered [] x conn sc sent text wire c m framed works r clear found =
      let (core, (more, attached, spelled), (k, is), all) =
        round_ends cfg now framed x conn works sc sent text wire c r m (rw append-nil at found) in
      record {
        done = core;
        sent = sent ++ (Response.feed sc c).1;
        held = (Response.feed sc c).0.hold;
        wire = wire ++ more;
        match = k;
        attached = attached;
        spelled = spelled;
        found = is;
        all = rw (append-nil text) all;
      }
  rounds-Answered (d ∷ cs) x conn sc sent text wire c m framed works r clear found =
      let ms = sc.markers in
      let joined = append_assoc text d (concat cs) in
      let before : find_first ms ((text ++ d) ++ concat cs) ≡ none = rw joined clear in
      let here =
        find_first-prefix_none ms (text ++ d) (concat cs) r.watches.sound.nonempty before in
      let (more, r', core) =
        round-Responding cfg now framed x conn works sc sent text wire d r here in
      let same = (feed-settings sc d).0 in
      let rest =
        rounds-Answered cs (round cfg now x d) conn (Response.feed sc d).0
          (sent ++ (Response.feed sc d).1) (text ++ d) (wire ++ more) c m framed works r'
          (rw same before) (rw (same, joined) found) in
      let back : Answered x (round cfg now (rounds cfg now (round cfg now x d) cs) c) conn
          sc.markers ((text ++ d) ++ concat cs ++ c) =
        record {
          done = rw (rest.done, core);
          sent = rest.sent;
          held = rest.held;
          wire = rest.wire;
          match = rest.match;
          attached = rest.attached;
          spelled = rest.spelled;
          found = rw same at rest.found;
          all = rest.all;
        } in
      rw (← joined) back

  abbrev renewed : Shared × Pump → Pump
  renewed x = record x.1 {
    scanner = response_scanner_for cfg x.1.is_err;
    scanned_seq = x.0.core.req_seq;
  }

  -- The chunk is scanned as by a pump that has the request's scanner, once the old one has let go.
  flush_lem :
      (sc : Option ResponseScanner) (sh : Shared)
      → (out : Bytes) × (performs cfg now (flushed sc) sh ≡ record sh { stdout = out })
  flush_lem none sh = (sh.stdout, refl)
  flush_lem (some sc) sh = at sc.hold
    where
      at :
          (b : Bytes)
          → (out : Bytes) × (performs cfg now (Pump.deliver b false) sh
              ≡ record sh { stdout = out })
      at [] = (sh.stdout, refl)
      at (y ∷ b) = (sh.stdout ++ y ∷ b, to_server cfg now (y ∷ b) sh)

  renewed_chunk :
      (p : Pump) (s : Seen) (c : Bytes)
      → cfg.protocol ≡ true
      → s.phase ≡ busy
      → s.req_seq ≢ p.scanned_seq
      → let q = record p { scanner = response_scanner_for cfg p.is_err; scanned_seq = s.req_seq } in
        let (r, acts) = pump_chunk cfg q s c in
        pump_chunk cfg p s c ≡ (r, flushed p.scanner ++ acts)
  unfolding pump_chunk response_chunk renew
  renewed_chunk p s c framed e other =
      let changed : (s.req_seq == p.scanned_seq) ≡ false = ground arith in
      let same : (s.req_seq == s.req_seq) ≡ true = (==_iff s.req_seq s.req_seq).1 refl in
      simp (framed, e, changed, same)

  first_round :
      (x : Shared × Pump) (c : Bytes)
      → cfg.protocol ≡ true
      → x.0.core.phase ≡ busy
      → x.0.core.req_seq ≢ x.1.scanned_seq
      → (sh : Shared) × (round cfg now x c ≡ round cfg now (sh, renewed x) c)
        × (sh.core ≡ x.0.core)
        × (sh.sink ≡ x.0.sink)
  unfolding round look_at
  first_round x c framed e other =
      let (out, flushes) = flush_lem x.1.scanner x.0 in
      (
        record x.0 { stdout = out },
        rw (
          renewed_chunk x.1 (look_at x.0.core.phase x.0.core.serving x.0) c framed e other,
          performs-append cfg now (flushed x.1.scanner)
              (pump_chunk cfg (renewed x) (look_at x.0.core.phase x.0.core.serving x.0) c).1 x.0,
          flushes,
        ),
        refl,
        refl,
      )

  abbrev fresh_scanner : ResponseScanner
  fresh_scanner = Response.new (stdout_markers cfg) cfg.strip_out

  fresh-Responding :
      (sh : Shared) (p : Pump) (conn : ClientConn)
      → cfg.protocol ≡ true
      → cfg.strip_out ≡ false
      → is_empty (stdout_markers cfg) ≡ false
      → sh.core.phase ≡ busy
      → sh.sink ≡ some conn
      → sh.core.req_seq ≡ p.scanned_seq
      → p.scanner ≡ response_scanner_for cfg false
      → Responding cfg now (sh, p) conn fresh_scanner [] [] []
  unfolding response_scanner_for Response.new
  fresh-Responding sh p conn framed plain active e attached current scans = record {
    busy = e;
    current = current;
    scans = rw (scans, framed);
    attached = rw (attached, append-nil);
    spelled = λ f rest. nil_Spells f stream_out rest (omega arith);
    plain = plain;
    watches =
        new-Watches ((cfg.end_marker_stdout, end) ∷ (cfg.error_marker_stdout, error) ∷ [])
          cfg.strip_out active;
  }

  -- From a renewed pump.
  from_fresh :
      (cs : List Bytes) (sh : Shared) (p : Pump) (conn : ClientConn) (c : Bytes) (m : Match)
      → cfg.protocol ≡ true
      → cfg.strip_out ≡ false
      → conn.broken ≡ false
      → sh.core.phase ≡ busy
      → sh.sink ≡ some conn
      → sh.core.req_seq ≡ p.scanned_seq
      → p.scanner ≡ response_scanner_for cfg false
      → find_first (stdout_markers cfg) (concat cs) ≡ none
      → find_first (stdout_markers cfg) (concat cs ++ c) ≡ some m
      → Answered
          (sh, p)
          (round cfg now (rounds cfg now (sh, p) cs) c)
          conn
          (stdout_markers cfg)
          (concat cs ++ c)
  unfolding Response.new
  from_fresh cs sh p conn c m framed plain works e attached current scans clear found =
      let active = found_active (stdout_markers cfg) (concat cs ++ c) m found in
      rounds-Answered cs (sh, p) conn fresh_scanner [] [] [] c m framed works
        (fresh-Responding sh p conn framed plain active e attached current scans) clear found

  same_start :
      (x z y : Shared × Pump) (conn : ClientConn) (whole : Bytes)
      → z.0.core ≡ x.0.core
      → Answered z y conn (stdout_markers cfg) whole
      → Answered x y conn (stdout_markers cfg) whole
  same_start x z y conn whole core a = record {
    done = rw (a.done, core);
    sent = a.sent;
    held = a.held;
    wire = a.wire;
    match = a.match;
    attached = a.attached;
    spelled = a.spelled;
    found = a.found;
    all = a.all;
  }

  -- The pump of stdout answers a request that is in flight and new to it.
  pub answers :
      (cs : List Bytes) (x : Shared × Pump) (conn : ClientConn) (c : Bytes) (m : Match)
      → cfg.protocol ≡ true
      → cfg.strip_out ≡ false
      → conn.broken ≡ false
      → x.0.core.phase ≡ busy
      → x.0.sink ≡ some conn
      → x.0.core.req_seq ≢ x.1.scanned_seq
      → x.1.is_err ≡ false
      → find_first (stdout_markers cfg) (concat cs) ≡ none
      → find_first (stdout_markers cfg) (concat cs ++ c) ≡ some m
      → Answered x
          (round cfg now (rounds cfg now x cs) c)
          conn
          (stdout_markers cfg)
          (concat cs ++ c)
  answers [] x conn c m framed plain works e attached other is_out clear found =
      let (sh, same, core, sink) = first_round x c framed e other in
      let a =
        from_fresh [] sh (renewed x) conn c m framed plain works (rw core e) (rw sink attached)
          (rw core refl) (rw is_out refl) clear found in
      rw same (
        same_start x (sh, renewed x) (round cfg now (sh, renewed x) c) conn (concat [] ++ c) core a)
  answers (d ∷ cs) x conn c m framed plain works e attached other is_out clear found =
      let (sh, same, core, sink) = first_round x d framed e other in
      let a =
        from_fresh (d ∷ cs) sh (renewed x) conn c m framed plain works (rw core e)
          (rw sink attached) (rw core refl) (rw is_out refl) clear found in
      rw same (
        same_start x (sh, renewed x)
          (round cfg now (rounds cfg now (round cfg now (sh, renewed x) d) cs) c) conn
          (concat (d ∷ cs) ++ c) core a)
