-- ===== src/Client/Response.antt =====
-- A response on `out`, from the server's packets to what the client writes: src/client.rs on top of
-- src/protocol.rs and src/marker.rs.
use replstoke.Common.{
  ℕ, zero, suc, ◌+◌, ◌<◌, ◌≡◌, ◌∙◌, ap, refl, Bool, false, List, [], ◌∷◌, ◌++◌, map, Option, none,
  some, arith, Bytes, length, All, concat, Option-cases, inl, inr, append_assoc, append-nil,
}
use replstoke.Protocol.Types.{stream_out, Packet, IoError}
use replstoke.Protocol.Encode.{encode}
use replstoke.Protocol.Read.{Source}
use replstoke.Protocol.Framing.{source, overhead_lem}
use replstoke.Protocol.Progress.{read_packet_takes}
use replstoke.Protocol.RoundTrip.{Reads, more, Spells, encode-Spells}
use replstoke.Marker.Set.{end, error, Markers, Match, is_empty, find_first}
use replstoke.Marker.Bounds.{NonEmpty, find_first_fits, new-NonEmpty, found_active}
use replstoke.Marker.Scanner
use replstoke.Marker.Scanner.{MarkerScanner, cut_at}
use replstoke.Marker.Stream.{Scanned, feed_FeedsAs, new-Scanned}
use replstoke.Client.{
  OwnStreams, Output, write_out, Settings, Reader, Verdict, finish, on_packet, on_out, read_loop,
  start, read_protocol, scanner_for, out_markers,
}
use replstoke.Client.Reading.{goes_on, stops}

-- The own stdout takes every write.
abbrev pub Works : OwnStreams → Type 0
Works own = (b : Bytes) → own.out_fails b ≡ none

pub write_out_lem :
    (own : OwnStreams) (b : Bytes) (w : Output)
    → Works own
    → write_out own b w ≡ (record w { out = w.out ++ b }, none)
unfolding write_out
write_out_lem own [] w works = rw append-nil refl
write_out_lem own (x ∷ b) w works = rw (works w.out) refl

on_packet-out :
    (own : OwnStreams) (cfg : Settings) (r : Reader) (k : Packet)
    → k.stream ≡ stream_out
    → on_packet own cfg r k ≡ on_out own r k.payload
unfolding on_packet
on_packet-out own cfg r k e = rw e

-- The result of the loop for a stream `whole`: a part of it, from its start, holds a marker; what is
-- written is that part up to its first match, and the outcome is the marker's.
abbrev pub Answers : Markers → Bool → Bytes → Bytes → Reader × Verdict → Type 0
Answers ms strip whole errors x =
    (seen : Bytes) × (unseen : Bytes) × (m : Match) × (seen ++ unseen ≡ whole)
    × (find_first ms seen ≡ some m)
    × (x.0.written ≡ record { out = cut_at strip seen m.0 m.1; err_out = errors })
    × (x.1 ≡ some (finish m.2))

-- The reader has written `out` of the stream `text`, in which no marker was seen.
record Follows (r : Reader) (sc : MarkerScanner) (out text errors : Bytes) : Type 0 where
  scans : r.out_scanner ≡ some sc
  wrote : r.written ≡ record { out = out; err_out = errors }
  scanned : Scanned sc out text
  unseen : find_first sc.markers text ≡ none

module _ (own : OwnStreams) (works : Works own) (r : Reader) (sc : MarkerScanner)
    (out text errors c : Bytes) (w : Follows r sc out text errors) where
  out_more :
      find_first sc.markers (text ++ c) ≡ none
      → (sc' : MarkerScanner) × (out' : Bytes) × ((on_out own r c).1 ≡ none)
        × (sc'.markers ≡ sc.markers)
        × (sc'.strip ≡ sc.strip)
        × Follows (on_out own r c).0 sc' out' (text ++ c) errors
  unfolding on_out
  out_more e =
      let (sc', b, fed, same, strips, seen) = rw e at (feed_FeedsAs sc out text c w.scanned) in
      (
        sc',
        out ++ b,
        rw (on_out, w.scans, fed, write_out_lem own b r.written works),
        same,
        strips,
        record {
          scans = rw (on_out, w.scans, fed);
          wrote = rw (on_out, w.scans, fed, write_out_lem own b r.written works, w.wrote);
          scanned = seen;
          unseen = rw (same, e);
        },
      )

  out_done :
      (m : Match)
      → find_first sc.markers (text ++ c) ≡ some m
      → ((on_out own r c).0.written
          ≡ record { out = cut_at sc.strip (text ++ c) m.0 m.1; err_out = errors })
        × ((on_out own r c).1 ≡ some (finish m.2))
  unfolding on_out
  out_done (p, n, o) e =
      let (sc', b, fed, cut) = rw e at (feed_FeedsAs sc out text c w.scanned) in
      (
        rw (on_out, w.scans, fed, write_out_lem own b r.written works, w.wrote, cut),
        rw (on_out, w.scans, fed, write_out_lem own b r.written works),
      )

abbrev payloads : List Packet → Bytes
payloads ks = concat (map (λ k. k.payload) ks)

answered :
    (fuel : ℕ) (own : OwnStreams) (works : Works own) (cfg : Settings) (r : Reader) (s t : Source)
    (sc : MarkerScanner) (out text errors : Bytes) (ks : List Packet) (m : Match)
    → Reads s ks t
    → All (λ k. k.stream ≡ stream_out) ks
    → Follows r sc out text errors
    → length s.pending < fuel
    → find_first sc.markers (text ++ payloads ks) ≡ some m
    → Answers sc.markers sc.strip (text ++ payloads ks) errors (read_loop fuel own cfg r s)
answered zero own works cfg r s t sc out text errors ks m reads named w h found =
    absurd (omega arith)
answered (suc fuel) own works cfg r s t sc out text errors [] m reads named w h found =
    let none_found : find_first sc.markers text ≡ some m = rw append-nil at found in
    absurd (ground (arith, w.unseen))
answered (suc fuel) own works cfg r s t sc out text errors (k ∷ ks) m (more {t = next} read reads)
      named w h found =
    let here = on_packet-out own cfg r k named.0 in
    let whole = append_assoc text k.payload (payloads ks) in
    elim (Option-cases (find_first sc.markers (text ++ k.payload))) [
      | inr ((p, n, o), e) ↦
          let (wrote, ends) = out_done own works r sc out text errors k.payload w (p, n, o) e in
          rw (stops fuel own cfg r s next k (finish o) read (ap (λ x. x.1) here ∙ ends)) (
            text ++ k.payload,
            payloads ks,
            (p, n, o),
            whole,
            e,
            ap (λ x. x.0.written) here ∙ wrote,
            refl,
          )
      | inl e ↦
          let (sc', out', goes, same, strips, w') =
            out_more own works r sc out text errors k.payload w e in
          let rest =
            answered fuel own works cfg (on_packet own cfg r k).0 next t sc' out'
              (text ++ k.payload) errors ks m reads named.1 (rw here w')
              (omega (arith, read_packet_takes s k next read)) (rw (same, whole) found) in
          rw (goes_on fuel own cfg r s next k read (ap (λ x. x.1) here ∙ goes))
            (rw (same, strips, whole) at rest)
    ]

abbrev fresh_scanner : Settings → MarkerScanner
fresh_scanner cfg = record {
  markers = out_markers cfg;
  strip = cfg.strip_marker_stdout;
  hold = [];
  finished = false;
}

scanner_for-fresh :
    (cfg : Settings)
    → is_empty (out_markers cfg) ≡ false
    → scanner_for (out_markers cfg) cfg.strip_marker_stdout ≡ some (fresh_scanner cfg)
unfolding scanner_for
scanner_for-fresh cfg e = rw e

new-fresh :
    (cfg : Settings)
    → is_empty (out_markers cfg) ≡ false
    → Scanner.new (out_markers cfg) cfg.strip_marker_stdout ≡ some (fresh_scanner cfg)
unfolding Scanner.new
new-fresh cfg e = rw e

out_markers-NonEmpty : (cfg : Settings) → NonEmpty (out_markers cfg).list
unfolding out_markers
out_markers-NonEmpty cfg =
    new-NonEmpty ((cfg.end_marker_stdout, end) ∷ (cfg.error_marker_stdout, error) ∷ [])

nothing_found : (cfg : Settings) → find_first (out_markers cfg) [] ≡ none
nothing_found cfg = elim (Option-cases (find_first (out_markers cfg) [])) [
  | inl e ↦ e
  | inr ((p, n, o), e) ↦
      let fits = find_first_fits (out_markers cfg) [] p n o (out_markers-NonEmpty cfg) e in
      absurd (omega arith)
]

start-Follows :
    (cfg : Settings)
    → is_empty (out_markers cfg) ≡ false
    → Follows (start cfg) (fresh_scanner cfg) [] [] []
unfolding start
start-Follows cfg e = record {
  scans = scanner_for-fresh cfg e;
  wrote = refl;
  scanned = new-Scanned (out_markers cfg) cfg.strip_marker_stdout (new-fresh cfg e);
  unseen = nothing_found cfg;
}

-- What the loop makes of packets that spell a response on `out`, with the client's first reader.
pub read_loop-Spells :
    (fuel : ℕ) (own : OwnStreams) (cfg : Settings) (f : Option IoError) (p rest bytes : Bytes)
    (m : Match)
    → Works own
    → length (bytes ++ rest) < fuel
    → Spells f stream_out p rest bytes
    → find_first (out_markers cfg) p ≡ some m
    → (seen : Bytes) × (unseen : Bytes) × (n : Match) × (seen ++ unseen ≡ p)
      × (find_first (out_markers cfg) seen ≡ some n)
      × ((read_loop fuel own cfg (start cfg) (source f (bytes ++ rest))).0.written
          ≡ record { out = cut_at cfg.strip_marker_stdout seen n.0 n.1; err_out = [] })
      × ((read_loop fuel own cfg (start cfg) (source f (bytes ++ rest))).1 ≡ some (finish n.2))
read_loop-Spells fuel own cfg f p rest bytes m works enough spelled found =
    let s = source f (bytes ++ rest) in
    let begins = start-Follows cfg (found_active (out_markers cfg) p m found) in
    let whole : find_first (out_markers cfg) (payloads spelled.packets) ≡ some m =
      rw spelled.whole found in
    let (seen, unseen, n, parts, first, wrote, ends) =
      answered fuel own works cfg (start cfg) s (source f rest) (fresh_scanner cfg) [] [] []
        spelled.packets m spelled.reads spelled.named begins enough whole in
    (seen, unseen, n, parts ∙ spelled.whole, first, wrote, ends)

-- For the REPL's response as the server puts it on the wire for stdout, whatever follows it there, and
-- with an own stdout that takes every write: if the response holds a marker that the client looks for
-- on stdout, then some part of it, from its start, holds a marker, and the client writes exactly that
-- part up to its first match, with the marker unless stripped, nothing to stderr, and returns with that
-- marker's outcome.
pub read_protocol-encode :
    (own : OwnStreams) (cfg : Settings) (f : Option IoError) (p rest : Bytes) (m : Match)
    → Works own
    → find_first (out_markers cfg) p ≡ some m
    → (seen : Bytes) × (unseen : Bytes) × (n : Match) × (seen ++ unseen ≡ p)
      × (find_first (out_markers cfg) seen ≡ some n)
      × (read_protocol own cfg (source f (encode [] stream_out p ++ rest)) ≡ (
        record { out = cut_at cfg.strip_marker_stdout seen n.0 n.1; err_out = [] },
        some (finish n.2),
      ))
unfolding read_protocol
read_protocol-encode own cfg f p rest m works found =
    let bytes = encode [] stream_out p in
    let spelled =
      encode-Spells f stream_out p rest (omega arith) (omega (arith, overhead_lem stream_out)) in
    let (seen, unseen, n, parts, first, wrote, ends) =
      read_loop-Spells (length (bytes ++ rest) + 1) own cfg f p rest bytes m works (omega arith)
        spelled found in
    (seen, unseen, n, parts, first, rw (wrote, ends))
