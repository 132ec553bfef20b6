-- ===== src/Client/Greeting.antt =====
-- The server's greeting and its response behind it, as src/client.rs reads them.
use replstoke.Common.{
  suc, ◌+◌, ◌≤◌, ◌<◌, ◌≡◌, ap, ◌∙◌, [], ◌++◌, Option, none, some, arith, Bytes, codes, length,
  length-append, All,
}
use replstoke.Strings.Utf8.{IsAscii}
use replstoke.Protocol.Types.{stream_out, stream_ctl, max_packet, Packet, IoError}
use replstoke.Protocol.Encode.{encode, encode_one, overhead}
use replstoke.Protocol.Ctl.{ctl_status, parse_ctl-round_trip}
use replstoke.Protocol.Framing.{source, read_packet-encode_one}
use replstoke.Protocol.Progress.{read_packet_takes}
use replstoke.Protocol.RoundTrip.{Spells, encode_short}
use replstoke.Marker.Set.{Match, find_first}
use replstoke.Marker.Scanner.{cut_at}
use replstoke.Client.{
  OwnStreams, Settings, ignore, on_packet, on_ctl, read_loop, start, read_protocol, out_markers,
  finish,
}
use replstoke.Client.Reading.{goes_on}
use replstoke.Client.Response.{Works, read_loop-Spells}

module _ (own : OwnStreams) (cfg : Settings) (silent : cfg.ctl ≡ ignore) (line : Bytes)
    (ascii : All IsAscii line) where
  abbrev greeting : Packet
  greeting = record { stream = stream_ctl; payload = ctl_status line }

  greeted : on_packet own cfg (start cfg) greeting ≡ (start cfg, none)
  unfolding on_packet on_ctl
  greeted = rw ((parse_ctl-round_trip line ascii).0, on_ctl, silent)

  some_byte : 0 < length (ctl_status line)
  unfolding ctl_status
  some_byte = omega (arith, length-append (codes "status ") line)

  -- The client passes the greeting over and goes on with the response.
  pub greeted_response :
      (f : Option IoError) (p rest bytes : Bytes) (m : Match)
      → Works own
      → overhead stream_ctl + length (ctl_status line) ≤ max_packet
      → Spells f stream_out p rest bytes
      → find_first (out_markers cfg) p ≡ some m
      → (seen : Bytes) × (unseen : Bytes) × (n : Match) × (seen ++ unseen ≡ p)
        × (find_first (out_markers cfg) seen ≡ some n)
        × (read_protocol own cfg
              (source f (encode [] stream_ctl (ctl_status line) ++ (bytes ++ rest)))
            ≡ (
              record { out = cut_at cfg.strip_marker_stdout seen n.0 n.1; err_out = [] },
              some (finish n.2),
            ))
  unfolding read_protocol
  greeted_response f p rest bytes m works short spelled found =
      let same = encode_short stream_ctl (ctl_status line) some_byte short in
      let all = encode_one [] stream_ctl (ctl_status line) ++ (bytes ++ rest) in
      let read =
        read_packet-encode_one f stream_ctl (ctl_status line) (bytes ++ rest) (omega arith) short in
      let shorter = read_packet_takes (source f all) greeting (source f (bytes ++ rest)) read in
      let (seen, unseen, n, parts, first, wrote, ends) =
        read_loop-Spells (length all) own cfg f p rest bytes m works shorter spelled found in
      let passes : read_loop (suc (length all)) own cfg (start cfg) (source f all)
          ≡ read_loop (length all) own cfg (start cfg) (source f (bytes ++ rest)) =
        goes_on (length all) own cfg (start cfg) (source f all) (source f (bytes ++ rest)) greeting
          read (ap (λ x. x.1) greeted)
        ∙ ap (λ x. read_loop (length all) own cfg x.0 (source f (bytes ++ rest))) greeted in
      let one : length all + 1 ≡ suc (length all) = omega arith in
      (seen, unseen, n, parts, first, rw (same, one, passes, wrote, ends))
