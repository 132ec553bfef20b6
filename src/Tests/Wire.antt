-- ===== src/Tests/Wire.antt =====
-- Packets and control messages at concrete inputs: src/protocol.rs.
use replstoke.Common.{◌≡◌, [], ◌++◌, some, none, arith, Bytes, codes, ok}
use replstoke.Strings.Decimal.{format_uint, parse_uint, format_padded, parse_uint-format_padded}
use replstoke.Protocol.Types.{stream_out}
use replstoke.Protocol.Encode.{encode, encode_one, overhead}
use replstoke.Protocol.Read.{read_packet}
use replstoke.Protocol.Framing.{source, read_packet-encode_one}
use replstoke.Protocol.Ctl.{status, error, parse_ctl, ctl_status, ctl_error, parse_ctl-round_trip}
use replstoke.Protocol.RoundTrip.{Spells, encode-Spells}

abbrev hi : Bytes
hi = codes "hi"

encode-Spells_example : Spells none stream_out hi (codes "#") (encode [] stream_out hi)
unfolding overhead format_uint
encode-Spells_example = encode-Spells none stream_out hi (codes "#") (omega arith) (omega arith)

parse_ctl-round_trip_example :
    (parse_ctl (ctl_status hi) ≡ status hi) × (parse_ctl (ctl_error hi) ≡ error hi)
parse_ctl-round_trip_example = parse_ctl-round_trip hi (omega arith)

parse_uint-format_padded_example : parse_uint 65535 (format_padded 5 29) ≡ some 29
parse_uint-format_padded_example = parse_uint-format_padded 65535 4 29 (omega arith) (omega arith)

pub packet_read :
    read_packet (source none (encode_one [] stream_out (codes "hi") ++ codes "#"))
    ≡ ok (some (record { stream = stream_out; payload = codes "hi" }), source none (codes "#"))
unfolding overhead format_uint
packet_read =
    read_packet-encode_one none stream_out (codes "hi") (codes "#") (omega arith) (omega arith)
