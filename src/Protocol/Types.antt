-- ===== src/Protocol/Types.antt =====
-- The constants, packets and errors of src/protocol.rs.
use replstoke.Common.{ℕ, ◌++◌, Bytes, codes}
use replstoke.Strings.Decimal.{format_uint}

abbrev pub protocol_id : Bytes
protocol_id = codes "# RePLstOKE/"

abbrev pub version_major : ℕ
version_major = 1

abbrev pub version_minor : ℕ
version_minor = 0

abbrev pub sep : ℕ
sep = b' '

abbrev pub header_end : ℕ
header_end = b'\n'

abbrev pub packet_end : ℕ
packet_end = b'\n'

abbrev pub length_digits : ℕ
length_digits = 5

-- Largest whole packet, bounded by the fixed 5-digit length field.
abbrev pub max_packet : ℕ
max_packet = 99_999

abbrev pub stream_out : Bytes
stream_out = codes "out"

abbrev pub stream_err : Bytes
stream_err = codes "err"

abbrev pub stream_ctl : Bytes
stream_ctl = codes "ctl"

-- `io::Error`, as its printed text.
abbrev pub IoError : Type 0
IoError = Bytes

-- The messages of `BadFraming`.
pub data Framing : Type 0 where
  missing_start_marker bad_start_marker length_too_small missing_separator : Framing
  missing_header_terminator missing_packet_terminator truncated : Framing
  version_too_long bad_version bad_length : Framing

pub data ProtocolError : Type 0 where
  io : IoError → ProtocolError
  bad_framing : Framing → ProtocolError
  unsupported_version : (major minor : ℕ) → ProtocolError

pub record Packet : Type 0 where
  pub stream : Bytes
  pub payload : Bytes

-- `BadFraming`'s text.
unfoldable pub framing_text : Framing → Bytes
framing_text Framing.missing_start_marker = codes "missing packet start marker"
framing_text Framing.bad_start_marker = codes "bad packet start marker"
framing_text Framing.length_too_small = codes "packet length too small"
framing_text Framing.missing_separator = codes "missing separator before stream name"
framing_text Framing.missing_header_terminator = codes "missing header terminator"
framing_text Framing.missing_packet_terminator = codes "missing packet terminator"
framing_text Framing.truncated = codes "truncated packet"
framing_text Framing.version_too_long = codes "version field too long"
framing_text Framing.bad_version = codes "bad version"
framing_text Framing.bad_length = codes "bad length"

-- The `Display` of `ProtocolError`.
unfoldable pub error_text : ProtocolError → Bytes
unfolding framing_text
error_text (ProtocolError.io e) = e
error_text (ProtocolError.bad_framing m) = codes "malformed protocol stream: " ++ framing_text m
error_text (ProtocolError.unsupported_version major minor) =
    codes "server protocol version "
    ++ format_uint major
    ++ codes "."
    ++ format_uint minor
    ++ codes " is newer than this client supports"
