-- ===== src/Protocol/Read.antt =====
-- The client's side of src/protocol.rs: `PacketReader` over a byte stream.
use replstoke.Common.{
  ℕ, ◌+◌, ◌-◌, Bool, true, false, [], ◌∷◌, ◌++◌, Option, none, some, ltb, leb, ◌==◌, if◌then◌else◌,
  Bytes, bytes_eq, length, take, drop, slice, Result, ok, err, ok_or,
}
use replstoke.Strings.Utf8.{from_utf8_lossy}
use replstoke.Strings.Split.{position, split_once}
use replstoke.Strings.Decimal.{parse_uint, max_u32, max_u64}
use replstoke.Protocol.Types.{
  protocol_id, version_major, sep, header_end, packet_end, length_digits, IoError,
  missing_start_marker, bad_start_marker, length_too_small, missing_separator,
  missing_header_terminator, missing_packet_terminator, truncated, version_too_long, bad_version,
  bad_length, ProtocolError, io, bad_framing, unsupported_version, Packet,
}

-- The bytes that the peer sends, and how the stream ends behind them: closed, or with an error.
pub record Source : Type 0 where
  pub pending : Bytes
  pub fault : Option IoError

-- Why a read yields nothing: the error it returns, or a panic, which aborts the process.
pub data Fault : Type 0 where
  refused : ProtocolError → Fault
  aborted : Fault

abbrev pub Read : Type 0 → Type 0
Read A = Source → Result Fault (A × Source)

infixl 5 ◌>>=◌ ◌>>◌
abbrev pub ◌>>=◌ : {A B : Type 0} → Read A → (A → Read B) → Read B
◌>>=◌ m f s = elim (m s) [ ok (a, s') ↦ f a s' | err e ↦ err e ]

abbrev pub ◌>>◌ : {B : Type 0} → Read (Unit {0}) → Read B → Read B
m >> k = m >>= λ _. k

abbrev pub return : {A : Type 0} → A → Read A
return a s = ok (a, s)

abbrev pub lift : {A : Type 0} → Result ProtocolError A → Read A
lift (ok a) s = ok (a, s)
lift (err e) s = err (refused e)

-- `if !test { return Err(e) }`.
abbrev pub require : Bool → ProtocolError → Read (Unit {0})
require true e s = ok (tt, s)
require false e s = err (refused e)

-- The bounds of a slice, which panics when they are out of order.
abbrev pub in_order : Bool → Read (Unit {0})
in_order true s = ok (tt, s)
in_order false s = err aborted

-- What a read that finds too few bytes returns.
abbrev pub ended {ℓ} : {A : Type ℓ} → Option IoError → Result ProtocolError A
ended none = err (bad_framing truncated)
ended (some e) = err (io e)

-- `read_exact` into a buffer of `n` bytes.
unfoldable pub fill : ℕ → Read Bytes
fill n s =
    if leb n (length s.pending)
    then ok (take n s.pending, record s { pending = drop n s.pending })
    else lift (ended s.fault) s

-- The loop of `read_until_sep`, over the bytes that are pending.
unfoldable pub until_sep : ℕ → Option IoError → Bytes → Bytes → Result ProtocolError (Bytes × Bytes)
until_sep max fault out [] = ended fault
until_sep max fault out (b ∷ bs) =
    let more = until_sep max fault (out ++ b ∷ []) bs in
    if b == sep
    then ok (out, bs)
    else if ltb max (length (out ++ b ∷ []))
    then err (bad_framing version_too_long)
    else more

unfoldable pub read_until_sep : ℕ → Read Bytes
unfolding until_sep
read_until_sep max s = elim (until_sep max s.fault [] s.pending) [
  | ok (v, rest) ↦ ok (v, record s { pending = rest })
  | err e ↦ err (refused e)
]

-- Bytes that are no UTF-8 hold a byte that is no digit, so the failure of `str::from_utf8` is the
-- failure of `parse`, with the same message.
unfoldable pub parse_version : Bytes → Result ProtocolError (ℕ × ℕ)
parse_version v = elim (split_once b'.' v) [
  | none ↦ err (bad_framing bad_version)
  | some (maj, min) ↦ elim (parse_uint max_u32 maj) [
    | none ↦ err (bad_framing bad_version)
    | some major ↦ elim (parse_uint max_u32 min) [
      | none ↦ err (bad_framing bad_version)
      | some minor ↦ ok (major, minor)
    ]
  ]
]

unfoldable pub parse_len : Bytes → Result ProtocolError ℕ
parse_len b = ok_or (bad_framing bad_length) (parse_uint max_u64 b)

-- `buf[0]` and `*buf.last().unwrap()`; the buffer holds at least three bytes where they are used.
abbrev pub first_is : ℕ → Bytes → Bool
first_is c [] = false
first_is c (b ∷ bs) = b == c

abbrev pub last_is : ℕ → Bytes → Bool
last_is c [] = false
last_is c (b ∷ []) = b == c
last_is c (b ∷ d ∷ bs) = last_is c (d ∷ bs)

-- The checks on a packet's bytes behind the length field.
unfoldable pub open_packet : Bytes → Read (Option Packet)
open_packet buf = do
  require (first_is sep buf) (bad_framing missing_separator)
  he ← lift (ok_or (bad_framing missing_header_terminator) (position header_end buf))
  require (last_is packet_end buf) (bad_framing missing_packet_terminator)
  in_order (leb (he + 1) (length buf - 1))
  return (
      some record {
        stream = from_utf8_lossy (slice 1 he buf);
        payload = slice (he + 1) (length buf - 1) buf;
      })

-- `read_packet` behind the first byte.
unfoldable pub read_rest : ℕ → Read (Option Packet)
read_rest first = do
  require (first_is first protocol_id) (bad_framing missing_start_marker)
  rest ← fill (length protocol_id - 1)
  require (bytes_eq rest (drop 1 protocol_id)) (bad_framing bad_start_marker)
  version ← read_until_sep 16
  (major, minor) ← lift (parse_version version)
  require (leb major version_major) (unsupported_version major minor)
  len_bytes ← fill length_digits
  total ← lift (parse_len len_bytes)
  let consumed = length protocol_id + length version + 1 + length_digits
  require (leb (consumed + 3) total) (bad_framing length_too_small)
  buf ← fill (total - consumed)
  open_packet buf

-- `none` is a clean end of the stream at a packet boundary.
unfoldable pub read_packet : Read (Option Packet)
unfolding read_rest open_packet fill read_until_sep parse_version parse_len
read_packet s = elim s.pending [
  | [] ↦ elim s.fault [ none ↦ ok (none, s) | some e ↦ err (refused (io e)) ]
  | first ∷ bs ↦ read_rest first (record s { pending = bs })
]
