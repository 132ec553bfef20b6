-- ===== src/Protocol/Encode.antt =====
-- The server's side of src/protocol.rs: packets, and payloads split across packets.
use replstoke.Common.{
  ℕ, zero, suc, ◌+◌, ◌-◌, min, ◌≡◌, refl, [], ◌∷◌, ◌++◌, ltb, if◌then◌else◌, Bytes, codes, length,
  slice, is_nil,
}
use replstoke.Strings.Decimal.{format_uint, format_padded}
use replstoke.Protocol.Types.{
  protocol_id, version_major, version_minor, sep, header_end, packet_end, length_digits, max_packet,
  stream_out,
}

unfoldable pub version_str : Bytes
version_str = format_uint version_major ++ codes "." ++ format_uint version_minor

unfoldable pub overhead : Bytes → ℕ
unfolding version_str
overhead stream_name =
    length protocol_id + length version_str + 1 + length_digits + 1 + length stream_name + 1 + 1

-- `-` is exact for the three stream names; a longer name than `max_packet` would panic in a debug build.
unfoldable pub max_payload : Bytes → ℕ
unfolding overhead
max_payload stream_name = max_packet - overhead stream_name

unfoldable pub encode_one : Bytes → Bytes → Bytes → Bytes
unfolding overhead version_str
encode_one out stream_name payload =
    let total = overhead stream_name + length payload in
    out
    ++ (protocol_id
        ++ (version_str
            ++ (sep
                ∷ (format_padded length_digits total
                    ++ (sep ∷ (stream_name ++ (header_end ∷ (payload ++ packet_end ∷ []))))))))

-- `while off < payload.len()`. Each round moves `off` by at least one if `cap` is positive, so the
-- length of the payload is enough fuel.
unfoldable pub encode_loop : ℕ → ℕ → Bytes → Bytes → Bytes → ℕ → Bytes
encode_loop zero cap out stream_name payload off = out
encode_loop (suc fuel) cap out stream_name payload off =
    let end = min (off + cap) (length payload) in
    let next =
      encode_loop fuel cap (encode_one out stream_name (slice off end payload)) stream_name payload
        end in
    if ltb off (length payload) then next else out

unfoldable pub encode : Bytes → Bytes → Bytes → Bytes
unfolding encode_loop encode_one max_payload
encode out stream_name payload =
    if is_nil payload
    then encode_one out stream_name []
    else encode_loop (length payload) (max_payload stream_name) out stream_name payload 0

-- The packet of the example in PROTOCOL.md, without its stray escapes.
hi_packet : encode [] stream_out (codes "hi") ≡ codes "# RePLstOKE/1.0 00029 out\nhi\n"
unfolding encode format_uint format_padded
hi_packet = refl
