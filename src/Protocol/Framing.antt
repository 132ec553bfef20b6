-- ===== src/Protocol/Framing.antt =====
-- One packet, written by `encode_one` and read by `read_packet`: src/protocol.rs.
use replstoke.Common.{
  ℕ, suc, ◌+◌, ◌-◌, ◌≤◌, ◌≡◌, ◌∙◌, refl, true, [], ◌∷◌, ◌++◌, Option, some, arith, leb, Bytes,
  codes, length, drop, slice, ok, append_assoc, length-append, take-append, drop-append, drop-drop,
  leb_of_le, All,
}
use replstoke.Strings.Utf8.{IsAscii, from_utf8_lossy-ascii}
use replstoke.Strings.Split.{position, split_once, position-append, Lacks}
use replstoke.Strings.Decimal.{
  parse_uint, format_padded, format_uint, max_u64, length-format_padded, parse_uint-format_padded,
}
use replstoke.Protocol.Types.{protocol_id, sep, header_end, packet_end, max_packet, IoError}
use replstoke.Protocol.Encode.{overhead, encode_one, version_str}
use replstoke.Protocol.Read.{
  Source, ◌>>=◌, fill, read_until_sep, parse_version, parse_len, open_packet, read_rest,
  read_packet, last_is,
}

-- A stream name that survives the header: ASCII, and no line feed.
abbrev pub IsName : Bytes → Type 0
IsName s = All IsAscii s × Lacks header_end s

abbrev pub source : Option IoError → Bytes → Source
source f bs = record { pending = bs; fault = f }

-- What follows the length field.
abbrev pub tail_of : Bytes → Bytes → Bytes
tail_of s p = sep ∷ (s ++ (header_end ∷ (p ++ packet_end ∷ [])))

pub fill-append :
    (f : Option IoError) (n : ℕ) (xs ys : Bytes)
    → length xs ≡ n
    → fill n (source f (xs ++ ys)) ≡ ok (xs, source f ys)
unfolding fill
fill-append f n xs ys e = rw (
  ← e,
  leb_of_le (length xs) (length (xs ++ ys)) (omega (arith, length-append xs ys)),
  take-append xs ys,
  drop-append xs ys,
)

last_is-append : (c : ℕ) (xs : Bytes) → last_is c (xs ++ c ∷ []) ≡ true
last_is-append c [] = ground arith
last_is-append c (x ∷ []) = ground arith
last_is-append c (x ∷ y ∷ xs) = last_is-append c (y ∷ xs)

pub version_str_lem : version_str ≡ codes "1.0"
unfolding version_str format_uint
version_str_lem = refl

encode_one-append :
    (s p rest : Bytes)
    → encode_one [] s p ++ rest
      ≡ protocol_id
        ++ (codes "1.0 " ++ (format_padded 5 (overhead s + length p) ++ (tail_of s p ++ rest)))
unfolding encode_one version_str format_uint
encode_one-append s p rest = simp append_assoc

read_version :
    (f : Option IoError) (ys : Bytes)
    → read_until_sep 16 (source f (codes "1.0 " ++ ys)) ≡ ok (codes "1.0", source f ys)
unfolding read_until_sep
read_version f ys = refl

parse_version_lem : parse_version (codes "1.0") ≡ ok (1, 0)
unfolding parse_version split_once parse_uint
parse_version_lem = refl

parse_len_lem : (n : ℕ) → n ≤ max_packet → parse_len (format_padded 5 n) ≡ ok n
unfolding parse_len
parse_len_lem n h = rw (parse_uint-format_padded max_u64 4 n (omega arith) (omega arith))

pub overhead_lem : (s : Bytes) → overhead s ≡ 24 + length s
unfolding overhead version_str format_uint
overhead_lem s = omega arith

read_packet-cons :
    (f : Option IoError) (b : ℕ) (bs : Bytes)
    → read_packet (source f (b ∷ bs)) ≡ read_rest b (source f bs)
unfolding read_packet
read_packet-cons f b bs = refl

module _ (f : Option IoError) (s p rest : Bytes) (name : IsName s) where
  length-tail_of : length (tail_of s p) ≡ 3 + length s + length p
  length-tail_of = omega (
    arith,
    length-append s (header_end ∷ (p ++ packet_end ∷ [])),
    length-append p (packet_end ∷ []),
  )

  position-tail_of : position header_end (tail_of s p) ≡ some (suc (length s))
  position-tail_of =
      position-append header_end (sep ∷ s) (p ++ packet_end ∷ []) (omega arith, name.1)

  last-tail_of : last_is packet_end (tail_of s p) ≡ true
  last-tail_of =
      rw (← append_assoc s (header_end ∷ p) (packet_end ∷ []))
        (last_is-append packet_end (sep ∷ (s ++ header_end ∷ p)))

  slice_name : slice 1 (suc (length s)) (tail_of s p) ≡ s
  slice_name =
      let e : suc (length s) - 1 ≡ length s = omega arith in
      rw e (take-append s (header_end ∷ (p ++ packet_end ∷ [])))

  slice_payload : slice (suc (length s) + 1) (length (tail_of s p) - 1) (tail_of s p) ≡ p
  slice_payload =
      let e : suc (length s) + 1 ≡ suc (length s + 1) = omega arith in
      let k : length (tail_of s p) - 1 - (suc (length s) + 1) ≡ length p =
        omega (arith, length-tail_of) in
      let d : drop (suc (length s) + 1) (tail_of s p) ≡ p ++ packet_end ∷ [] = rw (
        e,
        ← drop-drop 1 (length s) (s ++ header_end ∷ (p ++ packet_end ∷ [])),
        drop-append s (header_end ∷ (p ++ packet_end ∷ [])),
      ) in
      rw (k, d) (take-append p (packet_end ∷ []))

  open_packet-tail_of :
      open_packet (tail_of s p) (source f rest)
      ≡ ok (some (record { stream = s; payload = p }), source f rest)
  unfolding open_packet
  open_packet-tail_of =
      let ordered : leb (suc (length s) + 1) (length (tail_of s p) - 1) ≡ true =
        leb_of_le _ _ (omega (arith, length-tail_of)) in
      rw (
        position-tail_of,
        last-tail_of,
        ordered,
        slice_name,
        slice_payload,
        from_utf8_lossy-ascii s name.0,
      )

  -- The bytes behind the first one of an encoded packet.
  read_rest-tail_of :
      overhead s + length p ≤ max_packet
      → read_rest b'#' (
          source f (
            drop 1 protocol_id
            ++ (codes "1.0 "
                ++ (format_padded 5 (overhead s + length p) ++ (tail_of s p ++ rest)))))
        ≡ ok (some (record { stream = s; payload = p }), source f rest)
  unfolding read_rest
  read_rest-tail_of fits =
      let total = overhead s + length p in
      let digits = format_padded 5 total in
      let len5 : length digits ≡ 5 = length-format_padded 4 total (omega arith) in
      let e1 =
        fill-append f 11 (drop 1 protocol_id) (codes "1.0 " ++ (digits ++ (tail_of s p ++ rest)))
          refl in
      let room : leb 24 total ≡ true = leb_of_le 24 total (omega (arith, overhead_lem s)) in
      let e5 : fill (total - 21) (source f (tail_of s p ++ rest))
          ≡ ok (tail_of s p, source f rest) =
        fill-append f (total - 21) (tail_of s p) rest
          (omega (arith, overhead_lem s, length-tail_of)) in
      rw
        (
          ◌>>=◌,
          e1,
          read_version f (digits ++ (tail_of s p ++ rest)),
          parse_version_lem,
          fill-append f 5 digits (tail_of s p ++ rest) len5,
          parse_len_lem total fits,
          room,
          e5,
        )
        open_packet-tail_of

-- A packet that fits the length field, of a stream whose name is ASCII without a line feed, is read
-- back whole, and nothing behind it is touched.
pub read_packet-encode_one :
    (f : Option IoError) (s p rest : Bytes)
    → IsName s
    → overhead s + length p ≤ max_packet
    → read_packet (source f (encode_one [] s p ++ rest))
      ≡ ok (some (record { stream = s; payload = p }), source f rest)
read_packet-encode_one f s p rest name fits =
    rw encode_one-append (read_packet-cons f b'#' _ ∙ read_rest-tail_of f s p rest name fits)
