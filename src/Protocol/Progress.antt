-- ===== src/Protocol/Progress.antt =====
-- How much of the stream the reader of src/protocol.rs takes.
use replstoke.Common.{
  ℕ, ◌+◌, ◌-◌, ◌≤◌, ◌<◌, ◌≡◌, ◌⊎◌, inl, inr, refl, Bool, true, false, [], ◌∷◌, ◌++◌, Option, none,
  some, arith, leb, Bytes, bytes_eq, length, drop, Result, ok, err, ok_or, length-drop,
}
use replstoke.Strings.Split.{position}
use replstoke.Protocol.Types.{
  sep, header_end, packet_end, protocol_id, length_digits, version_major, IoError, Packet,
  ProtocolError, bad_framing, missing_separator, missing_header_terminator,
  missing_packet_terminator, missing_start_marker, bad_start_marker, length_too_small,
  unsupported_version,
}
use replstoke.Protocol.Read.{
  Source, Read, ◌>>=◌, ◌>>◌, lift, require, in_order, ended, fill, until_sep, read_until_sep,
  parse_version, parse_len, first_is, last_is, open_packet, read_rest, read_packet,
}

-- A read that succeeds leaves no more than there was.
unfoldable Shrinks : {A : Type 0} → Read A → Type 0
Shrinks {A} m =
    (s : Source) (a : A) (t : Source) → m s ≡ ok (a, t) → length t.pending ≤ length s.pending

result_cases : {E A : Type 0} (r : Result E A) → ((a : A) × (r ≡ ok a)) ⊎ ((e : E) × (r ≡ err e))
result_cases (ok a) = inl (a, refl)
result_cases (err e) = inr (e, refl)

behind : {a b c : ℕ} → a ≤ b → b ≤ c → a ≤ c
behind h k = omega arith

-- A step that succeeds, and what follows it on the rest of the stream.
bind-Shrinks :
    {A B : Type 0} (m : Read A) (f : A → Read B) (s : Source) {b : B} {t : Source}
    → Shrinks m
    → (m >>= f) s ≡ ok (b, t)
    → (a : A) × (s' : Source) × (length s'.pending ≤ length s.pending) × (f a s' ≡ ok (b, t))
unfolding Shrinks
bind-Shrinks m f s shrinks h = elim (result_cases (m s)) [
  | inl ((a, s'), e) ↦ (a, s', shrinks s a s' e, rw (◌>>=◌, e) at h)
  | inr (e, failed) ↦ let wrong = rw (◌>>=◌, failed) at h in absurd (ground arith)
]

require-Shrinks : (c : Bool) (e : ProtocolError) → Shrinks (require c e)
unfolding Shrinks
require-Shrinks true e s a t h = ground arith
require-Shrinks false e s a t h = ground arith

in_order-Shrinks : (c : Bool) → Shrinks (in_order c)
unfolding Shrinks
in_order-Shrinks true s a t h = ground arith
in_order-Shrinks false s a t h = ground arith

lift-Shrinks : {A : Type 0} (r : Result ProtocolError A) → Shrinks (lift r)
unfolding Shrinks
lift-Shrinks (ok x) s a t h = ground arith
lift-Shrinks (err e) s a t h = ground arith

ended_err : {A : Type 0} (f : Option IoError) (a : A) → ended f ≡ ok a → ⊥
ended_err none a h = ground arith
ended_err (some e) a h = ground arith

fill-Shrinks : (n : ℕ) → Shrinks (fill n)
unfolding fill Shrinks
fill-Shrinks n s a t h =
    ground (arith, length-drop n s.pending, ended_err {A = Bytes × Source} s.fault (a, t))

until_sep-rest :
    (max : ℕ) (f : Option IoError) (out bs v rest : Bytes)
    → until_sep max f out bs ≡ ok (v, rest)
    → length rest ≤ length bs
unfolding until_sep
until_sep-rest max f out [] v rest h = absurd (ended_err f (v, rest) h)
until_sep-rest max f out (b ∷ bs) v rest h =
    ground (arith, until_sep-rest max f (out ++ b ∷ []) bs v rest)

read_until_sep-Shrinks : (max : ℕ) → Shrinks (read_until_sep max)
unfolding read_until_sep Shrinks
read_until_sep-Shrinks max s a t h = elim (result_cases (until_sep max s.fault [] s.pending)) [
  | inl ((v, rest), e) ↦
      let small = until_sep-rest max s.fault [] s.pending v rest e in ground arith
  | inr (e, failed) ↦ absurd (ground arith)
]

open_packet-Shrinks : (buf : Bytes) → Shrinks (open_packet buf)
unfolding open_packet Shrinks
open_packet-Shrinks buf s k t h =
    let (u, s1, a1, h1) =
      bind-Shrinks (require (first_is sep buf) (bad_framing missing_separator)) _ s
        (require-Shrinks (first_is sep buf) (bad_framing missing_separator)) h in
    let found = ok_or (bad_framing missing_header_terminator) (position header_end buf) in
    let (he, s2, a2, h2) = bind-Shrinks (lift found) _ s1 (lift-Shrinks found) h1 in
    let (v, s3, a3, h3) =
      bind-Shrinks (require (last_is packet_end buf) (bad_framing missing_packet_terminator)) _ s2
        (require-Shrinks (last_is packet_end buf) (bad_framing missing_packet_terminator)) h2 in
    let fits = leb (he + 1) (length buf - 1) in
    let (w, s4, a4, h4) = bind-Shrinks (in_order fits) _ s3 (in_order-Shrinks fits) h3 in
    behind (ground arith) (behind a4 (behind a3 (behind a2 a1)))

-- `read_rest` from the length field on.
read_body : ℕ → Read (Option Packet)
read_body consumed = do
  len_bytes ← fill length_digits
  total ← lift (parse_len len_bytes)
  require (leb (consumed + 3) total) (bad_framing length_too_small)
  buf ← fill (total - consumed)
  open_packet buf

read_body-Shrinks : (n : ℕ) → Shrinks (read_body n)
unfolding read_body Shrinks
read_body-Shrinks n s k t h =
    let (len_bytes, s1, a1, h1) =
      bind-Shrinks (fill length_digits) _ s (fill-Shrinks length_digits) h in
    let (total, s2, a2, h2) =
      bind-Shrinks (lift (parse_len len_bytes)) _ s1 (lift-Shrinks (parse_len len_bytes)) h1 in
    let (u, s3, a3, h3) =
      bind-Shrinks (require (leb (n + 3) total) (bad_framing length_too_small)) _ s2
        (require-Shrinks (leb (n + 3) total) (bad_framing length_too_small)) h2 in
    let (buf, s4, a4, h4) = bind-Shrinks (fill (total - n)) _ s3 (fill-Shrinks (total - n)) h3 in
    behind (open_packet-Shrinks buf s4 k t h4) (behind a4 (behind a3 (behind a2 a1)))

read_rest-Shrinks : (b : ℕ) → Shrinks (read_rest b)
unfolding read_rest read_body Shrinks
read_rest-Shrinks b s k t h =
    let (u, s1, a1, h1) =
      bind-Shrinks (require (first_is b protocol_id) (bad_framing missing_start_marker)) _ s
        (require-Shrinks (first_is b protocol_id) (bad_framing missing_start_marker)) h in
    let n = length protocol_id - 1 in
    let (rest, s2, a2, h2) = bind-Shrinks (fill n) _ s1 (fill-Shrinks n) h1 in
    let same = bytes_eq rest (drop 1 protocol_id) in
    let (v, s3, a3, h3) =
      bind-Shrinks (require same (bad_framing bad_start_marker)) _ s2
        (require-Shrinks same (bad_framing bad_start_marker)) h2 in
    let (version, s4, a4, h4) =
      bind-Shrinks (read_until_sep 16) _ s3 (read_until_sep-Shrinks 16) h3 in
    let (numbers, s5, a5, h5) =
      bind-Shrinks (lift (parse_version version)) _ s4 (lift-Shrinks (parse_version version)) h4 in
    let newer = unsupported_version numbers.0 numbers.1 in
    let (w, s6, a6, h6) =
      bind-Shrinks (require (leb numbers.0 version_major) newer) _ s5
        (require-Shrinks (leb numbers.0 version_major) newer) h5 in
    let consumed = length protocol_id + length version + 1 + length_digits in
    behind (read_body-Shrinks consumed s6 k t h6)
      (behind a6 (behind a5 (behind a4 (behind a3 (behind a2 a1)))))

-- Each packet that is read takes at least one byte of the stream.
pub read_packet_takes :
    (s : Source) (k : Packet) (t : Source)
    → read_packet s ≡ ok (some k, t)
    → length t.pending < length s.pending
unfolding read_packet Shrinks
read_packet_takes s k t h = at s.pending refl
  where
    at : (bs : Bytes) → s.pending ≡ bs → length t.pending < length s.pending
    at [] e = absurd (ground arith)
    at (b ∷ bs) e =
        let rest : read_rest b (record s { pending = bs }) ≡ ok (some k, t) = ground arith in
        let small = read_rest-Shrinks b (record s { pending = bs }) (some k) t rest in
        rw e (omega arith)
