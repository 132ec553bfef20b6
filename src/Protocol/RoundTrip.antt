-- ===== src/Protocol/RoundTrip.antt =====
-- A payload of any size, written by `encode` and read by `read_packet`: src/protocol.rs.
use replstoke.Common.{
  ℕ, zero, suc, ◌+◌, ◌-◌, ◌≤◌, ◌<◌, min, ◌≡◌, ◌∙◌, ap, sym, refl, true, List, [], ◌∷◌, ◌++◌, map,
  Option, some, arith, ltb, Bytes, length, drop, slice, ok, append_assoc, concat, take-append-drop,
  Bool-cases, inl, inr, All, length-take, length-drop, drop_all, take_all, drop-drop, append-nil,
}
use replstoke.Protocol.Types.{max_packet, IoError, Packet}
use replstoke.Protocol.Encode.{overhead, max_payload, encode_one, encode_loop, encode}
use replstoke.Protocol.Read.{Source, read_packet}
use replstoke.Protocol.Framing.{source, IsName, read_packet-encode_one}

-- Calling `read_packet` again and again yields these packets and leaves this source.
pub data Reads : Source → List Packet → Source → Type 0 where
  done : {s : Source} → Reads s [] s
  more :
      {s t u : Source} {k : Packet} {ks : List Packet}
      → read_packet s ≡ ok (some k, t)
      → Reads t ks u
      → Reads s (k ∷ ks) u

-- Packets of one stream, each within the cap, that spell `payload` and are read from `bytes`.
pub record Spells (f : Option IoError) (stream : Bytes) (payload rest bytes : Bytes) : Type 0 where
  pub packets : List Packet
  pub reads : Reads (source f (bytes ++ rest)) packets (source f rest)
  pub named : All (λ k. k.stream ≡ stream) packets
  pub whole : concat (map (λ k. k.payload) packets) ≡ payload

encode_one_out : (out s p : Bytes) → encode_one out s p ≡ out ++ encode_one [] s p
unfolding encode_one
encode_one_out out s p = refl

encode_loop_out :
    (fuel cap : ℕ) (out s p : Bytes) (off : ℕ)
    → encode_loop fuel cap out s p off ≡ out ++ encode_loop fuel cap [] s p off
unfolding encode_loop
encode_loop_out zero cap out s p off = sym (append-nil out)
encode_loop_out (suc fuel) cap out s p off = elim (Bool-cases (ltb off (length p))) [
  | inr stop ↦ rw (stop, append-nil)
  | inl go ↦
      let end = min (off + cap) (length p) in
      let chunk = slice off end p in
      rw (
        go,
        encode_loop_out fuel cap (encode_one out s chunk) s p end,
        encode_loop_out fuel cap (encode_one [] s chunk) s p end,
        encode_one_out out s chunk,
        append_assoc,
      )
]

pub encode_out : (out s p : Bytes) → encode out s p ≡ out ++ encode [] s p
unfolding encode
encode_out out s [] = unfold encode_one in refl
encode_out out s (b ∷ p) =
    unfold encode_loop in encode_loop_out (length (b ∷ p)) (max_payload s) out s (b ∷ p) 0

encode_loop_step :
    (fuel cap : ℕ) (s p : Bytes) (off : ℕ)
    → ltb off (length p) ≡ true
    → let end = min (off + cap) (length p) in
      encode_loop (suc fuel) cap [] s p off
      ≡ encode_one [] s (slice off end p) ++ encode_loop fuel cap [] s p end
unfolding encode_loop
encode_loop_step fuel cap s p off go =
    let end = min (off + cap) (length p) in
    rw (go, encode_loop_out fuel cap (encode_one [] s (slice off end p)) s p end)

encode_loop_stop :
    (fuel cap : ℕ) (s p : Bytes) (off : ℕ) → length p ≤ off → encode_loop fuel cap [] s p off ≡ []
unfolding encode_loop
encode_loop_stop zero cap s p off h = refl
encode_loop_stop (suc fuel) cap s p off h = ground arith

-- A payload that fits into one packet is one.
pub encode_short :
    (s p : Bytes)
    → 0 < length p
    → overhead s + length p ≤ max_packet
    → encode [] s p ≡ encode_one [] s p
unfolding encode
encode_short s [] some_byte fits = absurd (omega arith)
encode_short s (b ∷ p) some_byte fits =
    let whole = b ∷ p in
    let cap = max_payload s in
    let go : ltb 0 (length whole) ≡ true = ground arith in
    let last : min (0 + cap) (length whole) ≡ length whole = unfold max_payload in omega arith in
    let all : slice 0 (length whole) whole ≡ whole =
      take_all (length whole - 0) whole (omega arith) in
    encode_loop_step (length p) cap s whole 0 go
    ∙ rw (
      last,
      encode_loop_stop (length p) cap s whole (length whole) (omega arith),
      all,
      append-nil (encode_one [] s whole),
    )

slice-append-drop :
    (off end : ℕ) (p : Bytes) → off ≤ end → slice off end p ++ drop end p ≡ drop off p
slice-append-drop off end p h =
    let e : off + (end - off) ≡ end = omega arith in
    let cut = take-append-drop (end - off) (drop off p) in
    rw (drop-drop (end - off) off p, e) at cut

module _ (f : Option IoError) (s rest : Bytes) (name : IsName s) where
  pub nil_Spells : Spells f s [] rest []
  nil_Spells = record { packets = []; reads = done; named = tt; whole = refl }

  cons_Spells :
      (chunk q bytes : Bytes)
      → overhead s + length chunk ≤ max_packet
      → Spells f s q rest bytes
      → Spells f s (chunk ++ q) rest (encode_one [] s chunk ++ bytes)
  cons_Spells chunk q bytes fits later = record {
    packets = record { stream = s; payload = chunk } ∷ later.packets;
    reads =
        rw append_assoc
          (more (read_packet-encode_one f s chunk (bytes ++ rest) name fits) later.reads);
    named = (refl, later.named);
    whole = ap (λ t. chunk ++ t) later.whole;
  }

  module _ (cap : ℕ) (p : Bytes) (room : overhead s + cap ≤ max_packet) (positive : 0 < cap) where
    loop_Spells :
        (fuel off : ℕ)
        → length p ≤ off + fuel
        → Spells f s (drop off p) rest (encode_loop fuel cap [] s p off)
    loop_Spells zero off h =
        rw (encode_loop_stop zero cap s p off (omega arith), drop_all off p (omega arith))
          nil_Spells
    loop_Spells (suc fuel) off h = elim (Bool-cases (ltb off (length p))) [
      | inr stop ↦
          let past : length p ≤ off = ground arith in
          rw (encode_loop_stop (suc fuel) cap s p off past, drop_all off p past) nil_Spells
      | inl go ↦
          let below : off < length p = ground arith in
          let end = min (off + cap) (length p) in
          let built =
            cons_Spells (slice off end p) (drop end p) (encode_loop fuel cap [] s p end)
              (omega (arith, length-take (end - off) (drop off p), length-drop off p))
              (loop_Spells fuel end (omega arith)) in
          let joined = slice-append-drop off end p (omega arith) in
          rw (encode_loop_step fuel cap s p off go) (rw joined at built)
    ]

Reads-append :
    {s t u : Source} {ks ls : List Packet} → Reads s ks t → Reads t ls u → Reads s (ks ++ ls) u
Reads-append done later = later
Reads-append (more e here) later = more e (Reads-append here later)

concat-append :
    (ks ls : List Packet)
    → concat (map (λ k. k.payload) (ks ++ ls))
      ≡ concat (map (λ k. k.payload) ks) ++ concat (map (λ k. k.payload) ls)
concat-append [] ls = refl
concat-append (k ∷ ks) ls = rw (concat-append ks ls, append_assoc)

All-append :
    (s : Bytes) (ks ls : List Packet)
    → All (λ k. k.stream ≡ s) ks
    → All (λ k. k.stream ≡ s) ls
    → All (λ k. k.stream ≡ s) (ks ++ ls)
All-append s [] ls h k = k
All-append s (x ∷ ks) ls h k = (h.0, All-append s ks ls h.1 k)

-- Packets that spell one part, followed by packets that spell the next.
pub append-Spells :
    (f : Option IoError) (s p q rest b d : Bytes)
    → Spells f s p (d ++ rest) b
    → Spells f s q rest d
    → Spells f s (p ++ q) rest (b ++ d)
append-Spells f s p q rest b d first later = record {
  packets = first.packets ++ later.packets;
  reads = rw append_assoc (Reads-append first.reads later.reads);
  named = All-append s first.packets later.packets first.named later.named;
  whole = rw (concat-append first.packets later.packets, first.whole, later.whole);
}

-- For every payload, whatever its size and whatever follows on the wire, what encode writes for a
-- stream whose name is ASCII without a line feed and leaves room for payload in a packet is read by
-- read_packet packet by packet up to its last byte; each packet carries the stream's name, and the
-- packets' payloads, joined in order, are the payload.
pub encode-Spells :
    (f : Option IoError) (s p rest : Bytes)
    → IsName s
    → overhead s < max_packet
    → Spells f s p rest (encode [] s p)
unfolding encode
encode-Spells f s [] rest name room =
    rw (← append-nil (encode_one [] s []))
      (cons_Spells f s rest name [] [] [] (omega arith) (nil_Spells f s rest name))
encode-Spells f s (b ∷ p) rest name room =
    loop_Spells f s rest name (max_payload s) (b ∷ p) (omega arith) (omega arith) (length (b ∷ p)) 0
      (omega arith)
