-- ===== src/Client/Reading.antt =====
-- The loop of `read_protocol` in src/client.rs, one packet at a time.
use replstoke.Common.{
  ℕ, zero, suc, ◌+◌, ◌<◌, ◌≡◌, ◌⊎◌, inl, inr, refl, Option, none, some, arith, length, Result, ok,
  err, Option-cases,
}
use replstoke.Error.{AppResult}
use replstoke.Protocol.Types.{Packet, ProtocolError}
use replstoke.Protocol.Read.{Fault, refused, aborted, Source, read_packet}
use replstoke.Protocol.Progress.{read_packet_takes}
use replstoke.Client.{
  Settings, OwnStreams, Reader, Verdict, on_fault, on_packet, read_loop, start, read_protocol,
}

-- A packet after which the loop goes on, and one that ends it.
pub goes_on :
    (fuel : ℕ) (own : OwnStreams) (cfg : Settings) (r : Reader) (s t : Source) (k : Packet)
    → read_packet s ≡ ok (some k, t)
    → (on_packet own cfg r k).1 ≡ none
    → read_loop (suc fuel) own cfg r s ≡ read_loop fuel own cfg (on_packet own cfg r k).0 t
unfolding read_loop
goes_on fuel own cfg r s t k e d = rw (read_loop, e, d)

pub stops :
    (fuel : ℕ) (own : OwnStreams) (cfg : Settings) (r : Reader) (s t : Source) (k : Packet)
    (v : AppResult (Unit {0}))
    → read_packet s ≡ ok (some k, t)
    → (on_packet own cfg r k).1 ≡ some v
    → read_loop (suc fuel) own cfg r s ≡ ((on_packet own cfg r k).0, some v)
unfolding read_loop
stops fuel own cfg r s t k v e d = rw (read_loop, e, d)

-- What `read_packet` can return.
pub data Reading (s : Source) : Type 0 where
  failed : (e : ProtocolError) → read_packet s ≡ err (refused e) → Reading s
  panics : read_packet s ≡ err aborted → Reading s
  closed : (t : Source) → read_packet s ≡ ok (none, t) → Reading s
  packet : (k : Packet) (t : Source) → read_packet s ≡ ok (some k, t) → Reading s

pub reading : (s : Source) → Reading s
reading s = at (read_packet s) refl
  where
    at : (p : Result Fault (Option Packet × Source)) → read_packet s ≡ p → Reading s
    at (err (refused e)) d = failed e d
    at (err aborted) d = panics d
    at (ok (none, t)) d = closed t d
    at (ok (some k, t)) d = packet k t d

-- The stream has a packet on which `read_packet` panics, behind others that it reads.
pub data Panics : Source → Type 0 where
  here : {s : Source} → read_packet s ≡ err aborted → Panics s
  behind : {s t : Source} {k : Packet} → read_packet s ≡ ok (some k, t) → Panics t → Panics s

-- A result, or a panic.
abbrev pub Ends : Verdict → Source → Type 0
Ends v s = ((result : AppResult (Unit {0})) × (v ≡ some result)) ⊎ ((v ≡ none) × Panics s)

loop_ends :
    (fuel : ℕ) (own : OwnStreams) (cfg : Settings) (r : Reader) (s : Source)
    → length s.pending < fuel
    → Ends (read_loop fuel own cfg r s).1 s
unfolding read_loop on_fault
loop_ends zero own cfg r s h = absurd (omega arith)
loop_ends (suc fuel) own cfg r s h = elim (reading s) [
  | failed e d ↦ rw (read_loop, d) (inl (_, refl))
  | panics d ↦ rw (read_loop, d) (inr (refl, here d))
  | closed t d ↦ rw (read_loop, d) (inl (_, refl))
  | packet k t d ↦ elim (Option-cases ((on_packet own cfg r k).1)) [
    | inr (v, e) ↦ rw (stops fuel own cfg r s t k v d e) (inl (v, refl))
    | inl e ↦
        let rest =
          loop_ends fuel own cfg (on_packet own cfg r k).0 t
            (omega (arith, read_packet_takes s k t d)) in
        rw (goes_on fuel own cfg r s t k d e)
          (elim rest [ inl found ↦ inl found | inr (silent, panic) ↦ inr (silent, behind d panic) ])
  ]
]

-- Whatever the server sends, however its stream ends, and whether or not the own streams fail,
-- read_protocol returns a result, unless the stream has, behind packets that are read, one on which
-- read_packet panics: the fuel of its loop is enough.
pub read_protocol_returns :
    (own : OwnStreams) (cfg : Settings) (s : Source) → Ends (read_protocol own cfg s).1 s
unfolding read_protocol
read_protocol_returns own cfg s =
    loop_ends (length s.pending + 1) own cfg (start cfg) s (omega arith)
