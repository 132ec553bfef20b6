-- ===== src/Server/Core/Lifecycle.antt =====
-- The phases as a state machine: the transition table of STATE_MACHINE_DESIGN.md, and what follows.
use replstoke.Common.{
  ◌≡◌, ◌⊎◌, inl, inr, refl, Bool, true, false, List, [], ◌∷◌, Option, none, arith, All,
}
use replstoke.Server.Core.{
  Phase, booting, warmup, idle, busy, draining, stopped, Core, Instant, try_accept, request_start,
  response_end, client_gone, ready, warmup_done, begin_booting, stop, initial_phase,
}

-- A call of one of the methods of `Core`.
pub data Call : Type 0 where
  accept : (has_sink : Bool) → Call
  request : (protocol : Bool) → Call
  response : Call
  gone : (deadline : Option Instant) → Call
  boot_done : (has_warmup : Bool) (now : Instant) → Call
  warm : Call
  respawn : (is_ready has_warmup : Bool) (now : Instant) → Call
  halt : Call

unfoldable pub apply : Call → Core → Core
unfolding try_accept request_start response_end client_gone ready warmup_done begin_booting stop
apply (accept has_sink) c = (try_accept c has_sink).0
apply (request protocol) c = request_start c protocol
apply response c = response_end c
apply (gone deadline) c = client_gone c deadline
apply (boot_done has_warmup now) c = (ready c has_warmup now).0
apply warm c = (warmup_done c).0
apply (respawn is_ready has_warmup now) c = begin_booting c is_ready has_warmup now
apply halt c = stop c

unfoldable pub apply_all : List Call → Core → Core
unfolding apply
apply_all [] c = c
apply_all (k ∷ ks) c = apply_all ks (apply k c)

-- Stopped is terminal in the design.
abbrev pub IsLive : Phase → Type 0
IsLive stopped = ⊥
IsLive p = Unit

-- The edges of the design's table, each with the call that takes it. What follows `ReplExited` is
-- `halt`, or `respawn`, whose target is the initial phase: booting without a REPL that is ready from the
-- start, then the warmup if there is one, then idle.
infix 40 ◌⟨◌⟩⟶◌
pub data ◌⟨◌⟩⟶◌ : Phase → Call → Phase → Type 0 where
  repl_ready : {t n : Instant} → booting t ⟨ boot_done false n ⟩⟶ idle
  repl_warms : {t n : Instant} → booting t ⟨ boot_done true n ⟩⟶ warmup n
  warmed : {t : Instant} → warmup t ⟨ warm ⟩⟶ idle
  begins : idle ⟨ request true ⟩⟶ busy
  answered : busy ⟨ response ⟩⟶ idle
  abandoned : {d : Option Instant} → busy ⟨ gone d ⟩⟶ draining d
  drained : {d : Option Instant} → draining d ⟨ response ⟩⟶ idle
  reboots :
      {p : Phase} {has_warmup : Bool} {n : Instant}
      → IsLive p
      → p ⟨ respawn false has_warmup n ⟩⟶ booting n
  rewarms : {p : Phase} {n : Instant} → IsLive p → p ⟨ respawn true true n ⟩⟶ warmup n
  restarts : {p : Phase} {n : Instant} → IsLive p → p ⟨ respawn true false n ⟩⟶ idle
  halts : {p : Phase} → p ⟨ halt ⟩⟶ stopped

abbrev pub is_respawn : Call → Bool
is_respawn (respawn r h now) = true
is_respawn _ = false

-- From the phase `p` to `q` with the call `k`: no move, an edge, or a start of a REPL behind the end.
abbrev pub Moves : Call → Phase → Phase → Type 0
Moves k p q = (q ≡ p) ⊎ ((p ⟨ k ⟩⟶ q) ⊎ ((p ≡ stopped) × (is_respawn k ≡ true)))

taken : (k : Call) (c : Core) (p : Phase) → c.phase ≡ p → Moves k p (apply k c).phase
unfolding apply initial_phase
taken (accept has_sink) c p e = inl (ground arith)
taken (request false) c p e = inl (ground arith)
taken (request true) c idle e = inr (inl (rw (request_start, e) begins))
taken (request true) c p e = inl (ground arith)
taken response c busy e = inr (inl (rw (response_end, e) answered))
taken response c (draining d) e = inr (inl (rw (response_end, e) drained))
taken response c p e = inl (ground arith)
taken (gone d) c busy e = inr (inl (rw (client_gone, e) abandoned))
taken (gone d) c p e = inl (ground arith)
taken (boot_done false now) c (booting t) e = inr (inl (rw (ready, e) repl_ready))
taken (boot_done true now) c (booting t) e = inr (inl (rw (ready, e) repl_warms))
taken (boot_done h now) c p e = inl (ground arith)
taken warm c (warmup t) e = inr (inl (rw (warmup_done, e) warmed))
taken warm c p e = inl (ground arith)
taken (respawn r h now) c stopped e = inr (inr (refl, refl))
taken (respawn false h now) c p e = inr (inl (reboots tt))
taken (respawn true true now) c p e = inr (inl (rewarms tt))
taken (respawn true false now) c p e = inr (inl (restarts tt))
taken halt c p e = inr (inl halts)

edge_taken : {p q : Phase} {k : Call} (c : Core) → p ⟨ k ⟩⟶ q → c.phase ≡ p → (apply k c).phase ≡ q
unfolding apply initial_phase
edge_taken c repl_ready e = ground arith
edge_taken c _ e = ground arith

-- Each method of Core in each state leaves the phase alone or follows an edge of the design's
-- transition table, except that the start of a new REPL in Stopped, which is terminal in the table, is
-- not refused; and where the table has an edge for the call it is taken.
pub apply_edges :
    (k : Call) (c : Core)
    → Moves k c.phase (apply k c).phase × ((q : Phase) → c.phase ⟨ k ⟩⟶ q → (apply k c).phase ≡ q)
apply_edges k c = (taken k c c.phase refl, λ q edge. edge_taken c edge refl)

stays_stopped :
    (k : Call) (c : Core) → is_respawn k ≡ false → c.phase ≡ stopped → (apply k c).phase ≡ stopped
unfolding apply
stays_stopped (accept s) c r e = ground arith
stays_stopped k c r e = ground arith

-- A stopped server stays stopped under every sequence of calls without a respawn, and then refuses
-- every client.
pub stopped_absorbs :
    (ks : List Call) (c : Core)
    → All (λ k. is_respawn k ≡ false) ks
    → c.phase ≡ stopped
    → ((apply_all ks c).phase ≡ stopped) × ((s : Bool) → (try_accept (apply_all ks c) s).1 ≡ none)
unfolding apply_all try_accept
stopped_absorbs [] c h e = (e, λ s. ground arith)
stopped_absorbs (k ∷ ks) c h e = stopped_absorbs ks (apply k c) h.1 (stays_stopped k c h.0 e)
