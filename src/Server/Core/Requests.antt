-- ===== src/Server/Core/Requests.antt =====
-- Who is accepted, how a request runs from its first input to its marker, and what the counters count.
use replstoke.Common.{
  ℕ, zero, suc, ◌+◌, ◌-◌, ◌<◌, ◌^◌, ◌≡◌, ◌≢◌, inl, inr, ◌↔◌, Bool, true, false, not, List, [], ◌∷◌,
  Option, none, some, arith, All, length, Option-cases,
}
use replstoke.Server.Core.{
  Phase, booting, warmup, idle, busy, draining, stopped, Core, try_accept, request_start,
  response_end,
}
use replstoke.Server.Core.Lifecycle.{Call, accept, request, response, respawn, apply, apply_all}

-- A REPL that no request occupies.
abbrev pub IsFree : Phase → Type 0
IsFree (booting since) = Unit
IsFree (warmup since) = Unit
IsFree idle = Unit
IsFree _ = ⊥

-- A client is accepted exactly if no client is attached and no request occupies the REPL; it gets the
-- next generation and the REPL counts as served, with nothing served to it yet; a refusal changes
-- nothing, and the phase never changes.
pub try_accept_lem :
    (c : Core) (has_sink : Bool)
    → (((g : ℕ) × ((try_accept c has_sink).1 ≡ some g)) ↔ ((has_sink ≡ false) × IsFree c.phase))
      × ((try_accept c has_sink).1 ≡ none → (try_accept c has_sink).0 ≡ c)
      × ((g : ℕ)
          → (try_accept c has_sink).1 ≡ some g
          → (g ≡ c.next_gen)
            × ((try_accept c has_sink).0.served ≡ true)
            × ((try_accept c has_sink).0.serving ≡ false))
      × ((try_accept c has_sink).0.phase ≡ c.phase)
unfolding try_accept
try_accept_lem c has_sink = (
  ((λ h. ground arith), λ h. (c.next_gen, ground arith)),
  (λ h. ground arith),
  (λ g h. ground arith),
  ground arith,
)

-- A call that neither ends a response nor starts another REPL.
abbrev pub keeps_request : Call → Bool
keeps_request response = false
keeps_request (respawn r h now) = false
keeps_request _ = true

abbrev pub is_occupied : Phase → Bool
is_occupied busy = true
is_occupied (draining d) = true
is_occupied stopped = true
is_occupied _ = false

keeps_occupied :
    (k : Call) (c : Core)
    → keeps_request k ≡ true
    → is_occupied c.phase ≡ true
    → is_occupied (apply k c).phase ≡ true
unfolding apply
keeps_occupied (accept s) c h e = ground arith
keeps_occupied k c h e = ground arith

-- From a busy, draining or stopped state, after any calls that neither end a response nor start the
-- REPL again (the client's leaving included), no client is accepted.
pub occupied_refuses :
    (ks : List Call) (c : Core) (has_sink : Bool)
    → All (λ k. keeps_request k ≡ true) ks
    → is_occupied c.phase ≡ true
    → (try_accept (apply_all ks c) has_sink).1 ≡ none
unfolding apply_all try_accept
occupied_refuses [] c has_sink h e = ground arith
occupied_refuses (k ∷ ks) c has_sink h e =
    occupied_refuses ks (apply k c) has_sink h.1 (keeps_occupied k c h.0 e)

-- Calls of a raw server.
abbrev pub is_raw : Call → Bool
is_raw (request protocol) = not protocol
is_raw _ = true

abbrev pub is_in_flight : Phase → Bool
is_in_flight busy = true
is_in_flight (draining d) = true
is_in_flight _ = false

raw_keeps :
    (k : Call) (c : Core)
    → is_raw k ≡ true
    → is_in_flight c.phase ≡ false
    → is_in_flight (apply k c).phase ≡ false
unfolding apply
raw_keeps (accept s) c h e = ground arith
raw_keeps k c h e = ground arith

-- Under calls of a raw server a state that is neither busy nor draining stays so.
pub raw_never_busy :
    (ks : List Call) (c : Core)
    → All (λ k. is_raw k ≡ true) ks
    → is_in_flight c.phase ≡ false
    → is_in_flight (apply_all ks c).phase ≡ false
unfolding apply_all
raw_never_busy [] c h e = e
raw_never_busy (k ∷ ks) c h e = raw_never_busy ks (apply k c) h.1 (raw_keeps k c h.0 e)

-- The generations that a run hands out.
unfoldable pub granted : Call → Core → Option ℕ
granted (accept has_sink) c = (try_accept c has_sink).1
granted _ c = none

abbrev pub push_some : Option ℕ → List ℕ → List ℕ
push_some none gs = gs
push_some (some g) gs = g ∷ gs

unfoldable pub grants : List Call → Core → List ℕ
unfolding granted
grants [] c = []
grants (k ∷ ks) c = push_some (granted k c) (grants ks (apply k c))

abbrev pub count_up : ℕ → ℕ → List ℕ
count_up start zero = []
count_up start (suc n) = start ∷ count_up (suc start) n

granted-none :
    (k : Call) (c : Core)
    → granted k c ≡ none
    → ((apply k c).next_gen ≡ c.next_gen) × ((apply k c).requests ≡ c.requests)
unfolding granted apply try_accept
granted-none (accept s) c h = ground arith
granted-none k c h = ground arith

granted-some :
    (k : Call) (c : Core) (g : ℕ)
    → c.next_gen < 2 ^ 64 - 1
    → c.requests < 2 ^ 64 - 1
    → granted k c ≡ some g
    → (g ≡ c.next_gen)
      × ((apply k c).next_gen ≡ suc c.next_gen)
      × ((apply k c).requests ≡ suc c.requests)
unfolding granted apply try_accept
granted-some (accept s) c g small few h = ground arith
granted-some k c g small few h = ground arith

-- While the counters have room, the generations that a run of calls hands out are consecutive from
-- next_gen, so no two clients share one, and requests counts them.
pub grants-count_up :
    (ks : List Call) (c : Core)
    → c.next_gen + length ks < 2 ^ 64
    → c.requests + length ks < 2 ^ 64
    → (grants ks c ≡ count_up c.next_gen (length (grants ks c)))
      × ((apply_all ks c).requests ≡ c.requests + length (grants ks c))
unfolding grants apply_all
grants-count_up [] c small few = ground arith
grants-count_up (k ∷ ks) c small few = elim (Option-cases (granted k c)) [
  | inl e ↦ ground (arith, granted-none k c e, grants-count_up ks (apply k c))
  | inr (g, e) ↦ ground (arith, granted-some k c g, grants-count_up ks (apply k c))
]

-- From idle, with req_seq below 2 ^ 64, a framed request makes the REPL busy, serves its client and
-- moves req_seq, and the end of the response makes it idle again and goes on serving the client.
pub request_cycle :
    (c : Core)
    → c.phase ≡ idle
    → c.req_seq < 2 ^ 64
    → ((request_start c true).phase ≡ busy)
      × ((request_start c true).req_seq ≢ c.req_seq)
      × (response_end (request_start c true)
          ≡ record c { serving = true; req_seq = (request_start c true).req_seq })
unfolding request_start response_end
request_cycle c e small = (ground arith, ground arith, ground arith)
