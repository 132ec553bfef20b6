-- ===== src/Transport/Blocking.antt =====
-- Sockets of src/transport.rs on one address: the listener, what it accepts and what connects to it.
use replstoke.Common.{ℕ, ◌≡◌, refl, Bool, true, false, Bytes, ok, err}
use replstoke.Cli.Config.{Bind}
use replstoke.Transport.{Sockets, Listener, Stream, Io, map_ok, then_blocking, accept}

-- The family of an address and of the sockets.
abbrev pub of_bind : Bind → Bool
of_bind (Bind.tcp addr port) = false
of_bind (Bind.unix path) = true

abbrev pub of_listener : Listener → Bool
of_listener (Listener.tcp l) = false
of_listener (Listener.unix l) = true

abbrev pub of_stream : Stream → Bool
of_stream (Stream.tcp s) = false
of_stream (Stream.unix s) = true

-- What the documented `set_nonblocking(false)` does when it succeeds: the socket blocks.
pub record Sets {A W : Type 0} (net : Sockets A W) (blocks : ℕ → W → Type 0) : Type 0 where
  pub sets : (s : ℕ) (w w' : W) → net.set_nonblocking s false w ≡ (w', ok tt) → blocks s w'

abbrev pub Blocks : {W : Type 0} → (ℕ → W → Type 0) → (ℕ → W → Type 0) → Stream → W → Type 0
Blocks t u (Stream.tcp s) w = t s w
Blocks t u (Stream.unix s) w = u s w

module _ {W : Type 0} (tcp : Sockets (Bytes × ℕ) W) (unix : Sockets Bytes W) (t u : ℕ → W → Type 0)
    (tl : Sets tcp t) (ul : Sets unix u) where
  blocking :
      {A : Type 0} (net : Sockets A W) (b : ℕ → W → Type 0)
      → Sets net b
      → (f : ℕ → Stream) (r : Io W ℕ) (w' : W) (s : Stream)
      → then_blocking net.set_nonblocking f r ≡ (w', ok s)
      → (n : ℕ) × (s ≡ f n) × b n w'
  blocking net b law f (w, err e) w' s h = cc
  blocking net b law f (w, ok n) w' s h = sets_off (net.set_nonblocking n false w) refl h
    where
      sets_off :
          (x : Io W (Unit {0}))
          → net.set_nonblocking n false w ≡ x
          → map_ok (λ u. f n) x ≡ (w', ok s)
          → (n : ℕ) × (s ≡ f n) × b n w'
      sets_off (v, err e) d h = cc
      sets_off (v, ok tt) d h = (n, cc, law.sets n w w' (cc))

  -- If accept yields a stream then it is of its listener's family and it blocks, whether or not
  -- accepted sockets inherit the listener's mode, given that a set_nonblocking(false) that succeeds
  -- makes a socket block.
  pub accept-Blocks :
      (l : Listener) (w w' : W) (s : Stream)
      → accept tcp unix l w ≡ (w', ok s)
      → (of_stream s ≡ of_listener l) × Blocks t u s w'
  unfolding accept
  accept-Blocks (Listener.tcp l) w w' s h =
      let (n, e, b) = blocking tcp t tl Stream.tcp (tcp.accept l w) w' s h in (rw e refl, rw e b)
  accept-Blocks (Listener.unix l) w w' s h =
      let (n, e, b) = blocking unix u ul Stream.unix (unix.accept l w) w' s h in (rw e refl, rw e b)
