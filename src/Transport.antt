-- ===== src/Transport.antt =====
-- src/transport.rs on unix: one interface over TCP and unix sockets. The sockets of the standard library
-- are the parameters `tcp` and `unix`, whose sockets are numbers; an error is its text.
pub mod Blocking
use replstoke.Common.{ℕ, Bool, true, false, Option, none, some, Bytes, Result, ok, err}
use replstoke.Cli.Config.{Bind}

-- `std::net::Shutdown`.
pub data Shutdown : Type 0 where
  reads writes both : Shutdown

-- What a call of the system returns.
abbrev pub Io : Type 0 → Type 0 → Type 0
Io W A = W × Result Bytes A

-- The sockets of one family, with addresses `A`, over the states `W` of the system.
pub record Sockets (A W : Type 0) : Type 0 where
  pub bind : A → W → Io W ℕ
  pub accept : ℕ → W → Io W ℕ
  pub connect : A → W → Io W ℕ
  pub set_nonblocking : ℕ → Bool → W → Io W (Unit {0})
  pub try_clone : ℕ → W → Io W ℕ
  pub shutdown : ℕ → Shutdown → W → Io W (Unit {0})
  pub read : ℕ → ℕ → W → Io W Bytes
  pub write : ℕ → Bytes → W → Io W ℕ
  pub flush : ℕ → W → Io W (Unit {0})

pub data Listener : Type 0 where
  tcp unix : ℕ → Listener

pub data Stream : Type 0 where
  tcp unix : ℕ → Stream

abbrev pub map_ok : {W A B : Type 0} → (A → B) → Io W A → Io W B
map_ok f (w, err e) = (w, err e)
map_ok f (w, ok a) = (w, ok (f a))

-- `set_nonblocking(false)?` on a socket that was accepted.
abbrev pub then_blocking :
    {W : Type 0} → (ℕ → Bool → W → Io W (Unit {0})) → (ℕ → Stream) → Io W ℕ → Io W Stream
then_blocking set f (w, err e) = (w, err e)
then_blocking set f (w, ok s) = map_ok (λ u. f s) (set s false w)

module _ {W : Type 0} (tcp : Sockets (Bytes × ℕ) W) (unix : Sockets Bytes W) where
  -- `none` is the panic of a unix path that was not resolved.
  unfoldable pub bind : Bind → W → Option (Io W Listener)
  bind (Bind.tcp addr port) w = some (map_ok Listener.tcp (tcp.bind (addr, port) w))
  bind (Bind.unix none) w = none
  bind (Bind.unix (some path)) w = some (map_ok Listener.unix (unix.bind path w))

  unfoldable pub accept : Listener → W → Io W Stream
  accept (Listener.tcp l) w = then_blocking tcp.set_nonblocking Stream.tcp (tcp.accept l w)
  accept (Listener.unix l) w = then_blocking unix.set_nonblocking Stream.unix (unix.accept l w)

  unfoldable pub set_nonblocking : Listener → Bool → W → Io W (Unit {0})
  set_nonblocking (Listener.tcp l) nonblocking w = tcp.set_nonblocking l nonblocking w
  set_nonblocking (Listener.unix l) nonblocking w = unix.set_nonblocking l nonblocking w

  unfoldable pub connect : Bind → W → Option (Io W Stream)
  connect (Bind.tcp addr port) w = some (map_ok Stream.tcp (tcp.connect (addr, port) w))
  connect (Bind.unix none) w = none
  connect (Bind.unix (some path)) w = some (map_ok Stream.unix (unix.connect path w))

  unfoldable pub try_clone : Stream → W → Io W Stream
  try_clone (Stream.tcp s) w = map_ok Stream.tcp (tcp.try_clone s w)
  try_clone (Stream.unix s) w = map_ok Stream.unix (unix.try_clone s w)

  unfoldable pub shutdown : Stream → Shutdown → W → Io W (Unit {0})
  shutdown (Stream.tcp s) how w = tcp.shutdown s how w
  shutdown (Stream.unix s) how w = unix.shutdown s how w

  unfoldable pub read : Stream → ℕ → W → Io W Bytes
  read (Stream.tcp s) n w = tcp.read s n w
  read (Stream.unix s) n w = unix.read s n w

  unfoldable pub write : Stream → Bytes → W → Io W ℕ
  write (Stream.tcp s) buf w = tcp.write s buf w
  write (Stream.unix s) buf w = unix.write s buf w

  unfoldable pub flush : Stream → W → Io W (Unit {0})
  flush (Stream.tcp s) w = tcp.flush s w
  flush (Stream.unix s) w = unix.flush s w
