-- ===== src/Net/Sockets.antt =====
-- The system calls that include/lx/net uses, as functions on a state of the kernel, and what the
-- gateways rely on of them.
use lite_exchange.Base.{
  ℕ, ◌≤◌, ◌<◌, ◌≡◌, ◌≢◌, Bool, true, false, Option, some, List, ◌++◌, length, take,
}
use lite_exchange.Proto.Codec.{Bytes}

-- What `recv` returns: more than 0, with the bytes; 0; or less.
pub data Received : Type 0 where
  bytes : Bytes → Received
  hung_up failed : Received

pub record Sockets (K : Type 0) : Type 0 where
  -- A connection of the listening socket, or none for a negative result.
  pub accept : K → Option ℕ × K
  pub set_nonblocking : ℕ → K → K
  pub set_nodelay : ℕ → K → K
  -- EPOLL_CTL_ADD and EPOLL_CTL_DEL
  pub watch : ℕ → K → K
  pub unwatch : ℕ → K → K
  pub recv : ℕ → K → Received × K
  -- The bytes taken; 0 stands for a failure too.
  pub send : ℕ → Bytes → K → ℕ × K
  pub close : ℕ → K → K
  -- `epoll_wait`: the descriptors that are ready.
  pub wait : ℕ → K → List ℕ × K

-- What POSIX says of descriptors and streams: `is_open` are the descriptors of the process, and
-- `written` is what went into a socket.
pub record IsPosix {K : Type 0} (net : Sockets K) : Type 0 where
  pub is_open : K → ℕ → Bool
  pub written : K → ℕ → Bytes
  pub accept_fresh : (k : K) (fd : ℕ) → (net.accept k).0 ≡ some fd → is_open k fd ≡ false
  pub accept_opens :
      (k : K) (fd : ℕ) → (net.accept k).0 ≡ some fd → is_open (net.accept k).1 fd ≡ true
  -- No call but `close` closes a descriptor, and it closes no other.
  pub accept_keeps : (k : K) (j : ℕ) → is_open k j ≡ true → is_open (net.accept k).1 j ≡ true
  pub nonblocking_keeps :
      (fd : ℕ) (k : K) (j : ℕ) → is_open k j ≡ true → is_open (net.set_nonblocking fd k) j ≡ true
  pub nodelay_keeps :
      (fd : ℕ) (k : K) (j : ℕ) → is_open k j ≡ true → is_open (net.set_nodelay fd k) j ≡ true
  pub watch_keeps :
      (fd : ℕ) (k : K) (j : ℕ) → is_open k j ≡ true → is_open (net.watch fd k) j ≡ true
  pub unwatch_keeps :
      (fd : ℕ) (k : K) (j : ℕ) → is_open k j ≡ true → is_open (net.unwatch fd k) j ≡ true
  pub recv_keeps :
      (fd : ℕ) (k : K) (j : ℕ) → is_open k j ≡ true → is_open (net.recv fd k).1 j ≡ true
  pub send_keeps :
      (fd : ℕ) (bs : Bytes) (k : K) (j : ℕ)
      → is_open k j ≡ true
      → is_open (net.send fd bs k).1 j ≡ true
  pub wait_keeps :
      (ms : ℕ) (k : K) (j : ℕ) → is_open k j ≡ true → is_open (net.wait ms k).1 j ≡ true
  pub close_keeps :
      (fd : ℕ) (k : K) (j : ℕ) → j ≢ fd → is_open k j ≡ true → is_open (net.close fd k) j ≡ true
  -- `send` takes a part of its bytes from the front, and writes to no other socket.
  pub send_takes : (fd : ℕ) (bs : Bytes) (k : K) → (net.send fd bs k).0 ≤ length bs
  pub send_writes :
      (fd : ℕ) (bs : Bytes) (k : K)
      → written (net.send fd bs k).1 fd ≡ written k fd ++ take (net.send fd bs k).0 bs
  pub send_others :
      (fd : ℕ) (bs : Bytes) (k : K) (j : ℕ) → j ≢ fd → written (net.send fd bs k).1 j ≡ written k j

-- While no client connects or sends: the connections that wait, and what waits in a socket, get fewer.
pub record IsFinite {K : Type 0} (net : Sockets K) : Type 0 where
  pub backlog : K → ℕ
  pub unread : ℕ → K → ℕ
  pub accept_backlog :
      (k : K) (fd : ℕ) → (net.accept k).0 ≡ some fd → backlog (net.accept k).1 < backlog k
  pub nonblocking_backlog : (fd : ℕ) (k : K) → backlog (net.set_nonblocking fd k) ≤ backlog k
  pub nodelay_backlog : (fd : ℕ) (k : K) → backlog (net.set_nodelay fd k) ≤ backlog k
  pub watch_backlog : (fd : ℕ) (k : K) → backlog (net.watch fd k) ≤ backlog k
  pub recv_unread :
      (fd : ℕ) (k : K) (buf : Bytes)
      → (net.recv fd k).0 ≡ bytes buf
      → unread fd (net.recv fd k).1 < unread fd k
