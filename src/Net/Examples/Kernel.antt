-- ===== src/Net/Examples/Kernel.antt =====
-- A kernel for the examples: `waiting` clients connect and get descriptors in order, what they send is in
-- `inbox`, and a send takes at most `room` bytes.
use lite_exchange.Base.{
  Bool, ℕ, zero, suc, ◌<◌, ◌≡◌, refl, ap, ◌∙◌, arith, true, false, ltb, leb, min, Option, none,
  some, List, [], ◌∷◌, ◌++◌, length, take, update, update_self, update_ne,
}
use lite_exchange.Proto.Codec.{Bytes}
use lite_exchange.Net.Listener.{Setup}
use lite_exchange.Net.Listener.Outcome.{IsPosixSetup}
use lite_exchange.Net.Sockets.{Sockets, IsPosix, IsFinite, Received, bytes, failed}

pub record Kernel : Type 0 where
  pub next_fd : ℕ
  pub waiting : ℕ
  pub inbox : List Bytes
  pub streams : ℕ → Bytes
  pub bound : ℕ → Bool
  pub listening : ℕ → Bool

abbrev pub accept : Kernel → ℕ → Option ℕ × Kernel
accept k zero = (none, k)
accept k (suc n) = (some k.next_fd, record k { waiting = n; next_fd = suc k.next_fd })

abbrev pub recv : Kernel → List Bytes → Received × Kernel
recv k [] = (failed, k)
recv k (b ∷ bs) = (bytes b, record k { inbox = bs })

abbrev pub sockets : ℕ → Sockets Kernel
sockets room = record {
  accept = λ k. accept k k.waiting;
  set_nonblocking = λ fd k. k;
  set_nodelay = λ fd k. k;
  watch = λ fd k. k;
  unwatch = λ fd k. k;
  recv = λ fd k. recv k k.inbox;
  send = λ fd bs k.
      let w = min room (length bs) in
      (w, record k { streams = update k.streams fd (k.streams fd ++ take w bs) });
  close = λ fd k. k;
  wait = λ ms k. (3 ∷ [], k);
}

accepted-next : (k : Kernel) (n fd : ℕ) → (accept k n).0 ≡ some fd → fd ≡ k.next_fd
accepted-next k (suc n) fd e = ground (arith, e)
accepted-next k zero fd e = cc

pub accepted-fresh : (k : Kernel) (n fd : ℕ) → (accept k n).0 ≡ some fd → ltb fd k.next_fd ≡ false
accepted-fresh k n fd e = ground (arith, accepted-next k n fd e)

pub accepted-opens :
    (k : Kernel) (n fd : ℕ) → (accept k n).0 ≡ some fd → ltb fd (accept k n).1.next_fd ≡ true
accepted-opens k (suc n) fd e = ground (arith, e)
accepted-opens k zero fd e = cc

pub accepted-keeps :
    (k : Kernel) (n j : ℕ) → ltb j k.next_fd ≡ true → ltb j (accept k n).1.next_fd ≡ true
accepted-keeps k (suc n) j h = ground (arith, h)
accepted-keeps k zero j h = h

pub recv-next_fd : (k : Kernel) (bs : List Bytes) → (recv k bs).1.next_fd ≡ k.next_fd
recv-next_fd k [] = refl
recv-next_fd k (b ∷ bs) = refl

pub accepted-waiting :
    (k : Kernel) (n fd : ℕ)
    → k.waiting ≡ n
    → (accept k n).0 ≡ some fd
    → (accept k n).1.waiting < k.waiting
accepted-waiting k (suc n) fd e h = omega (arith, e)
accepted-waiting k zero fd e h = cc

pub recv-inbox :
    (k : Kernel) (bs : List Bytes) (buf : Bytes)
    → k.inbox ≡ bs
    → (recv k bs).0 ≡ bytes buf
    → length (recv k bs).1.inbox < length k.inbox
recv-inbox k [] buf e h = cc
recv-inbox k (b ∷ bs) buf e h = omega (arith, ap length e)

abbrev pub posix : (room : ℕ) → IsPosix (sockets room)
posix room = record {
  is_open = λ k fd. ltb fd k.next_fd;
  written = λ k. k.streams;
  accept_fresh = λ k fd e. accepted-fresh k k.waiting fd e;
  accept_opens = λ k fd e. accepted-opens k k.waiting fd e;
  accept_keeps = λ k j h. accepted-keeps k k.waiting j h;
  nonblocking_keeps = λ fd k j h. h;
  nodelay_keeps = λ fd k j h. h;
  watch_keeps = λ fd k j h. h;
  unwatch_keeps = λ fd k j h. h;
  recv_keeps = λ fd k j h. ap (ltb j) (recv-next_fd k k.inbox) ∙ h;
  send_keeps = λ fd bs k j h. h;
  wait_keeps = λ ms k j h. h;
  close_keeps = λ fd k j n h. h;
  send_takes = λ fd bs k. omega arith;
  send_writes = λ fd bs k. update_self k.streams fd _;
  send_others = λ fd bs k j n. update_ne k.streams fd _ j n;
}

abbrev pub finite : (room : ℕ) → IsFinite (sockets room)
finite room = record {
  backlog = λ k. k.waiting;
  unread = λ fd k. length k.inbox;
  accept_backlog = λ k fd e. accepted-waiting k k.waiting fd refl e;
  nonblocking_backlog = λ fd k. omega arith;
  nodelay_backlog = λ fd k. omega arith;
  watch_backlog = λ fd k. omega arith;
  recv_unread = λ fd k buf e. recv-inbox k k.inbox buf refl e;
}

-- The set-up of a listener: a port below 1024 is not given.
abbrev pub setup : Setup Kernel
setup = record {
  socket = λ k. (some k.next_fd, record k { next_fd = suc k.next_fd });
  set_reuseaddr = λ fd k. k;
  bind = λ fd port k. (leb 1024 port, record k { bound = update k.bound fd (leb 1024 port) });
  listen = λ fd n k. (true, record k { listening = update k.listening fd true });
  getsockname = λ fd k. (8080, k);
  epoll_create1 = λ k. (some k.next_fd, record k { next_fd = suc k.next_fd });
  queue_init = λ depth sqpoll cpu k. (true, k);
}

pub opened_keeps : (n j : ℕ) → ltb j n ≡ true → ltb j (suc n) ≡ true
opened_keeps n j h = ground (arith, h)

pub given_opens : (n fd : ℕ) → some n ≡ some fd → ltb fd (suc n) ≡ true
given_opens n fd e = ground (arith, e)

pub given_fails : (n : ℕ) → some n ≡ none → (P : Type 0) → P
given_fails n e P = absurd (cc)

abbrev pub posix_setup : (room : ℕ) → IsPosixSetup setup (sockets room) (posix room).is_open
posix_setup room = record {
  is_bound = λ k. k.bound;
  is_listening = λ k. k.listening;
  socket_fails = λ k e j. given_fails k.next_fd e (ltb j (suc k.next_fd) ≡ ltb j k.next_fd);
  bind_binds = λ fd port k e. update_self k.bound fd _ ∙ e;
  listen_listens = λ fd n k e. update_self k.listening fd true;
  listen_bound = λ fd n k j h. h;
  getsockname_bound = λ fd k j h. h;
  nonblocking_bound = λ fd k j h. h;
  epoll_bound = λ k j h. h;
  watch_bound = λ fd k j h. h;
  getsockname_listening = λ fd k j h. h;
  nonblocking_listening = λ fd k j h. h;
  epoll_listening = λ k j h. h;
  watch_listening = λ fd k j h. h;
  socket_opens = λ k fd e. given_opens k.next_fd fd e;
  reuseaddr_keeps = λ fd k j h. h;
  bind_keeps = λ fd port k j h. h;
  listen_keeps = λ fd n k j h. h;
  getsockname_keeps = λ fd k j h. h;
  epoll_keeps = λ k j h. opened_keeps k.next_fd j h;
}
