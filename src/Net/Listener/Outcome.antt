-- ===== src/Net/Listener/Outcome.antt =====
-- include/lx/net: what the constructors of the gateways leave, on success and after an exception.
use lite_exchange.Base.{
  ℕ, ◌≡◌, refl, ◌⊎◌, inl, inr, Bool, true, Bool-cases, Option-cases, Option, none, some,
}
use lite_exchange.Engine.ShardSet.{ShardSet}
use lite_exchange.Net.Sockets.{Sockets, IsPosix}
use lite_exchange.Net.Gateway.{Gateway}
use lite_exchange.Net.Gateway.Invariant.{IsGateway}
use lite_exchange.Net.Listener.{Setup, Result, made, threw, FailedCall, open_listener, make_gateway}

-- A call leaves what is so of the descriptors.
abbrev pub Keeps : {K : Type 0} → (K → ℕ → Bool) → (K → K) → Type 0
Keeps {K} p f = (k : K) (j : ℕ) → p k j ≡ true → p (f k) j ≡ true

-- What POSIX says of the calls: `socket` opens the descriptor that it gives, or opens none; `bind` binds it and
-- `listen` makes it listen, if they succeed; and none of the calls undoes any of it.
pub record IsPosixSetup {K : Type 0} (setup : Setup K) (net : Sockets K) (is_open : K → ℕ → Bool)
    : Type 0 where
  pub is_bound : K → ℕ → Bool
  pub is_listening : K → ℕ → Bool
  pub socket_fails :
      (k : K) → (setup.socket k).0 ≡ none → (j : ℕ) → is_open (setup.socket k).1 j ≡ is_open k j
  pub bind_binds :
      (fd port : ℕ) (k : K)
      → (setup.bind fd port k).0 ≡ true
      → is_bound (setup.bind fd port k).1 fd ≡ true
  pub listen_listens :
      (fd n : ℕ) (k : K)
      → (setup.listen fd n k).0 ≡ true
      → is_listening (setup.listen fd n k).1 fd ≡ true
  pub listen_bound : (fd n : ℕ) → Keeps is_bound (λ k. (setup.listen fd n k).1)
  pub getsockname_bound : (fd : ℕ) → Keeps is_bound (λ k. (setup.getsockname fd k).1)
  pub nonblocking_bound : (fd : ℕ) → Keeps is_bound (net.set_nonblocking fd)
  pub epoll_bound : Keeps is_bound (λ k. (setup.epoll_create1 k).1)
  pub watch_bound : (fd : ℕ) → Keeps is_bound (net.watch fd)
  pub getsockname_listening : (fd : ℕ) → Keeps is_listening (λ k. (setup.getsockname fd k).1)
  pub nonblocking_listening : (fd : ℕ) → Keeps is_listening (net.set_nonblocking fd)
  pub epoll_listening : Keeps is_listening (λ k. (setup.epoll_create1 k).1)
  pub watch_listening : (fd : ℕ) → Keeps is_listening (net.watch fd)
  pub socket_opens :
      (k : K) (fd : ℕ) → (setup.socket k).0 ≡ some fd → is_open (setup.socket k).1 fd ≡ true
  pub reuseaddr_keeps :
      (fd : ℕ) (k : K) (j : ℕ) → is_open k j ≡ true → is_open (setup.set_reuseaddr fd k) j ≡ true
  pub bind_keeps :
      (fd port : ℕ) (k : K) (j : ℕ) → is_open k j ≡ true → is_open (setup.bind fd port k).1 j ≡ true
  pub listen_keeps :
      (fd n : ℕ) (k : K) (j : ℕ) → is_open k j ≡ true → is_open (setup.listen fd n k).1 j ≡ true
  pub getsockname_keeps :
      (fd : ℕ) (k : K) (j : ℕ) → is_open k j ≡ true → is_open (setup.getsockname fd k).1 j ≡ true
  pub epoll_keeps :
      (k : K) (j : ℕ) → is_open k j ≡ true → is_open (setup.epoll_create1 k).1 j ≡ true

module _ {K : Type 0} {setup : Setup K} {net : Sockets K} {is_open : K → ℕ → Bool}
    (p : IsPosixSetup setup net is_open) where
  -- An exception after the call of `socket`, in state `k0`, that gave `fd`: nothing is open that was not before,
  -- if there is no `fd`, or `fd` is still open.
  abbrev pub Thrown : K → Option ℕ → FailedCall → K → Type 0
  Thrown k0 fd call k =
      ((fd ≡ none) × (call ≡ FailedCall.socket) × ((j : ℕ) → is_open k j ≡ is_open k0 j))
      ⊎ ((j : ℕ) × (fd ≡ some j) × (is_open k j ≡ true))

  -- A gateway with no session whose descriptor is open, bound and listening; or an exception.
  abbrev pub Outcome : K → Option ℕ → Result (Gateway K) K → Type 0
  Outcome k0 fd (made g k) =
      (fd ≡ some g.listen_fd)
      × (is_open g.kernel g.listen_fd ≡ true)
      × (p.is_bound g.kernel g.listen_fd ≡ true)
      × (p.is_listening g.kernel g.listen_fd ≡ true)
      × IsGateway is_open g
      × ((j : ℕ) → g.sessions j ≡ none)
      × (g.running ≡ true)
  Outcome k0 fd (threw call k) = Thrown k0 fd call k

  -- The same of the part that opens the listener.
  abbrev pub Listening : K → Option ℕ → Result (ℕ × ℕ) K → Type 0
  Listening k0 fd (made (j, port) k) =
      (fd ≡ some j) × (is_open k j ≡ true) × (p.is_bound k j ≡ true) × (p.is_listening k j ≡ true)
  Listening k0 fd (threw call k) = Thrown k0 fd call k

module _ {K : Type 0} (setup : Setup K) (net : Sockets K) (posix : IsPosix net)
    (p : IsPosixSetup setup net posix.is_open) where
  open_listener-Listening :
      (port : ℕ) (k : K) → Listening p k (setup.socket k).0 (open_listener setup port k)
  unfolding open_listener
  open_listener-Listening port k = elim (Option-cases (setup.socket k).0) [
    | inl e ↦ rw (e, open_listener) (inl (refl, refl, p.socket_fails k e))
    | inr (fd, e) ↦
        let k1 = setup.set_reuseaddr fd (setup.socket k).1 in
        let k2 = (setup.bind fd port k1).1 in
        let k3 = (setup.listen fd 128 k2).1 in
        let h = p.bind_keeps fd port k1 fd (p.reuseaddr_keeps fd _ fd (p.socket_opens k fd e)) in
        let h' = p.listen_keeps fd 128 k2 fd h in
        elim (Bool-cases (setup.bind fd port k1).0) [
          | inr b ↦ rw (e, b, open_listener) (inr (fd, refl, h))
          | inl b ↦ elim (Bool-cases (setup.listen fd 128 k2).0) [
            | inr l ↦ rw (e, b, l, open_listener) (inr (fd, refl, h'))
            | inl l ↦
                rw (e, b, l, open_listener)
                  (
                    refl,
                    p.getsockname_keeps fd k3 fd h',
                    p.getsockname_bound fd k3 fd
                        (p.listen_bound fd 128 k2 fd (p.bind_binds fd port k1 b)),
                    p.getsockname_listening fd k3 fd (p.listen_listens fd 128 k2 l),
                  )
          ]
        ]
  ]

  opened-Outcome :
      (shards : ShardSet) (port : ℕ) (k : K) (r : Result (ℕ × ℕ) K)
      → open_listener setup port k ≡ r
      → Listening p k (setup.socket k).0 r
      → Outcome p k (setup.socket k).0 (make_gateway setup net shards port k)
  unfolding make_gateway
  opened-Outcome shards port k (threw call k1) e h = rw (e, make_gateway) h
  opened-Outcome shards port k (made (fd, bound_port) k1) e (same, opened, bound, listens) =
      let k2 = net.set_nonblocking fd k1 in
      let h = p.epoll_keeps k2 fd (posix.nonblocking_keeps fd k1 fd opened) in
      elim (Option-cases (setup.epoll_create1 k2).0) [
        | inl none_made ↦ rw (e, none_made, make_gateway) (inr (fd, same, h))
        | inr (epoll_fd, one_made) ↦
            rw (e, one_made, make_gateway)
              (
                same,
                posix.watch_keeps fd _ fd h,
                p.watch_bound fd _ fd (p.epoll_bound k2 fd (p.nonblocking_bound fd k1 fd bound)),
                p.watch_listening fd _ fd
                    (p.epoll_listening k2 fd (p.nonblocking_listening fd k1 fd listens)),
                record {
                  routing = record { routed = λ sid j e. cc; listed = λ j s e. cc };
                  held = λ j s e. cc;
                },
                (λ j. refl),
                refl,
              )
      ]

  -- The constructor of the epoll gateway gives a running gateway with no session, whose descriptor is open, bound
  -- and listening; or it throws: at `socket`, with the same descriptors open as before, or later, with the
  -- descriptor that `socket` gave still open.
  pub make_gateway-Outcome :
      (shards : ShardSet) (port : ℕ) (k : K)
      → Outcome p k (setup.socket k).0 (make_gateway setup net shards port k)
  make_gateway-Outcome shards port k =
      opened-Outcome shards port k (open_listener setup port k) refl
        (open_listener-Listening port k)
