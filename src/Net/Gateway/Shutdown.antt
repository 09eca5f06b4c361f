-- ===== src/Net/Gateway/Shutdown.antt =====
-- include/lx/net/gateway.hpp: the descriptors that the destructor closes.
use lite_exchange.Base.{
  ℕ, ◌≡◌, Bool, true, false, not, ◌&&◌, ◌||◌, ◌==◌, Bool-cases, inl, inr, arith, Option, none, some,
  List, [], ◌∷◌,
}
use lite_exchange.Net.Session.{Session}
use lite_exchange.Net.Sockets.{Sockets}
use lite_exchange.Net.Gateway.{Gateway, close_all, destroy}

-- `close` closes its descriptor, and neither opens nor closes another.
pub record Closes {K : Type 0} (net : Sockets K) (is_open : K → ℕ → Bool) : Type 0 where
  pub shut : (fd : ℕ) (k : K) → is_open (net.close fd k) fd ≡ false
  pub others :
      (fd : ℕ) (k : K) (j : ℕ) → (j == fd) ≡ false → is_open (net.close fd k) j ≡ is_open k j

abbrev pub mem : ℕ → List ℕ → Bool
mem x [] = false
mem x (y ∷ ys) = (x == y) || mem x ys

abbrev pub has_session : Option Session → Bool
has_session none = false
has_session (some s) = true

module _ {K : Type 0} (net : Sockets K) {is_open : K → ℕ → Bool} (c : Closes net is_open) where
  close-is_open :
      (fd : ℕ) (k : K) (j : ℕ) → is_open (net.close fd k) j ≡ (is_open k j && not (j == fd))
  close-is_open fd k j = elim (Bool-cases (j == fd)) [
    | inl same ↦ ground (arith, c.shut fd k)
    | inr other ↦ ground (arith, c.others fd k j other)
  ]

  close_all-is_open :
      (fds : List ℕ) (k : K) (j : ℕ)
      → is_open (close_all net fds k) j ≡ (is_open k j && not (mem j fds))
  unfolding close_all
  close_all-is_open [] k j = ground arith
  close_all-is_open (fd ∷ fds) k j =
      ground (arith, close_all-is_open fds (net.close fd k) j, close-is_open fd k j)

  -- Where `fds` are the descriptors that have a session, the destructor leaves open what was open before and is
  -- neither a client's descriptor nor that of the listener nor that of epoll.
  pub destroy-is_open :
      (fds : List ℕ) (g : Gateway K)
      → ((j : ℕ) → mem j fds ≡ has_session (g.sessions j))
      → (j : ℕ)
      → is_open (destroy net fds g) j ≡ (
          is_open g.kernel j
          && not (has_session (g.sessions j) || (j == g.epoll_fd) || (j == g.listen_fd)))
  unfolding destroy
  destroy-is_open fds g keys j = ground (
    arith,
    close-is_open g.listen_fd (net.close g.epoll_fd (close_all net fds g.kernel)) j,
    close-is_open g.epoll_fd (close_all net fds g.kernel) j,
    close_all-is_open fds g.kernel j,
    keys j,
  )
