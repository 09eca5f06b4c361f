-- ===== src/Net/UringGateway/Invariant/Polls.antt =====
-- include/lx/net/uring_gateway.hpp: a whole poll, as steps between the states that the gateway can reach.
use lite_exchange.Base.{ℕ, ◌≡◌, List, [], ◌∷◌, ◌++◌}
use lite_exchange.Net.UringGateway.{
  UringGateway, Effect, submit, call, Cqe, handle_cqe, drain_outbound, await_cqe,
}
use lite_exchange.Net.UringGateway.Invariant.{entries_since, after, Accepts}

module _ (busy : List Effect → ℕ) (ring_bits : ℕ) where
  -- Each completion is of a request in flight when it is handled.
  abbrev pub Completions : List Cqe → UringGateway → List ℕ → Type 0
  Completions [] u flight = Unit
  Completions (c ∷ cs) u flight =
      let u' = handle_cqe busy ring_bits c u in
      (a : List ℕ) × (b : List ℕ) × (flight ≡ a ++ c.user_data ∷ b)
      × Accepts c u
      × Completions cs u' (after c a b ++ entries_since u u')

  -- When the poll looks for completions.
  abbrev pub waiting : ℕ → UringGateway → UringGateway
  waiting timeout_ms u =
      await_cqe busy ring_bits timeout_ms (call submit (drain_outbound busy ring_bits u))
