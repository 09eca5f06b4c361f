-- ===== src/Net/Examples/Shutdown.antt =====
-- The destructor of an epoll gateway with two clients: the theorem at work.
use lite_exchange.Base.{
  ℕ, ◌≡◌, refl, Bool, false, not, ◌&&◌, ◌||◌, ◌==◌, leb, Bool-cases, inl, inr, arith, none, some,
  [], ◌∷◌, update, update_self,
}
use lite_exchange.Net.Session.{init}
use lite_exchange.Net.Sockets.{Sockets, failed}
use lite_exchange.Net.Gateway.{Gateway, destroy}
use lite_exchange.Net.Gateway.Shutdown.{Closes, mem, has_session, destroy-is_open}
use lite_exchange.Net.Examples.Gateways.{shards}

-- The kernel is the set of the open descriptors.
abbrev descriptors : Sockets (ℕ → Bool)
descriptors = record {
  accept = λ k. (none, k);
  set_nonblocking = λ fd k. k;
  set_nodelay = λ fd k. k;
  watch = λ fd k. k;
  unwatch = λ fd k. k;
  recv = λ fd k. (failed, k);
  send = λ fd bs k. (0, k);
  close = λ fd k. update k fd false;
  wait = λ ms k. ([], k);
}

descriptors-Closes : Closes descriptors (λ k. k)
descriptors-Closes = record {
  shut = λ fd k. update_self k fd false;
  others = λ fd k j h. ground (arith, h);
}

-- The descriptors up to 6 are open, and 5 and 6 have clients.
abbrev busy : Gateway (ℕ → Bool)
busy = record {
  shards = shards;
  listen_fd = 3;
  epoll_fd = 4;
  port = 8080;
  next_session_id = 3;
  sessions = update (update (λ _. none) 5 (some (init 1))) 6 (some (init 2));
  sid_to_fd = update (update (λ _. none) 1 (some 5)) 2 (some 6);
  running = false;
  kernel = λ fd. leb fd 6;
}

clients : (j : ℕ) → mem j (6 ∷ 5 ∷ []) ≡ has_session (busy.sessions j)
clients j = elim (Bool-cases (j == 6)) [
  | inl six ↦ rw six refl
  | inr other ↦ elim (Bool-cases (j == 5)) [
    | inl five ↦ rw (other, five) refl
    | inr none_there ↦ rw (other, none_there) refl
  ]
]

destroy-is_open_example :
    destroy descriptors (6 ∷ 5 ∷ []) busy 5
    ≡ (leb 5 6 && not (has_session (busy.sessions 5) || (5 == 4) || (5 == 3)))
destroy-is_open_example = destroy-is_open descriptors descriptors-Closes (6 ∷ 5 ∷ []) busy clients 5
