-- ===== src/Net/Listener.antt =====
-- include/lx/net: the constructors of the two gateways, which open a listening socket, with the system calls
-- as a parameter. A thrown `runtime_error` is the call that it names, with the kernel as it is left.
pub mod Outcome
use lite_exchange.Base.{ℕ, Bool, true, Option, none, some, List}
use lite_exchange.Proto.Messages.{OutboundMsg}
use lite_exchange.Engine.Shard.{Shard}
use lite_exchange.Engine.ShardSet.{ShardSet}
use lite_exchange.Net.Sockets.{Sockets}
use lite_exchange.Net.Gateway.{Gateway}
use lite_exchange.Net.UringGateway.{UringGateway, Effect, start}

pub data FailedCall : Type 0 where
  socket bind listen epoll_create1 io_uring_queue_init_params : FailedCall

pub data Result {ℓ} (A : Type ℓ) (K : Type 0) : Type ℓ where
  made : A → K → Result A K
  threw : FailedCall → K → Result A K

-- The calls; a Boolean is whether the call succeeds, an option a descriptor or a negative result.
pub record Setup (K : Type 0) : Type 0 where
  pub socket : K → Option ℕ × K
  pub set_reuseaddr : ℕ → K → K
  -- To the loopback address, at a port.
  pub bind : ℕ → ℕ → K → Bool × K
  pub listen : ℕ → ℕ → K → Bool × K
  pub getsockname : ℕ → K → ℕ × K
  pub epoll_create1 : K → Option ℕ × K
  -- RING_DEPTH, and whether the kernel polls, on which processor.
  pub queue_init : ℕ → Bool → ℕ → K → Bool × K

module _ {K : Type 0} (setup : Setup K) where
  -- From `socket` to `getsockname`: the listening descriptor and its port.
  unfoldable pub open_listener : ℕ → K → Result (ℕ × ℕ) K
  open_listener port k =
      let (fd, k1) = setup.socket k in
      elim fd [
        | none ↦ threw socket k1
        | some fd ↦
            let (bound, k2) = setup.bind fd port (setup.set_reuseaddr fd k1) in
            elim bound [
              | Bool.false ↦ threw bind k2
              | true ↦
                  let (listening, k3) = setup.listen fd 128 k2 in
                  elim listening [
                    | Bool.false ↦ threw listen k3
                    | true ↦
                        let (bound_port, k4) = setup.getsockname fd k3 in made (fd, bound_port) k4
                  ]
            ]
      ]

  -- `Gateway(shards, port)`
  unfoldable pub make_gateway : Sockets K → ShardSet → ℕ → K → Result (Gateway K) K
  make_gateway net shards port k = elim (open_listener port k) [
    | threw call k1 ↦ threw call k1
    | made (fd, bound_port) k1 ↦
        let (epoll, k2) = setup.epoll_create1 (net.set_nonblocking fd k1) in
        elim epoll [
          | none ↦ threw epoll_create1 k2
          | some epoll_fd ↦
              let k3 = net.watch fd k2 in
              made
                (record {
                  shards = shards;
                  listen_fd = fd;
                  epoll_fd = epoll_fd;
                  port = bound_port;
                  next_session_id = 1;
                  sessions = λ _. none;
                  sid_to_fd = λ _. none;
                  running = true;
                  kernel = k3;
                })
                k3
        ]
  ]

  -- `UringGateway(shard, port, sqpoll, sq_cpu)`
  unfoldable pub make_uring_gateway :
      (List Effect → ℕ) → ℕ → OutboundMsg → Shard → ℕ → Bool → ℕ → K → Result UringGateway K
  make_uring_gateway busy ring_bits zero_msg shard port sqpoll sq_cpu k =
      elim (open_listener port k) [
        | threw call k1 ↦ threw call k1
        | made (fd, bound_port) k1 ↦
            let (ready, k2) = setup.queue_init 2048 sqpoll sq_cpu k1 in
            elim ready [
              | Bool.false ↦ threw io_uring_queue_init_params k2
              | true ↦ made (start busy ring_bits fd bound_port shard zero_msg) k2
            ]
      ]
