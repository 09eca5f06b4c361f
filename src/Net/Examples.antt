-- ===== src/Net/Examples.antt =====
-- A session that received a frame and a half: the theorems at work.
pub mod Kernel
pub mod Gateways
pub mod Uring
pub mod Shutdown
use lite_exchange.Base.{
  ◌*◌, ◌≤◌, ◌≡◌, Bool, true, List, [], ◌∷◌, ◌++◌, length, take, drop, refl, arith, All,
}
use lite_exchange.Proto.Messages.{InboundMsg}
use lite_exchange.Proto.Codec.{Bytes, write_new_order, write_header, write_le}
use lite_exchange.Proto.Examples.{order}
use lite_exchange.Net.Session.{Session, init, append, consume}
use lite_exchange.Net.Session.Chunks.{then_read, consume-append}
use lite_exchange.Net.Session.Stamped.{IsStamped, consume-IsStamped}

-- A sink that takes every message.
abbrev sink : InboundMsg → List InboundMsg → Bool × List InboundMsg
sink m ms = (true, ms ++ m ∷ [])

abbrev received : Session
received = append (write_new_order order ++ take 10 (write_new_order order)) (init 7)

-- The frame and a half, cut after 20 bytes.
consume-append_example :
    consume sink (append (write_new_order order ++ take 10 (write_new_order order)) (init 7)) []
    ≡ then_read sink
        (drop 20 (write_new_order order) ++ take 10 (write_new_order order))
        (consume sink (append (take 20 (write_new_order order)) (init 7)) [])
unfolding write_new_order write_header write_le init
consume-append_example =
    consume-append sink (λ m q. refl) (init 7) (take 20 (write_new_order order))
      (drop 20 (write_new_order order) ++ take 10 (write_new_order order)) [] (omega arith)

-- The latest message first.
abbrev collect : InboundMsg → List InboundMsg → Bool × List InboundMsg
collect m ms = (true, m ∷ ms)

-- The client wrote session 70000 into its header.
consume-IsStamped_example : All (IsStamped 7) (consume collect received []).2
unfolding append init
consume-IsStamped_example =
    consume-IsStamped collect (All (IsStamped 7)) received [] (λ m q stamped rest. (stamped, rest))
      tt
