-- ===== src/Lib.antt =====
-- Lite-Exchange: a limit order book, its matching shards, and the gateways and sessions that feed them.
--
-- A gateway, over epoll (include/lx/net/gateway.hpp) or io_uring (include/lx/net/uring_gateway.hpp), owns
-- the sockets. A client's bytes arrive at a session (include/lx/net/session.hpp), which cuts them into frames
-- (include/lx/proto/codec.hpp) and pushes the messages to a shard's ring (include/lx/queue/spsc.hpp),
-- through the router (include/lx/engine/shard_router.hpp) where there are several shards. A shard
-- (include/lx/engine/shard.hpp) takes one message at a time, hands it to the book of its symbol
-- (include/lx/book/order_book.hpp) and sends fills, acknowledgements and rejects. A book keeps, for each
-- side, a ladder of price levels (include/lx/book/price_level.hpp), a bitmap of the levels in use
-- (include/lx/book/level_bitmap.hpp) and the best of them; all orders of a shard stand in one arena
-- (include/lx/book/pool.hpp), and levels link their slots. The gateway takes what the shards of its set
-- (include/lx/engine/shard_set.hpp) send, and writes it to the client whose session it names.
--
-- Files. `Base` has the shared names: numbers, tests, lists, bits, arrays as functions. `Proto/Messages`
-- and `Proto/Codec` are the wire. `Book/Order`, `Book/Pool`, `Book/PriceLevel`, `Book/LevelBitmap`,
-- `Book/OrderHandle`, `Book/Matching` and `Book/OrderBook` are the book, one definition per member
-- function; the two loops of `match`, in `Book/Matching`, are `match_level` and `match_loop`, and the parts
-- that `add_order` has for both sides are `admit`, `settle` and `rest_order`. `Queue/Spsc` is the ring, with
-- `Queue/Spsc/Threads` for the loads and stores of its two threads. `Engine/Shard`, `Engine/ShardRouter`
-- and `Engine/ShardSet` are the shards. `Net/Session` is the session, `Net/Gateway` the epoll reactor,
-- over the system calls of `Net/Sockets`, and `Net/UringGateway` the io_uring reactor; `Net/Routing` has
-- the two maps that both keep, and `Net/Listener` the constructors of both. `Util/HugePage` and `Util/Tsc`
-- are the sizes of mappings and the clock. A file's proofs are in the folder of its name. State is passed
-- explicitly; a reference into the arena is its slot.
--
-- The specification of a match is `Book/OrderBook/Sweep`: one walk over a list of resting orders, without
-- levels, links and bitmaps. `Book/OrderBook/Path` lists the orders that cross in price-time priority, and
-- `Match`, `MatchDone`, `Rounds`, `RoundQueues`, `RoundWalks`, `RoundJoins`, `LoopSteps` and `MatchLoop`
-- beside it are the steps from the loops to it; `Matched`, `Rested`, `Standing` and `Settle` are the end of
-- `add_order`. `Book/OrderBook/Invariant` says what a well-formed book over its arena is, and
-- `Book/OrderBook/Touches` what an operation of a book does to the orders of other books. From both,
-- `Engine/Shard/Invariant` has the invariant of a shard, which the handlers keep (`Engine/Shard/Handlers`,
-- and `Engine/Shard/Ticks` for a tick) and which `Engine/Shard/Served` follows over any ticks, with the
-- handles that clients were given.
--
-- Sizes and fuel. Capacities, ladder sizes and ring sizes are variables; what is asked of them is that
-- indices fit the code's types (`IsSized`, and rings of fewer than 2 ^ 63 slots). The inner loop of
-- `match` gets one round more than the room for fills, the outer loop two more than the bits of the
-- bitmap, and `consume` one more than the bytes in its buffer. A round of the inner loop uses the room
-- for one fill, a round of the outer loop moves the best level on unless the order is filled, and a frame
-- has at least 8 bytes.
--
-- The kernel. The epoll gateway passes a state of the kernel through its calls; what the proofs ask of the
-- calls is `IsPosix`: `accept` gives a descriptor that is not open, only `close` closes one, and `send`
-- takes a part of its bytes from the front; of the destructor's, `Closes`, that `close` closes its
-- descriptor; of the constructor's, `IsPosixSetup`. The loops over `accept` and `recv` are on a number of
-- rounds, of which one more than what the kernel has is enough. The io_uring gateway takes completions, in
-- any order, and leaves a trace of its calls; `Reach` says which completions can come, of what is in
-- flight, and that the shard's thread may take messages and send more between any two steps. The ring of
-- entries is full as often as a parameter says.
--
-- Threads. A ring's counter is the sequence of values stored in it; a thread loads the other's counter at
-- any store that is not older than the one it loaded before, and with it sees the slots that were written
-- before that store. The outbound ring of a shard is the list of its messages where a gateway drains it.
-- `push_out` appends to it, for as long as the gateway makes room; `Engine/Shard/Room` says when it never
-- waits.
--
-- Not modelled: thread affinity, which is one call of the system, and cache lines, which are an alignment;
-- the benchmarks and the tests. Signed overflow in the difference of two prices has no meaning in the
-- language, and the difference is taken as an integer. The destructors of the gateways walk a map in an
-- order that the language leaves open: it is an argument.
pub mod Base
pub mod Proto
pub mod Book
pub mod Queue
pub mod Engine
pub mod Net
pub mod Util
