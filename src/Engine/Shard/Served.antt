-- ===== src/Engine/Shard/Served.antt =====
-- include/lx/engine/shard.hpp: a shard over any sequence of ticks, whose clients cancel with the tokens that
-- they were given.
use lite_exchange.Base.{
  ℕ, ◌+◌, ◌^◌, ◌≤◌, ◌<◌, ◌≡◌, ◌⊎◌, sym, ◌∙◌, ap, Bool, true, arith, some, List, [], ◌∷◌, ◌++◌, All,
  All-Present, inl, inr,
}
use lite_exchange.Proto.Messages.{InboundMsg, OutboundMsg}
use lite_exchange.Book.OrderHandle.{OrderHandle, to_token, from_token}
use lite_exchange.Book.OrderHandle.Token.{from_token-to_token}
use lite_exchange.Queue.Spsc.{SpscQueue, pop}
use lite_exchange.Engine.Shard.{ShardConfig, Shard, local_book, tick}
use lite_exchange.Engine.Shard.Invariant.{IsShard, After, Current}
use lite_exchange.Engine.Shard.Handlers.{Fair, Honest}
use lite_exchange.Engine.Shard.Ticks.{tick_handles, tick-After}

-- No slot was reused so often that its generation is about to wrap.
abbrev pub IsYoung : Shard → Type 0
IsYoung s = (x : ℕ) → s.arena.pool.gen x + 1 < 2 ^ 32

abbrev pub Given : OrderHandle → List OrderHandle → Type 0
Given h [] = ⊥
Given h (k ∷ ks) = (h ≡ k) ⊎ Given h ks

-- What clients send: orders, and cancels with tokens of handles that were given out.
abbrev pub Allowed : Shard → List OrderHandle → InboundMsg → Type 0
Allowed s given (InboundMsg.header h) = Unit {0}
Allowed s given (InboundMsg.new_order m) = m.qty < 2 ^ 32
Allowed s given (InboundMsg.cancel m) =
    (h : OrderHandle) × Given h given × (m.order_token ≡ to_token s.shard_id h)

-- The states that a shard can reach, with the handles given out so far. What other threads do to the rings
-- and to the flag is any change of them.
pub data Served (c : ShardConfig) (start : Shard) : Shard → List OrderHandle → Type 0 where
  started : Served c start start []
  ticked :
      {s : Shard} {given : List OrderHandle}
      → Served c start s given
      → IsYoung s
      → ((m : InboundMsg) → (pop c.ring_bits s.inbound).0 ≡ some m → Allowed s given m)
      → Served c start (tick c s) (tick_handles c s ++ given)
  around :
      {s : Shard} {given : List OrderHandle}
      → Served c start s given
      → (ring : SpscQueue InboundMsg) (out : List OutboundMsg) (flag : Bool)
      → Served c start (record s { inbound = ring; outbound = out; running = flag }) given

-- A handle that was given out: its order rests, or its slot has gone on to a later generation.
abbrev pub Known : ShardConfig → Shard → (ℕ → Bool) → OrderHandle → Type 0
Known c s live h =
    (h.slot < c.max_orders)
    × (h.gen ≤ s.arena.pool.gen h.slot)
    × (s.arena.pool.gen h.slot ≡ h.gen → live h.slot ≡ true)

pub record Tracked (c : ShardConfig) (s : Shard) (given : List OrderHandle) : Type 0 where
  pub shard : IsShard c s
  pub known : All (Known c s shard.live) given
  pub id_8 : s.shard_id < 2 ^ 8

Known-Given :
    (P : OrderHandle → Type 0) (h : OrderHandle) (given : List OrderHandle)
    → All P given
    → Given h given
    → P h
Known-Given P h [] a g = absurd g
Known-Given P h (k ∷ ks) a (inl e) = rw e a.0
Known-Given P h (k ∷ ks) a (inr g) = Known-Given P h ks a.1 g

module _ {c : ShardConfig} {s : Shard} {v : IsShard c s} {fresh : List OrderHandle} {s' : Shard}
    (a : After v fresh s') where
  Known-older : IsYoung s → (h : OrderHandle) → Known c s v.live h → Known c s' a.shard.live h
  Known-older young h (below, older, rests) = elim (a.ages h.slot) [
    | inl (e, l) ↦ (below, omega (arith, e), λ k. l (rests (sym e ∙ k)))
    | inr (e, l) ↦
        (below, omega (arith, e, young h.slot), λ k. absurd (omega (arith, e, young h.slot)))
  ]

  Known-fresh : (h : OrderHandle) → Current s' a.shard.live h → Known c s' a.shard.live h
  Known-fresh h (used, same) =
      let (k, bid, i, p) = a.shard.placed h.slot used in
      let member = All-Present _ h.slot _ (((a.shard.book k).members bid).at i) p in
      (member.0, omega (arith, same), λ e. used)

  all_known :
      IsYoung s
      → (new given : List OrderHandle) → All (Current s' a.shard.live) new
      → All (Known c s v.live) given
      → All (Known c s' a.shard.live) (new ++ given)
  all_known young [] [] n k = tt
  all_known young [] (h ∷ hs) n k = (Known-older young h k.0, all_known young [] hs tt k.1)
  all_known young (h ∷ hs) given n k = (Known-fresh h n.0, all_known young hs given n.1 k)

module _ {c : ShardConfig} {s : Shard} {given : List OrderHandle} (t : Tracked c s given)
    (small : c.max_orders ≤ 2 ^ 24) (young : IsYoung s) where
  given-Honest :
      (h : OrderHandle) (token : ℕ)
      → Given h given
      → token ≡ to_token s.shard_id h
      → Honest c s t.shard.live (from_token token)
  given-Honest h token g e =
      let (below, older, rests) = Known-Given _ h given t.known g in
      let back : from_token token ≡ h =
        ap from_token e
        ∙ (from_token-to_token s.shard_id h t.id_8 (omega (arith, young h.slot)) (omega arith)).0 in
      rw back (λ in_arena same. rests same)

  Allowed-Fair : (m : InboundMsg) → Allowed s given m → Fair c s t.shard.live m
  Allowed-Fair (InboundMsg.header h) a = tt
  Allowed-Fair (InboundMsg.new_order m) a = a
  Allowed-Fair (InboundMsg.cancel m) (h, g, e) = given-Honest h m.order_token g e

-- Over any ticks of a well-formed shard with a number of 8 bits and at most 2^24 slots, whose clients send
-- orders of 32-bit quantities and cancels with tokens that were given out, and over any change of its rings
-- between, as long as no slot was reused 2^32 - 1 times: the shard stays well formed, and each handle given
-- out names an order that rests or a slot of a later generation.
pub Served-Tracked :
    {c : ShardConfig} {start s : Shard} {given : List OrderHandle}
    → IsShard c start
    → start.shard_id < 2 ^ 8
    → c.max_orders ≤ 2 ^ 24
    → Served c start s given
    → Tracked c s given
unfolding local_book
Served-Tracked v id small started = record { shard = v; known = tt; id_8 = id }
Served-Tracked v id small (ticked {s} {given} r young allowed) =
    let t = Served-Tracked v id small r in
    let a = tick-After t.shard (λ m e. Allowed-Fair t small young m (allowed m e)) in
    record {
      shard = a.shard;
      known = all_known a young _ given a.current t.known;
      id_8 = rw a.same_id t.id_8;
    }
Served-Tracked v id small (around r ring out flag) =
    let t = Served-Tracked v id small r in
    record {
      shard = record {
        live = t.shard.live;
        queues = t.shard.queues;
        hosted = t.shard.hosted;
        book = t.shard.book;
        home = t.shard.home;
        nowhere = t.shard.nowhere;
        placed = t.shard.placed;
      };
      known = t.known;
      id_8 = t.id_8;
    }
