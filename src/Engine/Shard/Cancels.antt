-- ===== src/Engine/Shard/Cancels.antt =====
-- include/lx/engine/shard.hpp: what `handle_cancel` answers.
use lite_exchange.Base.{
  ℕ, ◌+◌, ◌%◌, ◌^◌, ◌≡◌, ◌≢◌, ◌⊎◌, refl, sym, ◌∙◌, ap, Bool, true, false, not, ◌||◌, ◌==◌, leb,
  arith, add32, [], ◌∷◌, ◌++◌, All-Present, Present, Bool-cases, inl, inr,
}
use lite_exchange.Proto.Messages.{MsgType, CancelOrder, RejectReason, OutboundMsg}
use lite_exchange.Book.OrderHandle.{OrderHandle, from_token}
use lite_exchange.Book.Matching.{Arena}
use lite_exchange.Book.OrderBook.{Book, cancel_order}
use lite_exchange.Book.OrderBook.Cancel.{cancel_order-IsBook, cancel_order-gen}
use lite_exchange.Engine.Shard.{
  ShardConfig, Shard, handle_cancel, emit_ack, emit_reject, local_book, no_book,
}
use lite_exchange.Engine.Shard.Invariant.{IsShard, with_book}
use lite_exchange.Engine.Shard.Handlers.{Honest, stands_at}

-- A handle that is out of the arena or of another generation than its slot.
abbrev pub stale : ShardConfig → Shard → OrderHandle → Bool
stale c s h = leb c.max_orders h.slot || not (s.arena.pool.gen h.slot == h.gen)

abbrev pub refusal : ℕ → Shard → Shard
refusal session s = emit_reject 0 RejectReason.unknown_order session s

stale_refused :
    (c : ShardConfig) (cancel : CancelOrder) (session : ℕ) (s : Shard)
    → stale c s (from_token cancel.order_token) ≡ true
    → handle_cancel c cancel session s ≡ refusal session s
unfolding handle_cancel
stale_refused c cancel session s e = rw (e, handle_cancel) refl

current_taken :
    (c : ShardConfig) (cancel : CancelOrder) (session : ℕ) (s : Shard)
    → let h = from_token cancel.order_token in
      let book = local_book c s (s.arena.pool.slots h.slot).symbol in
      let out = cancel_order c.dims h (s.books book) s.arena in
      stale c s h ≡ false
      → ((book == no_book) || not out.0) ≡ false
      → handle_cancel c cancel session s
        ≡ emit_ack 0 cancel.order_token session (with_book book out.1 out.2 s)
unfolding handle_cancel
current_taken c cancel session s e f = rw (e, f, handle_cancel) refl

next_stale : (g n : ℕ) → g ≡ add32 n 1 → (g == n) ≡ false
next_stale g n e = ground (arith, e, differs)
  where
    differs : (n + 1) % 2 ^ 32 ≢ n
    differs = omega arith

acked_stale :
    (c : ShardConfig) (s : Shard) (h : OrderHandle) (token session : ℕ) (k : ℕ) (b : Book)
    (a : Arena)
    → a.pool.gen h.slot ≡ add32 h.gen 1
    → stale c (emit_ack 0 token session (with_book k b a s)) h ≡ true
unfolding emit_ack
acked_stale c s h token session k b a e = ground (arith, next_stale (a.pool.gen h.slot) h.gen e)

module _ {c : ShardConfig} {s : Shard} (v : IsShard c s) where
  hosted_at : (x : ℕ) → v.live x ≡ true → local_book c s (s.arena.pool.slots x).symbol ≢ no_book
  hosted_at x h e =
      let (j, bid, i, p) = v.placed x h in
      let at_home = All-Present _ x _ (v.home j bid i) p in
      let there : Present x (v.queues no_book bid i) = rw (sym at_home ∙ e) at p in
      rw (v.nowhere bid i) at there

  -- A cancel whose token is out of date is refused and changes nothing. Any other, where its token names no
  -- free slot, is acknowledged, and the same token is refused from then on.
  pub handle_cancel-answer :
      (cancel : CancelOrder) (session : ℕ)
      → let h = from_token cancel.order_token in
        let s' = handle_cancel c cancel session s in
        Honest c s v.live h
        → ((stale c s h ≡ true) × (s' ≡ refusal session s))
          ⊎ ((stale c s h ≡ false)
              × (s'.outbound
                  ≡ s.outbound
                    ++ OutboundMsg.ack (record {
                      hdr = record {
                        len = 24;
                        type = MsgType.ack;
                        flags = 0;
                        session_id = session;
                      };
                      order_id = 0;
                      order_token = cancel.order_token;
                    })
                      ∷ [])
              × ((session' : ℕ) → handle_cancel c cancel session' s' ≡ refusal session' s'))
  handle_cancel-answer cancel session honest =
      let h = from_token cancel.order_token in
      let book = local_book c s (s.arena.pool.slots h.slot).symbol in
      let out = cancel_order c.dims h (s.books book) s.arena in
      elim (Bool-cases (stale c s h)) [
        | inl old ↦ inl (old, stale_refused c cancel session s old)
        | inr current ↦
            let g : s.arena.pool.gen h.slot ≡ h.gen = ground (arith, current) in
            let used = honest (ground (arith, current)) g in
            let (xs, ys, here) = stands_at v h.slot used in
            let done : out.0 ≡ true = (cancel_order-IsBook h xs ys (v.book book) g here).0 in
            let taken =
              current_taken c cancel session s current
                (ground (arith, done, hosted_at h.slot used)) in
            inr (
              current,
              ap (λ (t : Shard). t.outbound) taken ∙ (unfold emit_ack in refl),
              λ session'. rw taken (
                  stale_refused c cancel session' _ (
                    acked_stale c s h cancel.order_token session book out.1 out.2 (
                      cancel_order-gen c.dims h (s.books book) s.arena current
                      ∙ ap (λ (n : ℕ). add32 n 1) g))),
            )
      ]
