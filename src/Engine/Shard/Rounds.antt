-- ===== src/Engine/Shard/Rounds.antt =====
-- include/lx/engine/shard.hpp: `run` handles what waits in the inbound ring.
use mathlib.Core.List.{append-nil}
use lite_exchange.Engine.Shard.Room.{
  Pushes, Extends, Extends-trans, Extends-Pushes, dispatch-Extends,
}
use lite_exchange.Base.{
  sym, ◌^◌, ℕ, zero, suc, ◌+◌, ◌≤◌, ◌≡◌, refl, ◌∙◌, ap, Bool, true, false, not, ◌||◌, ◌==◌, leb,
  arith, none, some, List, [], ◌∷◌, length, Bool-cases, inl, inr,
}
use lite_exchange.Proto.Messages.{MsgType, NewOrder, CancelOrder, Fill, InboundMsg}
use lite_exchange.Book.OrderHandle.{valid, to_token, from_token}
use lite_exchange.Book.OrderBook.{add_order, cancel_order}
use lite_exchange.Queue.Spsc.{SpscQueue, pop}
use lite_exchange.Queue.Spsc.Fifo.{IsRing, pop-IsRing}
use lite_exchange.Engine.Shard.{
  ShardConfig, Shard, handle_new, handle_cancel, emit_fill, emit_fills, emit_ack, emit_reject,
  local_book, no_book, max_fills_per_order, with_added, dispatch, tick, run,
}

-- The shard with another inbound ring and flag, which the handlers do not read.
abbrev pub aside : SpscQueue InboundMsg → Bool → Shard → Shard
aside ring flag s = record s { inbound = ring; running = flag }

emit_fills-aside :
    (session : ℕ) (fs : List Fill) (ring : SpscQueue InboundMsg) (flag : Bool) (s : Shard)
    → emit_fills session fs (aside ring flag s) ≡ aside ring flag (emit_fills session fs s)
unfolding emit_fills emit_fill
emit_fills-aside session [] ring flag s = refl
emit_fills-aside session (f ∷ fs) ring flag s = elim (Bool-cases (session == f.hdr.session_id)) [
  | inl self ↦ rw (self, emit_fills, emit_fill) (emit_fills-aside session fs ring flag _)
  | inr other ↦ rw (other, emit_fills, emit_fill) (emit_fills-aside session fs ring flag _)
]

module _ (c : ShardConfig) (ring : SpscQueue InboundMsg) (flag : Bool) (s : Shard) where
  handle_new-aside :
      (m : NewOrder) (session : ℕ)
      → handle_new c m session (aside ring flag s) ≡ aside ring flag (handle_new c m session s)
  unfolding handle_new local_book emit_ack emit_reject with_added
  handle_new-aside m session =
      let book = local_book c s m.symbol_id in
      let r = add_order c.dims max_fills_per_order m [] (s.books book) s.arena in
      let filled = emit_fills-aside session r.fills ring flag (with_added book r s) in
      elim (Bool-cases (book == no_book)) [
        | inl elsewhere ↦ rw elsewhere refl
        | inr here ↦ elim (Bool-cases (valid r.handle)) [
          | inl rested ↦
              rw (here, rested)
                (ap (emit_ack m.order_id (to_token s.shard_id r.handle) session) filled)
          | inr gone ↦ rw (here, gone) filled
        ]
      ]

  handle_cancel-aside :
      (m : CancelOrder) (session : ℕ)
      → handle_cancel c m session (aside ring flag s)
        ≡ aside ring flag (handle_cancel c m session s)
  unfolding handle_cancel local_book emit_ack emit_reject
  handle_cancel-aside m session =
      let h = from_token m.order_token in
      let book = local_book c s (s.arena.pool.slots h.slot).symbol in
      let out = cancel_order c.dims h (s.books book) s.arena in
      elim (Bool-cases (leb c.max_orders h.slot || not (s.arena.pool.gen h.slot == h.gen))) [
        | inl stale ↦ rw stale refl
        | inr current ↦ elim (Bool-cases ((book == no_book) || not out.0)) [
          | inl refused ↦ rw (current, refused) refl
          | inr done ↦ rw (current, done) refl
        ]
      ]

  dispatch-aside :
      (m : InboundMsg) → dispatch c m (aside ring flag s) ≡ aside ring flag (dispatch c m s)
  unfolding dispatch
  dispatch-aside (InboundMsg.header h) = refl
  dispatch-aside (InboundMsg.new_order m) = by_type m.hdr.type
    where
      by_type :
          (t : MsgType)
          → elim t [
            | MsgType.new_order ↦ handle_new c m m.hdr.session_id (aside ring flag s)
            | _ ↦ aside ring flag s
          ]
            ≡ aside ring flag
                (elim t [ MsgType.new_order ↦ handle_new c m m.hdr.session_id s | _ ↦ s ])
      by_type MsgType.logon = refl
      by_type MsgType.new_order = handle_new-aside m m.hdr.session_id
      by_type MsgType.cancel_order = refl
      by_type MsgType.ack = refl
      by_type MsgType.reject = refl
      by_type MsgType.fill = refl
      by_type (MsgType.raw n) = refl
  dispatch-aside (InboundMsg.cancel m) = by_type m.hdr.type
    where
      by_type :
          (t : MsgType)
          → elim t [
            | MsgType.cancel_order ↦ handle_cancel c m m.hdr.session_id (aside ring flag s)
            | _ ↦ aside ring flag s
          ]
            ≡ aside ring flag
                (elim t [ MsgType.cancel_order ↦ handle_cancel c m m.hdr.session_id s | _ ↦ s ])
      by_type MsgType.logon = refl
      by_type MsgType.new_order = refl
      by_type MsgType.cancel_order = handle_cancel-aside m m.hdr.session_id
      by_type MsgType.ack = refl
      by_type MsgType.reject = refl
      by_type MsgType.fill = refl
      by_type (MsgType.raw n) = refl

-- The messages one after the other.
abbrev pub serve : ShardConfig → List InboundMsg → Shard → Shard
serve c [] s = s
serve c (m ∷ ms) s = serve c ms (dispatch c m s)

serve-aside :
    (c : ShardConfig) (ms : List InboundMsg) (ring : SpscQueue InboundMsg) (flag : Bool) (s : Shard)
    → serve c ms (aside ring flag s) ≡ aside ring flag (serve c ms s)
serve-aside c [] ring flag s = refl
serve-aside c (m ∷ ms) ring flag s =
    ap (serve c ms) (dispatch-aside c ring flag s m) ∙ serve-aside c ms ring flag (dispatch c m s)

run_on :
    (n : ℕ) (c : ShardConfig) (s : Shard) → s.running ≡ true → run (suc n) c s ≡ run n c (tick c s)
unfolding run
run_on n c s = ap (λ (flag : Bool). elim flag [ true ↦ run n c (tick c s) | false ↦ s ])

run_off : (n : ℕ) (c : ShardConfig) (s : Shard) → s.running ≡ false → run (suc n) c s ≡ s
unfolding run
run_off n c s = ap (λ (flag : Bool). elim flag [ true ↦ run n c (tick c s) | false ↦ s ])

tick-none : (c : ShardConfig) (s : Shard) → (pop c.ring_bits s.inbound).0 ≡ none → tick c s ≡ s
unfolding tick
tick-none c s e = rw (e, tick) refl

tick-some :
    (c : ShardConfig) (s : Shard) (m : InboundMsg)
    → (pop c.ring_bits s.inbound).0 ≡ some m
    → s.running ≡ true
    → tick c s ≡ aside (pop c.ring_bits s.inbound).1 true (dispatch c m s)
unfolding tick
tick-some c s m e on =
    rw (e, tick)
      (dispatch-aside c (pop c.ring_bits s.inbound).1 s.running s m
        ∙ ap (λ (flag : Bool). aside (pop c.ring_bits s.inbound).1 flag (dispatch c m s)) on)

idle : (n t : ℕ) (c : ShardConfig) (s : Shard) → IsRing c.ring_bits t s.inbound [] → run n c s ≡ s
idle zero t c s r = unfold run in refl
idle (suc n) t c s r = elim (Bool-cases s.running) [
  | inr off ↦ run_off n c s off
  | inl on ↦ elim (pop-IsRing c.ring_bits t s.inbound [] r) [
    | inl (nothing, none_left, same) ↦
        run_on n c s on ∙ ap (run n c) (tick-none c s none_left) ∙ idle n t c s r
    | inr (x, ys, e, found, r') ↦ absurd (cc)
  ]
]

run-aside :
    (n t : ℕ) (c : ShardConfig) (s : Shard) (xs : List InboundMsg)
    → IsRing c.ring_bits t s.inbound xs
    → s.running ≡ true
    → length xs ≤ n
    → (ring : SpscQueue InboundMsg) × IsRing c.ring_bits (t + length xs) ring []
      × (run n c s ≡ aside ring true (serve c xs s))
run-aside n t c s [] r on h =
    let e : t + 0 ≡ t = omega arith in
    (s.inbound, rw e r, idle n t c s r ∙ ap (λ (flag : Bool). aside s.inbound flag s) on)
run-aside zero t c s (x ∷ xs) r on h = absurd (omega arith)
run-aside (suc n) t c s (x ∷ xs) r on h = elim (pop-IsRing c.ring_bits t s.inbound (x ∷ xs) r) [
  | inl (nothing, none_left, same) ↦ absurd (cc)
  | inr (y, ys, e, found, r') ↦
      let first : y ≡ x = cc in
      let rest : ys ≡ xs = cc in
      let after = aside (pop c.ring_bits s.inbound).1 true (dispatch c x s) in
      let (ring, empty, done) = run-aside n (t + 1) c after xs (rw rest at r') refl (omega arith) in
      let e : t + suc (length xs) ≡ t + 1 + length xs = omega arith in
      (
        ring,
        rw e empty,
        run_on n c s on
            ∙ ap (run n c) (tick-some c s x (found ∙ ap some first) on)
            ∙ done
            ∙ ap (aside ring true)
                (serve-aside c xs (pop c.ring_bits s.inbound).1 true (dispatch c x s)),
      )
]

serve-Extends : (c : ShardConfig) (ms : List InboundMsg) (s : Shard) → Extends s (serve c ms s)
serve-Extends c [] s = ([], sym (append-nil s.outbound))
serve-Extends c (m ∷ ms) s =
    Extends-trans s (dispatch c m s) (serve c (m ∷ ms) s) (dispatch-Extends c m s)
      (serve-Extends c ms (dispatch c m s))

-- Where the outbound ring has room for all that it sends, with what is there already, and while it is not
-- stopped: `run` handles all messages that wait, oldest first, within as many rounds, and leaves the inbound
-- ring empty, more rounds change nothing, and no `push_out` finds the outbound ring full.
pub run-serve :
    (n t : ℕ) (c : ShardConfig) (s : Shard) (xs : List InboundMsg)
    → IsRing c.ring_bits t s.inbound xs
    → s.running ≡ true
    → length xs ≤ n
    → length (serve c xs s).outbound ≤ 2 ^ c.ring_bits
    → (ring : SpscQueue InboundMsg) × IsRing c.ring_bits (t + length xs) ring []
      × (run n c s ≡ aside ring true (serve c xs s))
      × Pushes (2 ^ c.ring_bits) s.outbound (run n c s).outbound
run-serve n t c s xs r on h room =
    let (ring, empty, done) = run-aside n t c s xs r on h in
    (
      ring,
      empty,
      done,
      rw done (Extends-Pushes (2 ^ c.ring_bits) s (serve c xs s) (serve-Extends c xs s) room),
    )
