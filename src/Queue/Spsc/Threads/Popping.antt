-- ===== src/Queue/Spsc/Threads/Popping.antt =====
-- include/lx/queue/spsc.hpp: the steps of `pop` keep what both threads know.
use lite_exchange.Base.{
  ℕ, ◌%◌, ◌^◌, ◌≤◌, ◌<◌, ◌≡◌, sym, ◌∙◌, ap, inl, inr, arith, ◌==◌, Bool-cases, List, [], ◌∷◌, ◌++◌,
  length,
}
use mathlib.Core.Path.{subst}
use mathlib.Core.List.{append_assoc}
use lite_exchange.Queue.Spsc.{add64}
use lite_exchange.Queue.Spsc.Fifo.{Window}
use lite_exchange.Queue.Spsc.Threads.{Consumer, Threads, begin_pop, check_head, read_slot, release}
use lite_exchange.Queue.Spsc.Threads.Order.{
  ConsumerKnows, IsShared, later-lt, store-values, place, first_pending,
}

module _ {ℓ} {T : Type ℓ} (k : ℕ) (small : k < 63) where
  pub begin_pop-IsShared : (s : Threads T) → IsShared k s → IsShared k (begin_pop k s)
  begin_pop-IsShared s v = record {
    pending = v.pending;
    ring = v.ring;
    producer = v.producer;
    consumer = (v.ring.tail_values s.tail.last (omega arith), tt);
  }

  pub check_head-IsShared :
      (i tail : ℕ) (s : Threads T)
      → s.consumer ≡ Consumer.loaded tail
      → s.head_seen ≤ i
      → i ≤ s.head.last
      → IsShared k s
      → IsShared k (check_head k i tail s)
  check_head-IsShared i tail s e low high v = record {
    pending = v.pending;
    ring =
        let r = v.ring in
        record {
          head_values = r.head_values;
          tail_values = r.tail_values;
          seen_tail = r.seen_tail;
          ahead = omega (arith, r.ahead);
          seen_head = high;
          bounded = r.bounded;
          split = r.split;
          waiting = r.waiting;
          window = r.window;
        };
    producer = v.producer;
    consumer = elim (Bool-cases (s.head.stored i == tail)) [
      | inl empty ↦ rw empty tt
      | inr other ↦ rw other (
        knows.0,
        later-lt s.tail.last i (omega (arith, v.ring.ahead))
            (rw (v.ring.head_values i high, knows.0) at other),
        tt,
      )
    ];
  }
    where
      knows : (tail ≡ s.tail.last % 2 ^ 64) × Unit {ℓ}
      knows =
          subst (λ (c : Consumer T). ConsumerKnows k c v.pending s.tail.last s.head_seen) e
            v.consumer

  pub read_slot-IsShared :
      (tail : ℕ) (s : Threads T)
      → s.consumer ≡ Consumer.ready tail
      → IsShared k s
      → IsShared k (read_slot k tail s)
  read_slot-IsShared tail s e v = record {
    pending = v.pending;
    ring = v.ring;
    producer = v.producer;
    consumer =
        let f =
          first_pending s.slots k s.tail.last v.pending
            (omega (arith, v.ring.waiting, v.ring.seen_head, knows.1)) v.ring.window in
        (
          knows.0,
          knows.1,
          f.0,
          f.1 ∙ ap (λ (j : ℕ). s.slots j ∷ f.0) (sym (place k tail s.tail.last small knows.0)),
        );
  }
    where
      knows : (tail ≡ s.tail.last % 2 ^ 64) × (s.tail.last < s.head_seen) × Unit {ℓ}
      knows =
          subst (λ (c : Consumer T). ConsumerKnows k c v.pending s.tail.last s.head_seen) e
            v.consumer

  pub release-IsShared :
      (tail : ℕ) (val : T) (s : Threads T)
      → s.consumer ≡ Consumer.copied tail val
      → IsShared k s
      → IsShared k (release k tail val s)
  release-IsShared tail val s e v = record {
    pending = knows.2;
    ring =
        let r = v.ring in
        record {
          head_values = r.head_values;
          tail_values = store-values s.tail (add64 tail 1) (omega (arith, knows.0)) r.tail_values;
          seen_tail = omega (arith, r.seen_tail);
          ahead = omega (arith, knows.1);
          seen_head = r.seen_head;
          bounded = r.bounded;
          split =
              r.split
              ∙ ap (λ (xs : List T). s.received ++ xs) knows.3
              ∙ sym (append_assoc s.received (val ∷ []) knows.2);
          waiting = omega (arith, r.waiting, ap length knows.3);
          window = (subst (Window s.slots k s.tail.last) knows.3 r.window).1;
        };
    producer = v.producer;
    consumer = tt;
  }
    where
      knows :
          (tail ≡ s.tail.last % 2 ^ 64)
          × (s.tail.last < s.head_seen)
          × (ys : List T) × (v.pending ≡ val ∷ ys)
      knows =
          subst (λ (c : Consumer T). ConsumerKnows k c v.pending s.tail.last s.head_seen) e
            v.consumer
