-- ===== src/Queue/Spsc/Threads/Pushing.antt =====
-- include/lx/queue/spsc.hpp: the steps of `push` keep what both threads know.
use lite_exchange.Base.{
  ℕ, ◌+◌, ◌%◌, ◌^◌, ◌≤◌, ◌<◌, ◌≡◌, sym, ◌∙◌, ap, inl, inr, arith, ltb, Bool-cases, List, [], ◌∷◌,
  ◌++◌, length-append, update_self,
}
use mathlib.Core.Path.{subst}
use mathlib.Core.List.{append_assoc}
use lite_exchange.Queue.Spsc.{masked, add64, sub64}
use lite_exchange.Queue.Spsc.Fifo.{Window-update, Window-last}
use lite_exchange.Queue.Spsc.Threads.{
  Producer, Consumer, Threads, begin_push, check_tail, write_slot, publish,
}
use lite_exchange.Queue.Spsc.Threads.Order.{
  ProducerKnows, ConsumerKnows, IsShared, room-lt, store-values, place,
}

module _ {ℓ} {T : Type ℓ} (k : ℕ) where
  -- What the consumer knows stays when a value is added behind.
  more_pending :
      (c : Consumer T) (pending : List T) (t seen : ℕ) (val : T)
      → ConsumerKnows k c pending t seen
      → ConsumerKnows k c (pending ++ val ∷ []) t seen
  more_pending Consumer.idle pending t seen val h = tt
  more_pending (Consumer.loaded tail) pending t seen val h = h
  more_pending (Consumer.ready tail) pending t seen val h = h
  more_pending (Consumer.copied tail x) pending t seen val h =
      (h.0, h.1, h.2 ++ val ∷ [], ap (λ (xs : List T). xs ++ val ∷ []) h.3)

module _ {ℓ} {T : Type ℓ} (k : ℕ) (small : k < 63) where
  pub begin_push-IsShared :
      (val : T) (s : Threads T) → IsShared k s → IsShared k (begin_push k val s)
  begin_push-IsShared val s v = record {
    pending = v.pending;
    ring = v.ring;
    producer = (v.ring.head_values s.head.last (omega arith), tt);
    consumer = v.consumer;
  }

  pub check_tail-IsShared :
      (i : ℕ) (val : T) (head : ℕ) (s : Threads T)
      → s.producer ≡ Producer.loaded val head
      → s.tail_seen ≤ i
      → i ≤ s.tail.last
      → IsShared k s
      → IsShared k (check_tail k i val head s)
  check_tail-IsShared i val head s e low high v = record {
    pending = v.pending;
    ring =
        let r = v.ring in
        record {
          head_values = r.head_values;
          tail_values = r.tail_values;
          seen_tail = high;
          ahead = r.ahead;
          seen_head = r.seen_head;
          bounded = omega (arith, r.bounded);
          split = r.split;
          waiting = r.waiting;
          window = r.window;
        };
    producer = elim (Bool-cases (ltb (2 ^ k) (sub64 (add64 head 1) (s.tail.stored i)))) [
      | inl full ↦ rw full tt
      | inr free ↦ rw free (
        at_head.0,
        room-lt k s.head.last i small (omega (arith, v.ring.ahead, v.ring.seen_head))
            (omega (arith, v.ring.bounded)) (rw (at_head.0, v.ring.tail_values i high) at free),
        tt,
      )
    ];
    consumer = v.consumer;
  }
    where
      at_head : (head ≡ s.head.last % 2 ^ 64) × Unit {ℓ}
      at_head =
          subst (λ (p : Producer T). ProducerKnows k p s.slots s.head.last s.tail_seen) e v.producer

  pub write_slot-IsShared :
      (val : T) (head : ℕ) (s : Threads T)
      → s.producer ≡ Producer.room val head
      → IsShared k s
      → IsShared k (write_slot k val head s)
  write_slot-IsShared val head s e v = record {
    pending = v.pending;
    ring =
        let r = v.ring in
        record {
          head_values = r.head_values;
          tail_values = r.tail_values;
          seen_tail = r.seen_tail;
          ahead = r.ahead;
          seen_head = r.seen_head;
          bounded = r.bounded;
          split = r.split;
          waiting = r.waiting;
          window = rw at_place (
              Window-update s.slots k s.tail.last s.head.last val v.pending
                (omega (arith, r.waiting)) (omega (arith, knows.1, r.seen_tail)) r.window);
        };
    producer = (knows.0, knows.1, rw at_place (update_self s.slots (s.head.last % 2 ^ k) val));
    consumer = v.consumer;
  }
    where
      knows : (head ≡ s.head.last % 2 ^ 64) × (s.head.last < s.tail_seen + 2 ^ k) × Unit {ℓ}
      knows =
          subst (λ (p : Producer T). ProducerKnows k p s.slots s.head.last s.tail_seen) e v.producer

      at_place : masked k head ≡ s.head.last % 2 ^ k
      at_place = place k head s.head.last small knows.0

  pub publish-IsShared :
      (val : T) (head : ℕ) (s : Threads T)
      → s.producer ≡ Producer.written val head
      → IsShared k s
      → IsShared k (publish k val head s)
  publish-IsShared val head s e v = record {
    pending = v.pending ++ val ∷ [];
    ring =
        let r = v.ring in
        record {
          head_values = store-values s.head (add64 head 1) (omega (arith, knows.0)) r.head_values;
          tail_values = r.tail_values;
          seen_tail = r.seen_tail;
          ahead = r.ahead;
          seen_head = omega (arith, r.seen_head);
          bounded = omega (arith, knows.1);
          split =
              ap (λ (xs : List T). xs ++ val ∷ []) r.split
              ∙ append_assoc s.received v.pending (val ∷ []);
          waiting = omega (arith, r.waiting, length-append v.pending (val ∷ []));
          window =
              Window-last s.slots k s.tail.last val v.pending
                (ap (λ (n : ℕ). s.slots (n % 2 ^ k)) (sym r.waiting) ∙ knows.2) r.window;
        };
    producer = tt;
    consumer = more_pending k s.consumer v.pending s.tail.last s.head_seen val v.consumer;
  }
    where
      knows :
          (head ≡ s.head.last % 2 ^ 64)
          × (s.head.last < s.tail_seen + 2 ^ k)
          × (s.slots (s.head.last % 2 ^ k) ≡ val)
      knows =
          subst (λ (p : Producer T). ProducerKnows k p s.slots s.head.last s.tail_seen) e v.producer
