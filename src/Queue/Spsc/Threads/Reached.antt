-- ===== src/Queue/Spsc/Threads/Reached.antt =====
-- include/lx/queue/spsc.hpp with its two threads: what is received is what was sent, in order, and the
-- two threads are never at one slot.
use lite_exchange.Base.{
  ℕ, ◌+◌, ◌%◌, ◌^◌, ◌≤◌, ◌<◌, ◌≡◌, refl, sym, ◌∙◌, ◌≢◌, arith, List, [], ◌++◌, length,
}
use mathlib.Core.Path.{subst}
use lite_exchange.Queue.Spsc.{masked}
use lite_exchange.Queue.Spsc.Threads.{
  Producer, Consumer, Threads, Step, begins_push, checks_tail, writes_slot, publishes, begins_pop,
  checks_head, reads_slot, releases, fresh, Reach, started, stepped,
}
use lite_exchange.Queue.Spsc.Threads.Order.{
  ProducerKnows, ConsumerKnows, IsShared, place, places-ne,
}
use lite_exchange.Queue.Spsc.Threads.Pushing.{
  begin_push-IsShared, check_tail-IsShared, write_slot-IsShared, publish-IsShared,
}
use lite_exchange.Queue.Spsc.Threads.Popping.{
  begin_pop-IsShared, check_head-IsShared, read_slot-IsShared, release-IsShared,
}

module _ {ℓ} {T : Type ℓ} (k : ℕ) (small : k < 63) where
  fresh-IsShared : (zero_slot : T) → IsShared k (fresh k zero_slot)
  fresh-IsShared zero_slot = record {
    pending = [];
    ring = record {
      head_values = λ i h. omega arith;
      tail_values = λ i h. omega arith;
      seen_tail = omega arith;
      ahead = omega arith;
      seen_head = omega arith;
      bounded = omega arith;
      split = refl;
      waiting = omega arith;
      window = tt;
    };
    producer = tt;
    consumer = tt;
  }

  Step-IsShared : {s s' : Threads T} → Step k s s' → IsShared k s → IsShared k s'
  Step-IsShared (begins_push val e q) v = rw q (begin_push-IsShared k small val _ v)
  Step-IsShared (checks_tail i val head e low high q) v =
      rw q (check_tail-IsShared k small i val head _ e low high v)
  Step-IsShared (writes_slot val head e q) v = rw q (write_slot-IsShared k small val head _ e v)
  Step-IsShared (publishes val head e q) v = rw q (publish-IsShared k small val head _ e v)
  Step-IsShared (begins_pop e q) v = rw q (begin_pop-IsShared k small _ v)
  Step-IsShared (checks_head i tail e low high q) v =
      rw q (check_head-IsShared k small i tail _ e low high v)
  Step-IsShared (reads_slot tail e q) v = rw q (read_slot-IsShared k small tail _ e v)
  Step-IsShared (releases tail val e q) v = rw q (release-IsShared k small tail val _ e v)

  pub Reach-IsShared : {s : Threads T} → Reach k s → IsShared k s
  Reach-IsShared (started zero_slot e) = rw e (fresh-IsShared zero_slot)
  Reach-IsShared (stepped r step) = Step-IsShared step (Reach-IsShared r)

  -- However the loads and stores of the two threads interleave: what was received is what was sent, in order,
  -- less the values still in the ring, which are at most 2 ^ k.
  pub Reach-fifo :
      {s : Threads T}
      → Reach k s
      → (pending : List T) × (s.sent ≡ s.received ++ pending) × (length pending ≤ 2 ^ k)
  Reach-fifo r =
      let v = Reach-IsShared r in
      (v.pending, v.ring.split, omega (arith, v.ring.waiting, v.ring.bounded, v.ring.seen_tail))

  -- While the producer writes a slot, the consumer does not read it.
  pub Reach-apart :
      {s : Threads T} (val : T) (head tail : ℕ)
      → Reach k s
      → s.producer ≡ Producer.room val head
      → s.consumer ≡ Consumer.ready tail
      → masked k head ≢ masked k tail
  Reach-apart {s} val head tail r p c e =
      places-ne k s.tail.last s.head.last (omega (arith, reads.1, v.ring.seen_head))
        (omega (arith, writes.1, v.ring.seen_tail))
        (sym (place k tail s.tail.last small reads.0)
          ∙ sym e
          ∙ place k head s.head.last small writes.0)
    where
      v : IsShared k s
      v = Reach-IsShared r

      writes : (head ≡ s.head.last % 2 ^ 64) × (s.head.last < s.tail_seen + 2 ^ k) × Unit {ℓ}
      writes =
          subst (λ (p : Producer T). ProducerKnows k p s.slots s.head.last s.tail_seen) p v.producer

      reads : (tail ≡ s.tail.last % 2 ^ 64) × (s.tail.last < s.head_seen) × Unit {ℓ}
      reads =
          subst (λ (c : Consumer T). ConsumerKnows k c v.pending s.tail.last s.head_seen) c
            v.consumer
