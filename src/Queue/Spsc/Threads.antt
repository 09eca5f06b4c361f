-- ===== src/Queue/Spsc/Threads.antt =====
-- include/lx/queue/spsc.hpp with its two threads: the loads and stores of `push` and `pop` as steps that
-- interleave in any way. A counter is the values stored in it, in order; a thread loads its own counter's
-- last value, and of the other's one that is not older than what it loaded before. What is in a slot when a
-- counter's store is loaded is seen with it: that is the acquire and release of the code.
pub mod Order
pub mod Pushing
pub mod Popping
pub mod Reached
use lite_exchange.Base.{
  ℕ, ◌+◌, ◌-◌, ◌%◌, ◌^◌, ◌≤◌, ◌<◌, ◌≡◌, Bool, true, false, ltb, ◌==◌, if◌then◌else◌, List, [], ◌∷◌,
  ◌++◌, update,
}
use lite_exchange.Queue.Spsc.{masked, add64, sub64}

-- A `std::atomic<std::size_t>`: its stores, of which `last` is the latest.
pub record Counter : Type 0 where
  pub stored : ℕ → ℕ
  pub last : ℕ

abbrev pub load : Counter → ℕ
load c = c.stored c.last

abbrev pub store : ℕ → Counter → Counter
store x c = record { stored = update c.stored (c.last + 1) x; last = c.last + 1 }

module _ {ℓ} (T : Type ℓ) where
  -- Where the producer is in `push(val)`: before, after the load of `head_`, after the test, and after the
  -- write of the slot.
  pub data Producer : Type ℓ where
    idle : Producer
    loaded : T → ℕ → Producer
    room : T → ℕ → Producer
    written : T → ℕ → Producer

  -- Where the consumer is in `pop`.
  pub data Consumer : Type ℓ where
    idle : Consumer
    loaded : ℕ → Consumer
    ready : ℕ → Consumer
    copied : ℕ → T → Consumer

  -- `tail_seen` and `head_seen` are the stores that a thread last loaded of the other's counter; `sent` and
  -- `received` are the values of the calls that returned true.
  pub record Threads : Type ℓ where
    pub head : Counter
    pub tail : Counter
    pub slots : ℕ → T
    pub producer : Producer
    pub consumer : Consumer
    pub tail_seen : ℕ
    pub head_seen : ℕ
    pub sent : List T
    pub received : List T

module _ {ℓ} {T : Type ℓ} (k : ℕ) where
  abbrev pub begin_push : T → Threads T → Threads T
  begin_push val s = record s { producer = Producer.loaded val (load s.head) }

  -- `if (next - tail_.load(acquire) > N) return false`, where the load gives store `i`.
  abbrev pub check_tail : ℕ → T → ℕ → Threads T → Threads T
  check_tail i val head s = record s {
    tail_seen = i;
    producer =
        if ltb (2 ^ k) (sub64 (add64 head 1) (s.tail.stored i))
        then Producer.idle
        else Producer.room val head;
  }

  abbrev pub write_slot : T → ℕ → Threads T → Threads T
  write_slot val head s = record s {
    slots = update s.slots (masked k head) val;
    producer = Producer.written val head;
  }

  abbrev pub publish : T → ℕ → Threads T → Threads T
  publish val head s = record s {
    head = store (add64 head 1) s.head;
    producer = Producer.idle;
    sent = s.sent ++ val ∷ [];
  }

  abbrev pub begin_pop : Threads T → Threads T
  begin_pop s = record s { consumer = Consumer.loaded (load s.tail) }

  -- `if (head_.load(acquire) == tail) return false`
  abbrev pub check_head : ℕ → ℕ → Threads T → Threads T
  check_head i tail s = record s {
    head_seen = i;
    consumer = if s.head.stored i == tail then Consumer.idle else Consumer.ready tail;
  }

  abbrev pub read_slot : ℕ → Threads T → Threads T
  read_slot tail s = record s { consumer = Consumer.copied tail (s.slots (masked k tail)) }

  abbrev pub release : ℕ → T → Threads T → Threads T
  release tail val s = record s {
    tail = store (add64 tail 1) s.tail;
    consumer = Consumer.idle;
    received = s.received ++ val ∷ [];
  }

  -- A step of either thread.
  pub data Step : Threads T → Threads T → Type ℓ where
    begins_push :
        {s s' : Threads T} (val : T)
        → s.producer ≡ Producer.idle
        → s' ≡ begin_push val s
        → Step s s'
    checks_tail :
        {s s' : Threads T} (i : ℕ) (val : T) (head : ℕ)
        → s.producer ≡ Producer.loaded val head
        → s.tail_seen ≤ i
        → i ≤ s.tail.last
        → s' ≡ check_tail i val head s
        → Step s s'
    writes_slot :
        {s s' : Threads T} (val : T) (head : ℕ)
        → s.producer ≡ Producer.room val head
        → s' ≡ write_slot val head s
        → Step s s'
    publishes :
        {s s' : Threads T} (val : T) (head : ℕ)
        → s.producer ≡ Producer.written val head
        → s' ≡ publish val head s
        → Step s s'
    begins_pop : {s s' : Threads T} → s.consumer ≡ Consumer.idle → s' ≡ begin_pop s → Step s s'
    checks_head :
        {s s' : Threads T} (i tail : ℕ)
        → s.consumer ≡ Consumer.loaded tail
        → s.head_seen ≤ i
        → i ≤ s.head.last
        → s' ≡ check_head i tail s
        → Step s s'
    reads_slot :
        {s s' : Threads T} (tail : ℕ)
        → s.consumer ≡ Consumer.ready tail
        → s' ≡ read_slot tail s
        → Step s s'
    releases :
        {s s' : Threads T} (tail : ℕ) (val : T)
        → s.consumer ≡ Consumer.copied tail val
        → s' ≡ release tail val s
        → Step s s'

  abbrev pub fresh : T → Threads T
  fresh zero_slot = record {
    head = record { stored = λ _. 0; last = 0 };
    tail = record { stored = λ _. 0; last = 0 };
    slots = λ _. zero_slot;
    producer = Producer.idle;
    consumer = Consumer.idle;
    tail_seen = 0;
    head_seen = 0;
    sent = [];
    received = [];
  }

  -- The states of a ring that starts empty.
  pub data Reach : Threads T → Type ℓ where
    started : {s : Threads T} (zero_slot : T) → s ≡ fresh zero_slot → Reach s
    stepped : {s s' : Threads T} → Reach s → Step s s' → Reach s'
