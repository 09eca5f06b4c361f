-- ===== src/Queue/Examples.antt =====
-- A ring of two slots: the theorems at work.
use lite_exchange.Base.{
  ℕ, ◌<◌, ◌≡◌, ◌⊎◌, inl, inr, true, false, List, [], ◌∷◌, ◌++◌, ◌≤◌, ◌≢◌, refl, length, arith, none,
  some,
}
use lite_exchange.Queue.Spsc.{SpscQueue, init, push, pop, masked}
use lite_exchange.Queue.Spsc.Threads.{
  Threads, begin_push, check_tail, write_slot, publish, begin_pop, check_head, Reach, started,
  stepped, begins_push, checks_tail, writes_slot, publishes, begins_pop, checks_head, fresh,
}
use lite_exchange.Queue.Spsc.Threads.Reached.{Reach-fifo, Reach-apart}
use lite_exchange.Queue.Spsc.Fifo.{IsRing, init-IsRing, push-IsRing, pop-IsRing}

abbrev nothing : List ℕ
nothing = []

abbrev value : List ℕ
value = 42 ∷ []

abbrev ring : SpscQueue ℕ
ring = init 0

ring-IsRing : IsRing 1 0 ring []
ring-IsRing = init-IsRing 1 0 (omega arith)

push-IsRing_example :
    let (taken, ring') = push 1 42 ring in
    ((length nothing < 2) × (taken ≡ true) × IsRing 1 0 ring' (42 ∷ []))
    ⊎ ((length nothing ≡ 2) × (taken ≡ false) × (ring' ≡ ring))
push-IsRing_example = push-IsRing 1 0 42 ring [] ring-IsRing

one_value : IsRing 1 0 (push 1 42 ring).1 (42 ∷ [])
one_value = elim (push-IsRing 1 0 42 ring [] ring-IsRing) [
  | inl (short, taken, r) ↦ r
  | inr (full, refused, same) ↦ absurd (omega arith)
]

pop-IsRing_example :
    let (val, ring') = pop 1 (push 1 42 ring).1 in
    ((value ≡ []) × (val ≡ none) × (ring' ≡ (push 1 42 ring).1))
    ⊎ ((x : ℕ) × (ys : List ℕ) × (value ≡ x ∷ ys) × (val ≡ some x) × IsRing 1 1 ring' ys)
pop-IsRing_example = pop-IsRing 1 0 (push 1 42 ring).1 value one_value

-- Two threads on a ring of two slots: one value is sent, a second is about to be written, and the first is
-- about to be read.
abbrev sent_one : Threads ℕ
sent_one = publish 1 42 0 (write_slot 1 42 0 (check_tail 1 0 42 0 (begin_push 1 42 (fresh 1 0))))

sent_one-Reach : Reach 1 sent_one
sent_one-Reach =
    stepped
      (stepped
        (stepped (stepped (started 0 refl) (begins_push {s = fresh 1 0} 42 refl refl)) (
          checks_tail {s = begin_push 1 42 (fresh 1 0)} 0 42 0 refl (omega arith) (omega arith)
            refl))
        (writes_slot {s = check_tail 1 0 42 0 (begin_push 1 42 (fresh 1 0))} 42 0 refl refl))
      (publishes {s = write_slot 1 42 0 (check_tail 1 0 42 0 (begin_push 1 42 (fresh 1 0)))} 42 0
        refl refl)

Reach-fifo_example : (pending : List ℕ) × (42 ∷ [] ≡ nothing ++ pending) × (length pending ≤ 2)
Reach-fifo_example = Reach-fifo 1 (omega arith) sent_one-Reach

abbrev pushing : Threads ℕ
pushing = check_tail 1 0 43 1 (begin_push 1 43 sent_one)

abbrev both : Threads ℕ
both = check_head 1 1 0 (begin_pop 1 pushing)

both-Reach : Reach 1 both
both-Reach =
    stepped
      (stepped
        (stepped (stepped sent_one-Reach (begins_push {s = sent_one} 43 refl refl))
          (checks_tail {s = begin_push 1 43 sent_one} 0 43 1 refl (omega arith) (omega arith) refl))
        (begins_pop {s = pushing} refl refl))
      (checks_head {s = begin_pop 1 pushing} 1 0 refl (omega arith) (omega arith) refl)

Reach-apart_example : masked 1 1 ≢ masked 1 0
Reach-apart_example = Reach-apart 1 (omega arith) 43 1 0 both-Reach refl refl
