-- ===== src/Net/UringGateway/Invariant/Steps.antt =====
-- include/lx/net/uring_gateway.hpp: every completion, in any order, keeps what holds of the states.
use lite_exchange.Base.{
  ℕ, ◌+◌, ◌^◌, ◌<◌, ◌≡◌, refl, ap, inl, inr, arith, true, false, ◌==◌, Bool-cases, none, List, [],
  ◌∷◌, ◌++◌, All, All-append, All-append_left, All-append_right, ℤ, pos, negsuc,
}
use mathlib.Core.Path.{subst}
use mathlib.Core.List.{append-nil}
use lite_exchange.Net.UringGateway.{
  UringGateway, Effect, prep, set_nodelay, call, multishot_accept, recv, Cqe, tag, op_accept,
  op_recv, get_sqe, arm_accept, arm_recv, add_conn, accepted, on_accept,
}
use lite_exchange.Net.UringGateway.Invariant.{
  IsUring, Known, count, count-append, prepared, after, Accepts,
}
use lite_exchange.Net.UringGateway.Invariant.Flight.{
  count-within, count-last, Known-without, Known-within, Known-last, recount, retrace, Added,
  then_added, none_added, call-Added, submit_all-trace,
}
use lite_exchange.Net.UringGateway.Invariant.Conns.{add_conn-IsUring}

-- A step that prepares `new`, from a state with `flight` in flight to one with `flight'` and those.
pub record Stepped (u u' : UringGateway) (flight' : List ℕ) : Type 0 where
  pub new : List ℕ
  pub added : Added new u u'
  pub uring : IsUring u' (flight' ++ new)

pub quiet :
    (u u' : UringGateway) (flight' : List ℕ)
    → Added [] u u'
    → IsUring u' flight'
    → Stepped u u' flight'
quiet u u' flight' a v = record { new = []; added = a; uring = rw (append-nil flight') v }

after-on :
    (c : Cqe) (a b : List ℕ)
    → c.more ≡ true
    → c.user_data ≡ tag op_accept 0
    → after c a b ≡ a ++ c.user_data ∷ b
after-on c a b more e = ground (arith, more, e)

after-last : (c : Cqe) (a b : List ℕ) → c.more ≡ false → after c a b ≡ a ++ b
after-last c a b last = ground (arith, last)

pub after-other :
    (c : Cqe) (a b : List ℕ) → (c.user_data == tag op_accept 0) ≡ false → after c a b ≡ a ++ b
after-other c a b other = ground (arith, other)

-- A request that was completed, and is made again after others.
pub rearmed :
    (u : UringGateway) (d : ℕ) (a b new : List ℕ)
    → IsUring u ((a ++ d ∷ b) ++ new)
    → IsUring u ((a ++ b) ++ (new ++ d ∷ []))
rearmed u d a b new v =
    recount u ((a ++ d ∷ b) ++ new) ((a ++ b) ++ (new ++ d ∷ [])) counts
      (All-append Known (a ++ b) (new ++ d ∷ []) (Known-without d a b front) (
        Known-last d new (All-append_right Known (a ++ d ∷ b) new v.known)
          (Known-within d a b front)))
      v
  where
    front : All Known (a ++ d ∷ b)
    front = All-append_left Known (a ++ d ∷ b) new v.known

    counts : (x : ℕ) → count x ((a ++ b) ++ (new ++ d ∷ [])) ≡ count x ((a ++ d ∷ b) ++ new)
    counts x = omega (
      arith,
      count-append x (a ++ b) (new ++ d ∷ []),
      count-append x (a ++ d ∷ b) new,
      count-last x d new,
      count-within x d a b,
    )

module _ (busy : List Effect → ℕ) (ring_bits : ℕ) where
  -- Arming prepares one entry, and changes the trace alone.
  pub arm_recv-trace :
      (fd : ℕ) (u : UringGateway)
      → (t : List Effect) × (arm_recv busy ring_bits fd u ≡ record u { trace = t })
        × (prepared t ≡ prepared u.trace ++ tag op_recv fd ∷ [])
  unfolding arm_recv get_sqe prepared
  arm_recv-trace fd u =
      let r = submit_all-trace (busy u.trace) u in
      let e = prep (recv fd) (tag op_recv fd) in
      let u1 = record u { trace = r.0 } in
      (
        r.0 ++ e ∷ [],
        ap (call e) r.1,
        then_added [] (tag op_recv fd ∷ []) u u1 (call e u1) r.2 (call-Added e u1),
      )

  pub arm_accept-trace :
      (u : UringGateway)
      → (t : List Effect) × (arm_accept busy ring_bits u ≡ record u { trace = t })
        × (prepared t ≡ prepared u.trace ++ tag op_accept 0 ∷ [])
  unfolding arm_accept get_sqe prepared
  arm_accept-trace u =
      let r = submit_all-trace (busy u.trace) u in
      let e = prep (multishot_accept u.listen_fd) (tag op_accept 0) in
      let u1 = record u { trace = r.0 } in
      (
        r.0 ++ e ∷ [],
        ap (call e) r.1,
        then_added [] (tag op_accept 0 ∷ []) u u1 (call e u1) r.2 (call-Added e u1),
      )

  accepted-Stepped :
      (res : ℤ) (u : UringGateway) (flight : List ℕ)
      → ((fd : ℕ) → res ≡ pos fd → u.conns fd ≡ none)
      → ((fd : ℕ) → res ≡ pos fd → fd < 2 ^ 31)
      → u.next_session_id + 1 < 2 ^ 32
      → IsUring u flight
      → Stepped u (accepted busy ring_bits res u) flight
  unfolding accepted prepared add_conn
  accepted-Stepped (negsuc n) u flight fresh small ids v = quiet u u flight (none_added u) v
  accepted-Stepped (pos fd) u flight fresh small ids v =
      let u1 = add_conn busy ring_bits fd u in
      let r = arm_recv-trace fd u1 in
      let added1 = call-Added (set_nodelay fd) u in
      rw r.1 (record {
        new = tag op_recv fd ∷ [];
        added = then_added [] (tag op_recv fd ∷ []) u u1 (record u1 { trace = r.0 }) added1 r.2;
        uring =
            retrace u1 r.0 (flight ++ tag op_recv fd ∷ [])
              (add_conn-IsUring busy ring_bits fd u flight (fresh fd refl) (small fd refl) ids v);
      })

  pub on_accept-Stepped :
      (c : Cqe) (u : UringGateway) (a b : List ℕ)
      → c.user_data ≡ tag op_accept 0
      → Accepts c u
      → IsUring u (a ++ c.user_data ∷ b)
      → Stepped u (on_accept busy ring_bits c u) (after c a b)
  unfolding on_accept
  on_accept-Stepped c u a b e k v =
      let s = accepted-Stepped c.res u (a ++ c.user_data ∷ b) k.fresh k.small k.ids v in
      elim (Bool-cases c.more) [
        | inl more ↦ rw (after-on c a b more e) (rw more s)
        | inr last ↦
            let u1 = accepted busy ring_bits c.res u in
            let r = arm_accept-trace u1 in
            rw (after-last c a b last) (
              rw (last, r.1)
                (record {
                  new = s.new ++ tag op_accept 0 ∷ [];
                  added =
                      then_added s.new (tag op_accept 0 ∷ []) u u1 (record u1 { trace = r.0 })
                        s.added r.2;
                  uring = retrace u1 r.0 ((a ++ b) ++ (s.new ++ tag op_accept 0 ∷ [])) (
                      subst (λ (d : ℕ). IsUring u1 ((a ++ b) ++ (s.new ++ d ∷ []))) e
                        (rearmed u1 c.user_data a b s.new s.uring));
                }))
      ]
