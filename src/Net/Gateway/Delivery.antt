-- ===== src/Net/Gateway/Delivery.antt =====
-- include/lx/net/gateway.hpp: what `send_all` writes.
pub mod Drain
use lite_exchange.Base.{
  ℕ, zero, suc, ◌+◌, ◌≤◌, ◌<◌, ◌≡◌, refl, sym, ◌∙◌, ap, ◌≢◌, ◌⊎◌, inl, inr, arith, false, ◌==◌,
  if◌then◌else◌, Bool-cases, ==→eq, Option-cases, Option, none, some, List, [], ◌∷◌, ◌++◌, length,
  take, drop, length-drop, take-add, drop-add, take-all, update_self, update_ne,
}
use mathlib.Core.List.{append_assoc, append-nil}
use lite_exchange.Proto.Messages.{OutboundMsg, outbound_hdr}
use lite_exchange.Proto.Codec.{Bytes}
use lite_exchange.Proto.Codec.Outbound.{wire}
use lite_exchange.Engine.ShardSet.{ShardSet, outbound, with_outbound}
use lite_exchange.Engine.Shard.{Shard}
use lite_exchange.Net.Sockets.{Sockets, IsPosix}
use lite_exchange.Net.Gateway.{
  Gateway, send_rest, send_all, deliver, drain_shard, drain_from, drain_outbound,
}

module _ {K : Type 0} (net : Sockets K) (posix : IsPosix net) where
  -- What `send_all` wrote: `n` bytes from the front, all or up to a call that took none.
  pub record Sent (fd : ℕ) (bs : Bytes) (k k' : K) : Type 0 where
    pub n : ℕ
    pub part : n ≤ length bs
    pub to : posix.written k' fd ≡ posix.written k fd ++ take n bs
    pub others : (j : ℕ) → j ≢ fd → posix.written k' j ≡ posix.written k j
    pub ends :
        (n ≡ length bs) ⊎ ((n < length bs) × (k'' : K) × ((net.send fd (drop n bs) k'').0 ≡ 0))

  nothing : (fd : ℕ) (k : K) → Sent fd [] k k
  nothing fd k = record {
    n = 0;
    part = omega arith;
    to = sym (append-nil _);
    others = λ j h. refl;
    ends = inl refl;
  }

  refused :
      (fd : ℕ) (bs : Bytes) (k : K)
      → 0 < length bs
      → (net.send fd bs k).0 ≡ 0
      → Sent fd bs k (net.send fd bs k).1
  refused fd bs k h e = record {
    n = 0;
    part = omega arith;
    to = rw e at (posix.send_writes fd bs k);
    others = posix.send_others fd bs k;
    ends = inr (h, k, e);
  }

  more :
      (fd w : ℕ) (bs : Bytes) (k k' : K)
      → (net.send fd bs k).0 ≡ w
      → Sent fd (drop w bs) (net.send fd bs k).1 k'
      → Sent fd bs k k'
  more fd w bs k k' e s = record {
    n = w + s.n;
    part = omega (arith, posix.send_takes fd bs k, e, s.part, length-drop w bs);
    to =
        s.to
        ∙ ap (λ (ys : Bytes). ys ++ take s.n (drop w bs)) (rw e at (posix.send_writes fd bs k))
        ∙ append_assoc (posix.written k fd) (take w bs) (take s.n (drop w bs))
        ∙ ap (λ (ys : Bytes). posix.written k fd ++ ys) (take-add w s.n bs);
    others = λ j h. s.others j h ∙ posix.send_others fd bs k j h;
    ends = elim s.ends [
      | inl all ↦ inl (omega (arith, all, length-drop w bs, posix.send_takes fd bs k, e))
      | inr (short, k'', r) ↦
          inr (omega (arith, short, length-drop w bs), k'', rw (drop-add w s.n bs) at r)
    ];
  }

  send_rest-Sent :
      (rounds fd : ℕ) (bs : Bytes) (k : K)
      → length bs ≤ rounds
      → Sent fd bs k (send_rest net rounds fd bs k)
  unfolding send_rest
  send_rest-Sent zero fd [] k h = nothing fd k
  send_rest-Sent zero fd (b ∷ bs) k h = absurd (omega arith)
  send_rest-Sent (suc rounds) fd [] k h = nothing fd k
  send_rest-Sent (suc rounds) fd (b ∷ bs) k h = elim (Bool-cases (w == 0)) [
    | inl e ↦ rw e (refused fd (b ∷ bs) k (omega arith) (ground (arith, e)))
    | inr e ↦ rw e (
        more fd w (b ∷ bs) k _ refl (
          send_rest-Sent rounds fd (drop w (b ∷ bs)) _
            (omega (arith, positive e, h, length-drop w (b ∷ bs)))))
  ]
    where
      w : ℕ
      w = (net.send fd (b ∷ bs) k).0

      positive : (w == 0) ≡ false → 0 < w
      positive e = ground (arith, e)

  -- `send_all` writes to its client alone, from the front of the message: the whole of it, or as far as a
  -- call of `send` took no more; then the rest is dropped.
  pub send_all-Sent : (fd : ℕ) (bs : Bytes) (k : K) → Sent fd bs k (send_all net fd bs k)
  unfolding send_all
  send_all-Sent fd bs k = send_rest-Sent (length bs) fd bs k (omega arith)

  rest_taken :
      (fd n : ℕ) (bs rest : Bytes) (k : K)
      → ((j x : ℕ) (xs : Bytes) (k : K) → 0 < (net.send j (x ∷ xs) k).0)
      → drop n bs ≡ rest
      → n < length bs
      → (net.send fd (drop n bs) k).0 ≡ 0
      → ⊥
  rest_taken fd n bs [] k willing e h z = absurd (omega (arith, ap length e, length-drop n bs))
  rest_taken fd n bs (x ∷ xs) k willing e h z =
      absurd (omega (arith, ap (λ (ys : Bytes). (net.send fd ys k).0) e, z, willing fd x xs k))

  -- A kernel that always takes something gets everything.
  pub all_sent :
      (fd : ℕ) (bs : Bytes) (k k' : K)
      → ((j x : ℕ) (xs : Bytes) (k : K) → 0 < (net.send j (x ∷ xs) k).0)
      → Sent fd bs k k'
      → posix.written k' fd ≡ posix.written k fd ++ bs
  all_sent fd bs k k' willing s = elim s.ends [
    | inl e ↦
        s.to
        ∙ ap (λ (n : ℕ). posix.written k fd ++ take n bs) e
        ∙ ap (λ (ys : Bytes). posix.written k fd ++ ys) (take-all bs)
    | inr (short, k'', z) ↦ elim (rest_taken fd s.n bs (drop s.n bs) k'' willing refl short z) [ ]
  ]
