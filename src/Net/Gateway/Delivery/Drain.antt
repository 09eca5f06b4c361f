-- ===== src/Net/Gateway/Delivery/Drain.antt =====
-- include/lx/net/gateway.hpp: what `drain_outbound` writes to each client.
use lite_exchange.Base.{
  ℕ, zero, suc, ◌+◌, ◌≤◌, ◌<◌, ◌≡◌, refl, sym, ◌∙◌, ap, ◌⊎◌, inl, inr, arith, ◌==◌, if◌then◌else◌,
  Bool-cases, ==→eq, Option-cases, Option, none, some, List, [], ◌∷◌, ◌++◌, update_self, update_ne,
}
use mathlib.Core.List.{append_assoc, append-nil}
use lite_exchange.Proto.Messages.{OutboundMsg, outbound_hdr}
use lite_exchange.Proto.Codec.{Bytes}
use lite_exchange.Proto.Codec.Outbound.{wire}
use lite_exchange.Engine.ShardSet.{ShardSet, outbound, with_outbound}
use lite_exchange.Engine.Shard.{Shard}
use lite_exchange.Net.Sockets.{Sockets, IsPosix}
use lite_exchange.Net.Gateway.{Gateway, deliver, drain_shard, drain_from, drain_outbound}
use lite_exchange.Net.Gateway.Delivery.{send_all-Sent, all_sent}

-- What a message puts at a descriptor: its bytes, if its session is there.
unfoldable pub routed_wire : (ℕ → Option ℕ) → ℕ → OutboundMsg → Bytes
routed_wire sid_to_fd fd m = elim (sid_to_fd (outbound_hdr m).session_id) [
  | none ↦ []
  | some j ↦ if j == fd then wire m else []
]

abbrev pub routed_to : (ℕ → Option ℕ) → ℕ → List OutboundMsg → Bytes
routed_to sid_to_fd fd [] = []
routed_to sid_to_fd fd (m ∷ ms) = routed_wire sid_to_fd fd m ++ routed_to sid_to_fd fd ms

routed_to-append :
    (sid_to_fd : ℕ → Option ℕ) (fd : ℕ) (ms ns : List OutboundMsg)
    → routed_to sid_to_fd fd (ms ++ ns) ≡ routed_to sid_to_fd fd ms ++ routed_to sid_to_fd fd ns
routed_to-append sid_to_fd fd [] ns = refl
routed_to-append sid_to_fd fd (m ∷ ms) ns =
    ap (λ (ys : Bytes). routed_wire sid_to_fd fd m ++ ys) (routed_to-append sid_to_fd fd ms ns)
    ∙ sym (
        append_assoc (routed_wire sid_to_fd fd m) (routed_to sid_to_fd fd ms)
          (routed_to sid_to_fd fd ns))

-- The messages of `todo` shards from `i` on, a shard after the other.
abbrev pub pending : ℕ → ℕ → ShardSet → List OutboundMsg
pending zero i set = []
pending (suc todo) i set = outbound i set ++ pending todo (i + 1) set

pending-same :
    (todo i : ℕ) (a b : ShardSet)
    → ((j : ℕ) → i ≤ j → outbound j a ≡ outbound j b)
    → pending todo i a ≡ pending todo i b
pending-same zero i a b h = refl
pending-same (suc todo) i a b h =
    ap (λ (ms : List OutboundMsg). ms ++ pending todo (i + 1) a) (h i (omega arith))
    ∙ ap (λ (ms : List OutboundMsg). outbound i b ++ ms)
        (pending-same todo (i + 1) a b (λ j l. h j (omega arith)))

module _ {K : Type 0} (net : Sockets K) (posix : IsPosix net)
    (willing : (j x : ℕ) (xs : Bytes) (k : K) → 0 < (net.send j (x ∷ xs) k).0) where
  deliver-written :
      (m : OutboundMsg) (g : Gateway K) (fd : ℕ)
      → posix.written (deliver net m g).kernel fd
        ≡ posix.written g.kernel fd ++ routed_wire g.sid_to_fd fd m
  unfolding deliver routed_wire
  deliver-written m g fd = elim (Option-cases (g.sid_to_fd (outbound_hdr m).session_id)) [
    | inl h ↦ rw (h, deliver, routed_wire) (sym (append-nil _))
    | inr (j, h) ↦
        let s = send_all-Sent net posix j (wire m) g.kernel in
        rw (h, deliver, routed_wire)
          (elim (Bool-cases (j == fd)) [
            | inl same ↦
                rw (same, ==→eq j fd same)
                  (all_sent net posix fd (wire m) g.kernel _ willing
                    (send_all-Sent net posix fd (wire m) g.kernel))
            | inr other ↦ rw other (s.others fd (ground (arith, other)) ∙ sym (append-nil _))
          ])
  ]

  deliver-same : (m : OutboundMsg) (g : Gateway K) → (deliver net m g).sid_to_fd ≡ g.sid_to_fd
  unfolding deliver
  deliver-same m g = elim (Option-cases (g.sid_to_fd (outbound_hdr m).session_id)) [
    | inl h ↦ rw (h, deliver) refl
    | inr (j, h) ↦ rw (h, deliver) refl
  ]

  deliver-shards : (m : OutboundMsg) (g : Gateway K) → (deliver net m g).shards ≡ g.shards
  unfolding deliver
  deliver-shards m g = elim (Option-cases (g.sid_to_fd (outbound_hdr m).session_id)) [
    | inl h ↦ rw (h, deliver) refl
    | inr (j, h) ↦ rw (h, deliver) refl
  ]

  -- `g'` came of `g` by writing the messages to their clients, which takes them from the shards that
  -- `Drained` says, and from no other.
  pub record Delivered (ms : List OutboundMsg) (Drained : ℕ → Type 0) (g g' : Gateway K)
      : Type 0 where
    pub written :
        (fd : ℕ)
        → posix.written g'.kernel fd ≡ posix.written g.kernel fd ++ routed_to g.sid_to_fd fd ms
    pub same_sids : g'.sid_to_fd ≡ g.sid_to_fd
    pub emptied : (i : ℕ) → Drained i → outbound i g'.shards ≡ []
    pub left : (i : ℕ) → ¬ Drained i → outbound i g'.shards ≡ outbound i g.shards

  -- One message more, at the front of shard `i`.
  deliver-Delivered :
      (i : ℕ) (m : OutboundMsg) (ms : List OutboundMsg) (g g' : Gateway K)
      → Delivered ms
          (λ j. j ≡ i)
          (deliver net m (record g { shards = with_outbound i ms g.shards }))
          g'
      → Delivered (m ∷ ms) (λ j. j ≡ i) g g'
  deliver-Delivered i m ms g g' ih = record {
    written = λ fd.
        ih.written fd
        ∙ ap (λ (m : ℕ → Option ℕ). posix.written g2.kernel fd ++ routed_to m fd ms)
            (deliver-same m g1)
        ∙ ap (λ (ys : Bytes). ys ++ routed_to g.sid_to_fd fd ms) (deliver-written m g1 fd)
        ∙ append_assoc (posix.written g.kernel fd) (routed_wire g.sid_to_fd fd m)
            (routed_to g.sid_to_fd fd ms);
    same_sids = ih.same_sids ∙ deliver-same m g1;
    emptied = ih.emptied;
    left = λ j h.
        ih.left j h
        ∙ ap (outbound j) (deliver-shards m g1)
        ∙ ap (λ (s : Shard). s.outbound) (update_ne g.shards.shards i _ j h);
  }
    where
      g1 : Gateway K
      g1 = record g { shards = with_outbound i ms g.shards }

      g2 : Gateway K
      g2 = deliver net m g1

  -- What was drained first, and the rest, with the queues of the rest as they were.
  Delivered-trans :
      (a b c : List OutboundMsg) (P Q R : ℕ → Type 0) (g g1 g' : Gateway K)
      → b ≡ c
      → ((i : ℕ) → R i → (Q i) ⊎ (P i × ¬ Q i))
      → ((i : ℕ) → ¬ R i → (¬ P i) × (¬ Q i))
      → Delivered a P g g1
      → Delivered b Q g1 g'
      → Delivered (a ++ c) R g g'
  Delivered-trans a b c P Q R g g1 g' e which neither one rest = record {
    written = λ fd.
        rest.written fd
        ∙ ap (λ (m : ℕ → Option ℕ). posix.written g1.kernel fd ++ routed_to m fd b) one.same_sids
        ∙ ap (λ (ms : List OutboundMsg). posix.written g1.kernel fd ++ routed_to g.sid_to_fd fd ms)
            e
        ∙ ap (λ (ys : Bytes). ys ++ routed_to g.sid_to_fd fd c) (one.written fd)
        ∙ append_assoc (posix.written g.kernel fd) (routed_to g.sid_to_fd fd a)
            (routed_to g.sid_to_fd fd c)
        ∙ ap (λ (ys : Bytes). posix.written g.kernel fd ++ ys)
            (sym (routed_to-append g.sid_to_fd fd a c));
    same_sids = rest.same_sids ∙ one.same_sids;
    emptied = λ i h. elim (which i h) [
      | inl q ↦ rest.emptied i q
      | inr (p, n) ↦ rest.left i n ∙ one.emptied i p
    ];
    left = λ i h. rest.left i (neither i h).1 ∙ one.left i (neither i h).0;
  }

  drain_shard-Delivered :
      (i : ℕ) (ms : List OutboundMsg) (g : Gateway K)
      → outbound i g.shards ≡ ms
      → Delivered ms (λ j. j ≡ i) g (drain_shard net i ms g)
  unfolding drain_shard
  drain_shard-Delivered i [] g e = record {
    written = λ fd. sym (append-nil _);
    same_sids = refl;
    emptied = λ j h. rw h e;
    left = λ j h. refl;
  }
  drain_shard-Delivered i (m ∷ ms) g e = deliver-Delivered i m ms g _ (
      drain_shard-Delivered i ms (deliver net m (record g { shards = with_outbound i ms g.shards }))
        (ap (outbound i) (deliver-shards m _)
          ∙ ap (λ (s : Shard). s.outbound) (update_self g.shards.shards i _)))

  drain_from-Delivered :
      (todo i : ℕ) (g : Gateway K)
      → Delivered
          (pending todo i g.shards)
          (λ j. (i ≤ j) × (j < i + todo))
          g
          (drain_from net todo i g)
  unfolding drain_from
  drain_from-Delivered zero i g = record {
    written = λ fd. sym (append-nil _);
    same_sids = refl;
    emptied = λ j h. absurd (omega (arith, h));
    left = λ j h. refl;
  }
  drain_from-Delivered (suc todo) i g =
      let one = drain_shard-Delivered i (outbound i g.shards) g refl in
      let g1 = drain_shard net i (outbound i g.shards) g in
      Delivered-trans (outbound i g.shards) (pending todo (i + 1) g1.shards)
        (pending todo (i + 1) g.shards) (λ j. j ≡ i) (λ j. (i + 1 ≤ j) × (j < i + 1 + todo))
        (λ j. (i ≤ j) × (j < i + suc todo)) g g1 _
        (pending-same todo (i + 1) g1.shards g.shards (λ j h. one.left j (λ e. omega arith)))
        (λ j h. elim (Bool-cases (j == i)) [
          | inl here ↦ inr (==→eq j i here, λ later. omega (arith, ==→eq j i here, later))
          | inr there ↦ inl (ground (arith, there, h))
        ])
        (λ j h. ((λ e. h (omega arith, omega arith)), λ q. h (omega (arith, q), omega (arith, q))))
        one (drain_from-Delivered todo (i + 1) g1)

  -- Where the kernel takes bytes of every `send`, `drain_outbound` writes to every client the whole
  -- messages of its session, shard after shard and each shard's in order, drops those of no client, and
  -- leaves the outbound queues of all shards empty.
  pub drain_outbound-Delivered :
      (g : Gateway K)
      → Delivered
          (pending g.shards.count 0 g.shards)
          (λ i. (0 ≤ i) × (i < 0 + g.shards.count))
          g
          (drain_outbound net g)
  unfolding drain_outbound
  drain_outbound-Delivered g = drain_from-Delivered g.shards.count 0 g
