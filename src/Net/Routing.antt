-- ===== src/Net/Routing.antt =====
-- The two maps of the reactors of include/lx/net, sessions by descriptor and descriptors by session id:
-- they point at each other, whatever is added, replaced and taken out.
use lite_exchange.Base.{
  ℕ, ◌+◌, ◌^◌, ◌<◌, ◌≡◌, refl, sym, ◌∙◌, ap, inl, inr, arith, ◌==◌, Bool-cases, Option-cases,
  Option, none, some, update, add32,
}
use lite_exchange.Net.Session.{Session, init}

abbrev pub Sessions : Type 0
Sessions = ℕ → Option Session

-- `try_emplace` leaves an entry as it is.
unfoldable pub try_emplace : ℕ → Session → Sessions → Sessions
try_emplace fd s sessions = elim (sessions fd) [
  | some old ↦ sessions
  | none ↦ update sessions fd (some s)
]

-- Before a descriptor's session is erased, its id is.
unfoldable pub forget : ℕ → Sessions → (ℕ → Option ℕ) → ℕ → Option ℕ
forget fd sessions sid_to_fd = elim (sessions fd) [
  | none ↦ sid_to_fd
  | some s ↦ update sid_to_fd s.session_id none
]

-- Every id that is routed is that of the session there; every session is routed by its own id, one that
-- was given out.
pub record IsRouting (sessions : Sessions) (sid_to_fd : ℕ → Option ℕ) (next : ℕ) : Type 0 where
  pub routed :
      (sid fd : ℕ)
      → sid_to_fd sid ≡ some fd
      → (s : Session) × (sessions fd ≡ some s) × (s.session_id ≡ sid)
  pub listed :
      (fd : ℕ) (s : Session)
      → sessions fd ≡ some s
      → (sid_to_fd s.session_id ≡ some fd) × (s.session_id < next)

module _ (sessions : Sessions) (sid_to_fd : ℕ → Option ℕ) (next : ℕ) where
  pub try_emplace-update :
      (fd : ℕ) (s : Session)
      → sessions fd ≡ none
      → try_emplace fd s sessions ≡ update sessions fd (some s)
  unfolding try_emplace
  try_emplace-update fd s e = rw (e, try_emplace) refl

  update-IsRouting :
      (fd : ℕ)
      → next + 1 < 2 ^ 32
      → sessions fd ≡ none
      → IsRouting sessions sid_to_fd next
      → IsRouting
          (update sessions fd (some (init next)))
          (update sid_to_fd next (some fd))
          (add32 next 1)
  unfolding init
  update-IsRouting fd small unused v = record {
    routed = λ sid j e. elim (Bool-cases (sid == next)) [
      | inl same ↦ (init next, ground (arith, e, same), ground (arith, same))
      | inr other ↦
          let r = v.routed sid j (ground (arith, e, other)) in
          (r.0, ground (arith, r.1, unused), r.2)
    ];
    listed = λ j s e. elim (Bool-cases (j == fd)) [
      | inl same ↦
          let fresh : init next ≡ s = ground (arith, e, same) in
          rw (sym fresh) (ground (arith, same), omega arith)
      | inr other ↦
          let l = v.listed j s (ground (arith, e, other)) in
          (ground (arith, l.0, l.1), omega (arith, l.1))
    ];
  }

  pub try_emplace-IsRouting :
      (fd : ℕ)
      → next + 1 < 2 ^ 32
      → sessions fd ≡ none
      → IsRouting sessions sid_to_fd next
      → IsRouting
          (try_emplace fd (init next) sessions)
          (update sid_to_fd next (some fd))
          (add32 next 1)
  try_emplace-IsRouting fd small unused v =
      rw (try_emplace-update fd (init next) unused) (update-IsRouting fd small unused v)

  -- A session gives way to its next state.
  pub replace-IsRouting :
      (fd : ℕ) (s s' : Session)
      → sessions fd ≡ some s
      → s'.session_id ≡ s.session_id
      → IsRouting sessions sid_to_fd next
      → IsRouting (update sessions fd (some s')) sid_to_fd next
  replace-IsRouting fd s s' e same v = record {
    routed = λ sid j r. elim (Bool-cases (j == fd)) [
      | inl here ↦
          let old = v.routed sid j r in
          let it : old.0 ≡ s = ground (arith, old.1, here, e) in
          (s', ground (arith, here), same ∙ sym (ap (λ (x : Session). x.session_id) it) ∙ old.2)
      | inr there ↦ let old = v.routed sid j r in (old.0, ground (arith, there, old.1), old.2)
    ];
    listed = λ j t r. elim (Bool-cases (j == fd)) [
      | inl here ↦
          let it : s' ≡ t = ground (arith, here, r) in
          let old = v.listed fd s e in rw (sym it, same) (ground (arith, here, old.0), old.1)
      | inr there ↦ v.listed j t (ground (arith, there, r))
    ];
  }

  erase_none-IsRouting :
      (fd : ℕ)
      → sessions fd ≡ none
      → IsRouting sessions sid_to_fd next
      → IsRouting (update sessions fd none) sid_to_fd next
  erase_none-IsRouting fd absent v = record {
    routed = λ sid j e. let old = v.routed sid j e in (old.0, ground (arith, absent, old.1), old.2);
    listed = λ j t e. v.listed j t (ground (arith, e));
  }

  erase_some-IsRouting :
      (fd : ℕ) (s : Session)
      → sessions fd ≡ some s
      → IsRouting sessions sid_to_fd next
      → IsRouting (update sessions fd none) (update sid_to_fd s.session_id none) next
  erase_some-IsRouting fd s present v = record {
    routed = λ sid j e.
        let old = v.routed sid j (ground (arith, e)) in
        (
          old.0,
          elim (Bool-cases (j == fd)) [
            | inl here ↦
                let it : old.0 ≡ s = ground (arith, here, old.1, present) in
                let id : sid ≡ s.session_id = sym old.2 ∙ ap (λ (x : Session). x.session_id) it in
                ground (arith, e, id)
            | inr there ↦ ground (arith, there, old.1)
          ],
          old.2,
        );
    listed = λ j t e.
        let l = v.listed j t (ground (arith, e)) in
        let own = v.listed fd s present in
        (
          elim (Bool-cases (t.session_id == s.session_id)) [
            | inl same ↦
                let id : t.session_id ≡ s.session_id = ground (arith, same) in
                let it : some j ≡ some fd = sym l.0 ∙ ap sid_to_fd id ∙ own.0 in
                ground (arith, e, it)
            | inr other ↦ ground (arith, other, l.0)
          ],
          l.1,
        );
  }

  pub erase-IsRouting :
      (fd : ℕ)
      → IsRouting sessions sid_to_fd next
      → IsRouting (update sessions fd none) (forget fd sessions sid_to_fd) next
  unfolding forget
  erase-IsRouting fd v = elim (Option-cases (sessions fd)) [
    | inl h ↦ rw (h, forget) (erase_none-IsRouting fd h v)
    | inr (s, h) ↦ rw (h, forget) (erase_some-IsRouting fd s h v)
  ]

  -- An id that was given out and is not routed is never routed again.
  pub update-unrouted :
      (sid fd : ℕ) → sid < next → sid_to_fd sid ≡ none → update sid_to_fd next (some fd) sid ≡ none
  update-unrouted sid fd h e = ground (arith, e, h)

  pub forget-unrouted :
      (sid fd : ℕ) → sid_to_fd sid ≡ none → forget fd sessions sid_to_fd sid ≡ none
  unfolding forget
  forget-unrouted sid fd e = elim (Option-cases (sessions fd)) [
    | inl h ↦ rw (h, forget) e
    | inr (s, h) ↦ rw (h, forget) (ground (arith, e))
  ]
