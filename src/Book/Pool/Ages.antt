-- ===== src/Book/Pool/Ages.antt =====
-- include/lx/book/pool.hpp: the generation of a slot, over steps that free some slots and take none.
use lite_exchange.Base.{
  ℕ, ◌≡◌, ◌⊎◌, ◌∙◌, refl, ap, sym, inl, inr, Bool, true, false, add32, update, ==_iff, ◌==◌,
  Bool-cases,
}
use mathlib.Core.Bool.{false≢true}
use lite_exchange.Book.Pool.{Pool, free}

-- A slot that is as it was, or that was in use and was freed: whether it is in use, and its generation, before
-- and after.
abbrev pub Aged : Bool → Bool → ℕ → ℕ → Type 0
Aged l l' g g' = ((g' ≡ g) × (l' ≡ l)) ⊎ ((g' ≡ add32 g 1) × (l ≡ true) × (l' ≡ false))

pub Aged-trans :
    {l l' l'' : Bool} {g g' g'' : ℕ} → Aged l l' g g' → Aged l' l'' g' g'' → Aged l l'' g g''
Aged-trans (inl (e, h)) (inl (e', h')) = inl (e' ∙ e, h' ∙ h)
Aged-trans (inl (e, h)) (inr (e', used, h')) =
    inr (e' ∙ ap (λ (n : ℕ). add32 n 1) e, sym h ∙ used, h')
Aged-trans (inr (e, used, h)) (inl (e', h')) = inr (e' ∙ e, used, h' ∙ h)
Aged-trans (inr (e, used, h)) (inr (e', used', h')) = absurd (false≢true (sym h ∙ used'))

-- Where slots may be taken too: one that is as old as it was has not been freed.
abbrev pub Older : Bool → Bool → ℕ → ℕ → Type 0
Older l l' g g' = ((g' ≡ g) × (l ≡ true → l' ≡ true)) ⊎ ((g' ≡ add32 g 1) × (l' ≡ false))

pub Aged-Older : {l l' : Bool} {g g' : ℕ} → Aged l l' g g' → Older l l' g g'
Aged-Older (inl (e, h)) = inl (e, λ used. h ∙ used)
Aged-Older (inr (e, used, h)) = inr (e, h)

module _ {ℓ} {T : Type ℓ} (p : Pool T) (live : ℕ → Bool) (idx : ℕ) where
  pub free-Aged :
      live idx ≡ true
      → (x : ℕ) → Aged (live x) (update live idx false x) (p.gen x) ((free idx p).gen x)
  unfolding free
  free-Aged used x = elim (Bool-cases (x == idx)) [
    | inl here ↦
        let same = (==_iff x idx).0 here in
        rw here (inr (ap (λ (i : ℕ). add32 (p.gen i) 1) (sym same), ap live same ∙ used, refl))
    | inr off ↦ rw off (inl (refl, refl))
  ]
