-- ===== src/Base/Lists.antt =====
-- Lists measured and indexed by native numbers, under the library's names, and membership by
-- recursion.
use Prim.Native.Nat.{ℕ, zero, suc, ◌+◌, ◌-◌}
use mathlib.Core.Path.{◌≡◌, refl, sym, ap, ◌∙◌}
use mathlib.Core.Logic.{◌≢◌, ◌⊎◌, inl, inr}
use mathlib.Core.List.{List, [], ◌∷◌, ◌++◌}
use native.Mathlib.Omega.{arith}

towards_suc : (w m : ℕ) → suc (w + m) ≡ suc w + m
towards_suc w m = omega arith

module _ {ℓ} {A : Type ℓ} where
  abbrev pub length : List A → ℕ
  length [] = 0
  length (x ∷ xs) = suc (length xs)

  abbrev pub take : ℕ → List A → List A
  take zero xs = []
  take (suc n) [] = []
  take (suc n) (x ∷ xs) = x ∷ take n xs

  abbrev pub drop : ℕ → List A → List A
  drop zero xs = xs
  drop (suc n) [] = []
  drop (suc n) (x ∷ xs) = drop n xs

  abbrev pub get_or : List A → ℕ → A → A
  get_or [] i d = d
  get_or (x ∷ xs) zero d = x
  get_or (x ∷ xs) (suc i) d = get_or xs i d

  pub length-append : (xs ys : List A) → length (xs ++ ys) ≡ length xs + length ys
  length-append [] ys = omega arith
  length-append (x ∷ xs) ys = omega (arith, length-append xs ys)

  pub take-drop : (n : ℕ) (xs : List A) → take n xs ++ drop n xs ≡ xs
  take-drop zero xs = refl
  take-drop (suc n) [] = refl
  take-drop (suc n) (x ∷ xs) = ap (λ (ys : List A). x ∷ ys) (take-drop n xs)

  pub length-drop : (n : ℕ) (xs : List A) → length (drop n xs) ≡ length xs - n
  length-drop zero xs = omega arith
  length-drop (suc n) [] = omega arith
  length-drop (suc n) (x ∷ xs) = omega (arith, length-drop n xs)

  take-nil : (n : ℕ) → ◌≡◌ {A = List A} (take n []) []
  take-nil zero = refl
  take-nil (suc n) = refl

  drop-nil : (n : ℕ) → ◌≡◌ {A = List A} (drop n []) []
  drop-nil zero = refl
  drop-nil (suc n) = refl

  -- A list cut in two parts and a rest.
  pub take-add : (w m : ℕ) (xs : List A) → take w xs ++ take m (drop w xs) ≡ take (w + m) xs
  take-add zero m xs = ap (λ (n : ℕ). take n xs) (omega arith)
  take-add (suc w) m [] = take-nil m ∙ sym (take-nil (suc w + m))
  take-add (suc w) m (x ∷ xs) =
      ap (λ (ys : List A). x ∷ ys) (take-add w m xs)
      ∙ ap (λ (n : ℕ). take n (x ∷ xs)) (towards_suc w m)

  pub drop-add : (w m : ℕ) (xs : List A) → drop m (drop w xs) ≡ drop (w + m) xs
  drop-add zero m xs = ap (λ (n : ℕ). drop n xs) (omega arith)
  drop-add (suc w) m [] = drop-nil m ∙ sym (drop-nil (suc w + m))
  drop-add (suc w) m (x ∷ xs) = drop-add w m xs ∙ ap (λ (n : ℕ). drop n (x ∷ xs)) (towards_suc w m)

  pub take-all : (xs : List A) → take (length xs) xs ≡ xs
  take-all [] = refl
  take-all (x ∷ xs) = ap (λ (ys : List A). x ∷ ys) (take-all xs)

-- `x` is not among `xs`, entry by entry.
abbrev pub Absent : ℕ → List ℕ → Type 0
Absent x [] = Unit {0}
Absent x (y ∷ ys) = (x ≢ y) × Absent x ys

-- No entry twice.
abbrev pub Distinct : List ℕ → Type 0
Distinct [] = Unit {0}
Distinct (x ∷ xs) = Absent x xs × Distinct xs

abbrev pub All {ℓ κ} : {A : Type ℓ} → (A → Type κ) → List A → Type κ
All P [] = Unit
All P (x ∷ xs) = P x × All P xs

abbrev pub sum : List ℕ → ℕ
sum [] = 0
sum (x ∷ xs) = x + sum xs

pub sum-append : (xs ys : List ℕ) → sum (xs ++ ys) ≡ sum xs + sum ys
sum-append [] ys = omega arith
sum-append (x ∷ xs) ys = omega (arith, sum-append xs ys)

pub Absent-append : (x : ℕ) (xs ys : List ℕ) → Absent x xs → Absent x ys → Absent x (xs ++ ys)
Absent-append x [] ys p q = q
Absent-append x (y ∷ xs) ys p q = (p.0, Absent-append x xs ys p.1 q)

pub All-map : {P Q : ℕ → Type 0} (xs : List ℕ) → ((x : ℕ) → P x → Q x) → All P xs → All Q xs
All-map [] f h = tt
All-map (x ∷ xs) f h = (f x h.0, All-map xs f h.1)

pub All-zip :
    {P Q R : ℕ → Type 0} (xs : List ℕ)
    → ((x : ℕ) → P x → Q x → R x)
    → All P xs
    → All Q xs
    → All R xs
All-zip [] f h k = tt
All-zip (x ∷ xs) f h k = (f x h.0 k.0, All-zip xs f h.1 k.1)

pub All-append_right : (P : ℕ → Type 0) (xs ys : List ℕ) → All P (xs ++ ys) → All P ys
All-append_right P [] ys h = h
All-append_right P (x ∷ xs) ys h = All-append_right P xs ys h.1

pub All-append_left : (P : ℕ → Type 0) (xs ys : List ℕ) → All P (xs ++ ys) → All P xs
All-append_left P [] ys h = tt
All-append_left P (x ∷ xs) ys h = (h.0, All-append_left P xs ys h.1)

pub All-append : (P : ℕ → Type 0) (xs ys : List ℕ) → All P xs → All P ys → All P (xs ++ ys)
All-append P [] ys h k = k
All-append P (x ∷ xs) ys h k = (h.0, All-append P xs ys h.1 k)

-- What has not the property that all of a list have is absent from it.
pub Absent-of : (P : ℕ → Type 0) (y : ℕ) (xs : List ℕ) → All P xs → ¬ P y → Absent y xs
Absent-of P y [] h n = tt
Absent-of P y (x ∷ xs) h n = ((λ e. n (rw e h.0)), Absent-of P y xs h.1 n)

pub Absent-All : (y : ℕ) (xs : List ℕ) → Absent y xs → All (λ x. x ≢ y) xs
Absent-All y [] a = tt
Absent-All y (x ∷ xs) a = ((λ e. a.0 (sym e)), Absent-All y xs a.1)

pub Absent-append_left : (y : ℕ) (xs ys : List ℕ) → Absent y (xs ++ ys) → Absent y xs
Absent-append_left y [] ys a = tt
Absent-append_left y (x ∷ xs) ys a = (a.0, Absent-append_left y xs ys a.1)

pub Absent-append_right : (y : ℕ) (xs ys : List ℕ) → Absent y (xs ++ ys) → Absent y ys
Absent-append_right y [] ys a = a
Absent-append_right y (x ∷ xs) ys a = Absent-append_right y xs ys a.1

-- `x` is among `xs`.
abbrev pub Present : ℕ → List ℕ → Type 0
Present x [] = ⊥
Present x (y ∷ ys) = (x ≡ y) ⊎ Present x ys

pub Present-left : (x : ℕ) (xs ys : List ℕ) → Present x xs → Present x (xs ++ ys)
Present-left x [] ys h = absurd h
Present-left x (z ∷ xs) ys (inl e) = inl e
Present-left x (z ∷ xs) ys (inr h) = inr (Present-left x xs ys h)

pub Present-right : (x : ℕ) (xs ys : List ℕ) → Present x ys → Present x (xs ++ ys)
Present-right x [] ys h = h
Present-right x (z ∷ xs) ys h = inr (Present-right x xs ys h)

pub Present-rest : (x : ℕ) (xs ys : List ℕ) → Absent x xs → Present x (xs ++ ys) → Present x ys
Present-rest x [] ys a h = h
Present-rest x (z ∷ xs) ys a (inl e) = absurd (a.0 e)
Present-rest x (z ∷ xs) ys a (inr h) = Present-rest x xs ys a.1 h

pub Present-last : (x y : ℕ) (xs : List ℕ) → Present x (xs ++ y ∷ []) → (x ≡ y) ⊎ Present x xs
Present-last x y [] (inl e) = inl e
Present-last x y [] (inr h) = absurd h
Present-last x y (z ∷ xs) (inl e) = inr (inl e)
Present-last x y (z ∷ xs) (inr h) = elim (Present-last x y xs h) [
  | inl e ↦ inl e
  | inr p ↦ inr (inr p)
]

-- Where it stands.
pub Present-parts :
    (x : ℕ) (zs : List ℕ) → Present x zs → (xs : List ℕ) × (ys : List ℕ) × (zs ≡ xs ++ x ∷ ys)
Present-parts x [] h = absurd h
Present-parts x (z ∷ zs) (inl e) = ([], zs, ap (λ (w : ℕ). w ∷ zs) (sym e))
Present-parts x (z ∷ zs) (inr h) =
    let (xs, ys, e) = Present-parts x zs h in (z ∷ xs, ys, ap (λ (ws : List ℕ). z ∷ ws) e)

-- An entry that is taken out of the middle is the only one that goes.
pub Present-without :
    (y x : ℕ) (xs ys : List ℕ) → y ≢ x → Present y (xs ++ x ∷ ys) → Present y (xs ++ ys)
Present-without y x [] ys n (inl e) = absurd (n e)
Present-without y x [] ys n (inr h) = h
Present-without y x (z ∷ xs) ys n (inl e) = inl e
Present-without y x (z ∷ xs) ys n (inr h) = inr (Present-without y x xs ys n h)

pub Present-insert : (y x : ℕ) (xs ys : List ℕ) → Present y (xs ++ ys) → Present y (xs ++ x ∷ ys)
Present-insert y x [] ys h = inr h
Present-insert y x (z ∷ xs) ys (inl e) = inl e
Present-insert y x (z ∷ xs) ys (inr h) = inr (Present-insert y x xs ys h)

pub All-Present : (P : ℕ → Type 0) (x : ℕ) (xs : List ℕ) → All P xs → Present x xs → P x
All-Present P x [] a h = absurd h
All-Present P x (y ∷ ys) a (inl e) = rw e a.0
All-Present P x (y ∷ ys) a (inr h) = All-Present P x ys a.1 h

pub All-of : (P : ℕ → Type 0) (xs : List ℕ) → ((x : ℕ) → Present x xs → P x) → All P xs
All-of P [] f = tt
All-of P (x ∷ xs) f = (f x (inl refl), All-of P xs (λ y h. f y (inr h)))
