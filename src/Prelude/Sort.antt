-- ===== src/Prelude/Sort.antt =====
-- `slice::sort_by`, a stable sort, as insertion sort by a Boolean order; and sums over a list, by
-- which two lists with the same elements are compared.
use Prim.Native.Nat.{ℕ, zero, suc, ◌+◌}
use mathlib.Core.Path.{◌≡◌, refl}
use mathlib.Core.Logic.{inl, inr}
use mathlib.Core.Bool.{Bool, true, false}
use mathlib.Core.List.{List, [], ◌∷◌, ◌++◌}
use native.Mathlib.Omega.{arith}
use mpris_chroma.Prelude.Tests.{if◌then◌else◌, if_cases, Bool-cases}
use mpris_chroma.Prelude.Lists.{length, All, All-mono, take, drop}

module _ {ℓ} {A : Type ℓ} where
  -- `iter().map(f).sum()`.
  abbrev pub total : (A → ℕ) → List A → ℕ
  total f [] = 0
  total f (x ∷ xs) = f x + total f xs

  pub total-append : (f : A → ℕ) (xs ys : List A) → total f (xs ++ ys) ≡ total f xs + total f ys
  total-append f [] ys = omega arith
  total-append f (x ∷ xs) ys = omega (arith, total-append f xs ys)

  pub total-take-drop :
      (f : A → ℕ) (n : ℕ) (xs : List A) → total f (take n xs) + total f (drop n xs) ≡ total f xs
  total-take-drop f zero xs = omega arith
  total-take-drop f (suc n) [] = omega arith
  total-take-drop f (suc n) (x ∷ xs) = omega (arith, total-take-drop f n xs)

  pub length-total : (xs : List A) → length xs ≡ total (λ _. 1) xs
  length-total [] = refl
  length-total (x ∷ xs) = omega (arith, length-total xs)

  -- Two lists hold the same elements, each as often: every weight sums to the same over both.
  abbrev pub SameItems : List A → List A → Type ℓ
  SameItems xs ys = (f : A → ℕ) → total f xs ≡ total f ys

  module _ (le : A → A → Bool) where
    insert_by : A → List A → List A
    insert_by x [] = x ∷ []
    insert_by x (y ∷ ys) = let rest = y ∷ insert_by x ys in if le x y then x ∷ y ∷ ys else rest

    unfoldable pub sort_by : List A → List A
    unfolding insert_by
    sort_by [] = []
    sort_by (x ∷ xs) = insert_by x (sort_by xs)

    abbrev pub IsSorted : List A → Type 0
    IsSorted [] = Unit {0}
    IsSorted (x ∷ xs) = All (λ y. le x y ≡ true) xs × IsSorted xs

    total-insert_by :
        (f : A → ℕ) (x : A) (xs : List A) → total f (insert_by x xs) ≡ f x + total f xs
    unfolding insert_by
    total-insert_by f x [] = refl
    total-insert_by f x (y ∷ ys) =
        if_cases (λ l. total f l ≡ f x + (f y + total f ys)) (le x y) _ _ (λ _. refl)
          (λ _. omega (arith, total-insert_by f x ys))

    pub sort_by-SameItems : (xs : List A) → SameItems (sort_by xs) xs
    unfolding sort_by
    sort_by-SameItems [] f = refl
    sort_by-SameItems (x ∷ xs) f =
        omega (arith, total-insert_by f x (sort_by xs), sort_by-SameItems xs f)

    All-insert_by : (P : A → Type 0) (x : A) (xs : List A) → P x → All P xs → All P (insert_by x xs)
    unfolding insert_by
    All-insert_by P x [] p a = (p, tt)
    All-insert_by P x (y ∷ ys) p a =
        if_cases (All P) (le x y) _ _ (λ _. (p, a)) (λ _. (a.0, All-insert_by P x ys p a.1))

    pub All-sort_by : (P : A → Type 0) (xs : List A) → All P xs → All P (sort_by xs)
    unfolding sort_by
    All-sort_by P [] a = tt
    All-sort_by P (x ∷ xs) a = All-insert_by P x (sort_by xs) a.0 (All-sort_by P xs a.1)

    insert_by-All : (P : A → Type 0) (x : A) (xs : List A) → All P (insert_by x xs) → P x × All P xs
    unfolding insert_by
    insert_by-All P x [] a = a
    insert_by-All P x (y ∷ ys) a = elim (Bool-cases (le x y)) [
      | inl t ↦ rw t at a
      | inr f ↦
          let a' : All P (y ∷ insert_by x ys) = rw f at a in
          let r = insert_by-All P x ys a'.1 in (r.0, (a'.0, r.1))
    ]

    pub sort_by-All : (P : A → Type 0) (xs : List A) → All P (sort_by xs) → All P xs
    unfolding sort_by
    sort_by-All P [] a = tt
    sort_by-All P (x ∷ xs) a =
        let r = insert_by-All P x (sort_by xs) a in (r.0, sort_by-All P xs r.1)

    pub length-sort_by : (xs : List A) → length (sort_by xs) ≡ length xs
    length-sort_by xs =
        let counted = sort_by-SameItems xs (λ _. 1) in
        omega (arith, counted, length-total (sort_by xs), length-total xs)

    module _ (le_trans : (a b c : A) → le a b ≡ true → le b c ≡ true → le a c ≡ true)
        (le_total : (a b : A) → le a b ≡ false → le b a ≡ true) where
      insert_by-IsSorted : (x : A) (xs : List A) → IsSorted xs → IsSorted (insert_by x xs)
      unfolding insert_by
      insert_by-IsSorted x [] s = (tt, tt)
      insert_by-IsSorted x (y ∷ ys) s =
          if_cases IsSorted (le x y) _ _
            (λ t. ((t, All-mono _ _ ys (λ z. le_trans x y z t) s.0), s))
            (λ f. (All-insert_by _ x ys (le_total x y f) s.0, insert_by-IsSorted x ys s.1))

      pub sort_by-IsSorted : (xs : List A) → IsSorted (sort_by xs)
      unfolding sort_by
      sort_by-IsSorted [] = tt
      sort_by-IsSorted (x ∷ xs) = insert_by-IsSorted x (sort_by xs) (sort_by-IsSorted xs)
