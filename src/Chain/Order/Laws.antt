-- ===== src/Chain/Order/Laws.antt =====
-- The sort by `byChainOrder` (src/chain/indexer.service.ts).
use mathlib.Core.List.{Perm}
use mathlib.Core.List.Perm
use numera_backend.Prelude.{
  ◌<◌, ◌≤◌, ◌≡◌, ◌⊎◌, inl, inr, true, false, List, [], ◌∷◌, arith, All, Bool-cases,
}
use numera_backend.Chain.Order.{Place, in_order, insert, sort}

-- The first place is in an earlier block, or in the same block and no later in it.
abbrev pub Before : Place → Place → Type 0
Before (b, i) (c, j) = (b < c) ⊎ ((b ≡ c) × (i ≤ j))

in_order-Before : (p q : Place) → in_order p q ≡ true → Before p q
unfolding in_order
in_order-Before (b, i) (c, j) h = ground arith

not_in_order-Before : (p q : Place) → in_order p q ≡ false → Before q p
unfolding in_order
not_in_order-Before (b, i) (c, j) h = ground arith

Before-trans : (p q r : Place) → Before p q → Before q r → Before p r
Before-trans (a, i) (b, j) (c, k) h g = ground arith

module _ {ℓ} {A : Type ℓ} (place : A → Place) where
  abbrev pub Ascending : List A → Type 0
  Ascending [] = Unit
  Ascending (x ∷ xs) = All (λ y. Before (place x) (place y)) xs × Ascending xs

  All-Before :
      (x y : A) (ys : List A)
      → Before (place x) (place y)
      → All (λ z. Before (place y) (place z)) ys
      → All (λ z. Before (place x) (place z)) ys
  All-Before x y [] h a = tt
  All-Before x y (z ∷ ys) h a =
      (Before-trans (place x) (place y) (place z) h a.0, All-Before x y ys h a.1)

  All-insert :
      (p : Place) (x : A) (ys : List A)
      → Before p (place x)
      → All (λ z. Before p (place z)) ys
      → All (λ z. Before p (place z)) (insert place x ys)
  unfolding insert
  All-insert p x [] h a = (h, tt)
  All-insert p x (y ∷ ys) h a = elim (Bool-cases (in_order (place x) (place y))) [
    | inl e ↦ rw e (h, a)
    | inr e ↦ rw e (a.0, All-insert p x ys h a.1)
  ]

  insert-Ascending : (x : A) (ys : List A) → Ascending ys → Ascending (insert place x ys)
  unfolding insert
  insert-Ascending x [] a = (tt, tt)
  insert-Ascending x (y ∷ ys) a = elim (Bool-cases (in_order (place x) (place y))) [
    | inl e ↦
        let first = in_order-Before (place x) (place y) e in
        rw e ((first, All-Before x y ys first a.0), a)
    | inr e ↦
        let first = not_in_order-Before (place x) (place y) e in
        rw e (All-insert (place y) x ys first a.0, insert-Ascending x ys a.1)
  ]

  insert-perm : (x : A) (ys : List A) → Perm (insert place x ys) (x ∷ ys)
  unfolding insert
  insert-perm x [] = Perm.refl _
  insert-perm x (y ∷ ys) = elim (Bool-cases (in_order (place x) (place y))) [
    | inl e ↦ rw e (Perm.refl _)
    | inr e ↦ rw e (Perm.trans (Perm.cons y (insert-perm x ys)) (Perm.swap x y ys))
  ]

  pub sort-Ascending : (xs : List A) → Ascending (sort place xs)
  unfolding sort
  sort-Ascending [] = tt
  sort-Ascending (x ∷ xs) = insert-Ascending x (sort place xs) (sort-Ascending xs)

  pub sort-perm : (xs : List A) → Perm (sort place xs) xs
  unfolding sort
  sort-perm [] = Perm.refl _
  sort-perm (x ∷ xs) = Perm.trans (insert-perm x (sort place xs)) (Perm.cons x (sort-perm xs))

  -- Sorting a batch gives the same logs, each as often, with blocks ascending and the log indices
  -- ascending within a block.
  pub sort_lem : (xs : List A) → Perm (sort place xs) xs × Ascending (sort place xs)
  sort_lem xs = (sort-perm xs, sort-Ascending xs)
