-- ===== src/Shared/Order.antt =====
-- What ORDER BY does: the same rows, each in front of all that follow it.
use mathlib.Core.Path.{◌≡◌, refl, subst, sym}
use Prim.Native.Nat.{suc}
use mathlib.Core.Logic.{inl, inr}
use mathlib.Core.Bool.{Bool, true, false}
use mathlib.Core.List.{List, [], ◌∷◌}
use native.Mathlib.Omega.{arith}
use ooblivion.Shared.Tests.{Bool-cases}
use ooblivion.Shared.Lists.{All, Member, insert, length, order_by}

module _ {ℓ} {A : Type ℓ} (before : A → A → Bool) where
  abbrev pub IsSorted : List A → Type ℓ
  IsSorted [] = Unit
  IsSorted (x ∷ xs) = All (λ y. before x y ≡ true) xs × IsSorted xs

module _ {ℓ κ} {A : Type ℓ} (before : A → A → Bool) (P : A → Type κ) where
  pub All-insert : (x : A) (xs : List A) → P x → All P xs → All P (insert before x xs)
  unfolding insert
  All-insert x [] p h = (p, tt)
  All-insert x (y ∷ ys) p (q, h) = elim (Bool-cases (before x y)) [
    | inl fits ↦ rw fits (p, (q, h))
    | inr later ↦ rw later (q, All-insert x ys p h)
  ]

module _ {ℓ} {A : Type ℓ} (before : A → A → Bool)
    (total : (a b : A) → before a b ≡ false → before b a ≡ true)
    (trans : (a b c : A) → before a b ≡ true → before b c ≡ true → before a c ≡ true) where
  All-before :
      (x y : A) (ys : List A)
      → before x y ≡ true
      → All (λ z. before y z ≡ true) ys
      → All (λ z. before x z ≡ true) ys
  All-before x y [] h k = tt
  All-before x y (z ∷ ys) h (k, ks) = (trans x y z h k, All-before x y ys h ks)

  insert-IsSorted :
      (x : A) (xs : List A) → IsSorted before xs → IsSorted before (insert before x xs)
  unfolding insert
  insert-IsSorted x [] h = (tt, tt)
  insert-IsSorted x (y ∷ ys) (k, h) = elim (Bool-cases (before x y)) [
    | inl fits ↦ rw fits ((fits, All-before x y ys fits k), (k, h))
    | inr later ↦ rw later (
      All-insert before (λ z. before y z ≡ true) x ys (total x y later) k,
      insert-IsSorted x ys h,
    )
  ]

  pub order_by-IsSorted : (xs : List A) → IsSorted before (order_by before xs)
  unfolding order_by
  order_by-IsSorted [] = tt
  order_by-IsSorted (x ∷ xs) = insert-IsSorted x (order_by before xs) (order_by-IsSorted xs)

module _ {A : Type 0} (before : A → A → Bool) (a : A) where
  pub Member-insert : (x : A) (xs : List A) → Member a (x ∷ xs) → Member a (insert before x xs)
  unfolding insert
  Member-insert x [] m = m
  Member-insert x (y ∷ ys) m = ground (arith, Member-insert x ys)

  pub insert-Member : (x : A) (xs : List A) → Member a (insert before x xs) → Member a (x ∷ xs)
  unfolding insert
  insert-Member x [] m = m
  insert-Member x (y ∷ ys) m = ground (arith, insert-Member x ys)

  pub Member-order_by : (xs : List A) → Member a xs → Member a (order_by before xs)
  unfolding order_by
  Member-order_by [] m = elim m [ ]
  Member-order_by (x ∷ xs) m =
      Member-insert x (order_by before xs) (ground (arith, Member-order_by xs))

  pub order_by-Member : (xs : List A) → Member a (order_by before xs) → Member a xs
  unfolding order_by
  order_by-Member [] m = elim m [ ]
  order_by-Member (x ∷ xs) m =
      ground (arith, insert-Member x (order_by before xs) m, order_by-Member xs)

pub All-Member {ℓ} :
    {A : Type 0} (P : A → Type ℓ) (a : A) (xs : List A) → All P xs → Member a xs → P a
All-Member P a [] h m = elim m [ ]
All-Member P a (x ∷ xs) (p, h) (inl e) = subst P (sym e) p
All-Member P a (x ∷ xs) (p, h) (inr m) = All-Member P a xs h m

module _ {A : Type 0} (before : A → A → Bool) where
  length-insert : (x : A) (xs : List A) → length (insert before x xs) ≡ suc (length xs)
  unfolding insert
  length-insert x [] = refl
  length-insert x (y ∷ ys) = ground (arith, length-insert x ys)

  pub length-order_by : (xs : List A) → length (order_by before xs) ≡ length xs
  unfolding order_by
  length-order_by [] = refl
  length-order_by (x ∷ xs) =
      ground (arith, length-insert x (order_by before xs), length-order_by xs)
