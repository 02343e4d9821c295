-- ===== src/Shared/Select.antt =====
-- What WHERE and the searches over a list do.
use Prim.Native.Nat.{◌+◌}
use mathlib.Core.Path.{◌≡◌, refl, ap}
use mathlib.Core.Logic.{inl, inr}
use mathlib.Core.Bool.{Bool, true, false, not}
use mathlib.Core.List.{List, [], ◌∷◌, ◌++◌, map}
use native.Mathlib.Omega.{arith}
use ooblivion.Shared.Lists.{Member, filter, any, length}

module _ {A : Type 0} (p : A → Bool) where
  pub Member-filter : (a : A) (xs : List A) → Member a xs → p a ≡ true → Member a (filter p xs)
  unfolding filter
  Member-filter a [] m h = elim m [ ]
  Member-filter a (x ∷ xs) m h = ground (arith, Member-filter a xs, ap p)

  pub filter-Member : (a : A) (xs : List A) → Member a (filter p xs) → Member a xs × (p a ≡ true)
  unfolding filter
  filter-Member a [] m = elim m [ ]
  filter-Member a (x ∷ xs) m = ground (arith, filter-Member a xs)

  pub any_of_Member : (a : A) (xs : List A) → Member a xs → p a ≡ true → any p xs ≡ true
  unfolding any
  any_of_Member a [] m h = elim m [ ]
  any_of_Member a (x ∷ xs) m h = ground (arith, any_of_Member a xs)

  pub any-eq-false : (xs : List A) → ((a : A) → Member a xs → p a ≡ false) → any p xs ≡ false
  unfolding any
  any-eq-false [] h = refl
  any-eq-false (x ∷ xs) h = ground (arith, h x, any-eq-false xs (λ a m. h a (inr m)))

  pub any-append : (xs : List A) (a : A) → p a ≡ true → any p (xs ++ a ∷ []) ≡ true
  unfolding any
  any-append [] a h = ground (arith, h)
  any-append (x ∷ xs) a h = ground (arith, any-append xs a h)

  -- What one condition deletes and what it leaves make up the table.
  pub length-filter-filter :
      (xs : List A) → length (filter p xs) + length (filter (λ a. not (p a)) xs) ≡ length xs
  unfolding filter
  length-filter-filter [] = refl
  length-filter-filter (x ∷ xs) = ground (arith, length-filter-filter xs)

  pub filter-append : (xs ys : List A) → filter p (xs ++ ys) ≡ filter p xs ++ filter p ys
  unfolding filter
  filter-append [] ys = refl
  filter-append (x ∷ xs) ys = ground (arith, filter-append xs ys)

-- Deleting rows that a view does not show leaves the view as it is.
pub filter-filter :
    {A : Type 0} (p q : A → Bool) (xs : List A)
    → ((a : A) → p a ≡ true → q a ≡ true)
    → filter p (filter q xs) ≡ filter p xs
unfolding filter
filter-filter p q [] h = refl
filter-filter p q (x ∷ xs) h = ground (arith, h x, filter-filter p q xs h)

pub Member-map :
    {A B : Type 0} (f : A → B) (a : A) (xs : List A) → Member a xs → Member (f a) (map f xs)
Member-map f a [] m = elim m [ ]
Member-map f a (x ∷ xs) (inl e) = inl (ap f e)
Member-map f a (x ∷ xs) (inr m) = inr (Member-map f a xs m)
