-- ===== src/Shared/Numbered.antt =====
-- Tables whose rows have an identifier that AUTOINCREMENT gave: strictly ascending in the order of
-- insertion, from 1, and at most the last one given. So no two rows share an identifier.
use Prim.Native.Nat.{ℕ, suc, ◌≤◌, ◌<◌}
use mathlib.Core.Path.{◌≡◌}
use mathlib.Core.Bool.{Bool}
use mathlib.Core.List.{List, [], ◌∷◌, ◌++◌, map}
use native.Mathlib.Omega.{arith}
use ooblivion.Shared.Lists.{All, filter}

module _ {A : Type 0} (id : A → ℕ) where
  -- The identifiers ascend from above `low`, up to `last`.
  abbrev pub IsNumbered : ℕ → ℕ → List A → Type 0
  IsNumbered last low [] = low ≤ last
  IsNumbered last low (a ∷ rows) = (low < id a) × IsNumbered last (id a) rows

  pub IsNumbered-le :
      (last low low' : ℕ) (rows : List A)
      → low' ≤ low
      → IsNumbered last low rows
      → IsNumbered last low' rows
  IsNumbered-le last low low' [] h n = omega arith
  IsNumbered-le last low low' (a ∷ rows) h n = (omega (arith, n.0), n.1)

  -- INSERT gives the next identifier.
  pub IsNumbered-append :
      (last low : ℕ) (rows : List A) (a : A)
      → id a ≡ suc last
      → IsNumbered last low rows
      → IsNumbered (suc last) low (rows ++ a ∷ [])
  IsNumbered-append last low [] a e n = (omega (arith, n), omega arith)
  IsNumbered-append last low (b ∷ rows) a e n = (n.0, IsNumbered-append last (id b) rows a e n.1)

  -- DELETE keeps the order.
  pub IsNumbered-filter :
      (p : A → Bool) (last low : ℕ) (rows : List A)
      → IsNumbered last low rows
      → IsNumbered last low (filter p rows)
  unfolding filter
  IsNumbered-filter p last low [] n = n
  IsNumbered-filter p last low (a ∷ rows) n = ground (
    arith,
    IsNumbered-filter p last (id a) rows n.1,
    IsNumbered-le last (id a) low (filter p rows),
  )

  -- UPDATE leaves the identifiers.
  pub IsNumbered-map :
      (f : A → A) (last low : ℕ) (rows : List A)
      → ((a : A) → id (f a) ≡ id a)
      → IsNumbered last low rows
      → IsNumbered last low (map f rows)
  IsNumbered-map f last low [] same n = n
  IsNumbered-map f last low (a ∷ rows) same n =
      (rw (same a) n.0, rw (same a) (IsNumbered-map f last (id a) rows same n.1))

module _ {A : Type 0} where
  pub All-append :
      (P : A → Type 0) (rows : List A) (a : A) → All P rows → P a → All P (rows ++ a ∷ [])
  All-append P [] a h p = (p, tt)
  All-append P (b ∷ rows) a h p = (h.0, All-append P rows a h.1 p)

  pub All-filter :
      (P : A → Type 0) (q : A → Bool) (rows : List A) → All P rows → All P (filter q rows)
  unfolding filter
  All-filter P q [] h = tt
  All-filter P q (a ∷ rows) h = ground (arith, All-filter P q rows h.1)

  pub All-map :
      (P Q : A → Type 0) (f : A → A) (rows : List A)
      → ((a : A) → P a → Q (f a))
      → All P rows
      → All Q (map f rows)
  All-map P Q f [] k h = tt
  All-map P Q f (a ∷ rows) k h = (k a h.0, All-map P Q f rows k h.1)

  pub All-imp : (P Q : A → Type 0) (rows : List A) → ((a : A) → P a → Q a) → All P rows → All Q rows
  All-imp P Q [] k h = tt
  All-imp P Q (a ∷ rows) k h = (k a h.0, All-imp P Q rows k h.1)
