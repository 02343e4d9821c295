-- ===== src/Db/Keys.antt =====
-- Foreign keys of internal/db/migrations/001_init.sql: a key that may be NULL, and the rows that
-- it may refer to.
use ooblivion.Shared.{
  ℕ, ◌≡◌, arith, Bool, true, false, not, ◌||◌, Option, none, some, List, [], ◌∷◌, ◌++◌, ◌==◌, any,
  filter, map, All,
}
use ooblivion.Db.{refers_to}

module _ {A : Type 0} (id : A → ℕ) where
  -- A row has the identifier, unless the key is NULL.
  abbrev pub RefersTo : List A → Option ℕ → Type 0
  RefersTo rows none = Unit
  RefersTo rows (some key) = any (λ a. id a == key) rows ≡ true

  any-append :
      (key : ℕ) (rows : List A) (a : A)
      → any (λ a. id a == key) rows ≡ true
      → any (λ a. id a == key) (rows ++ a ∷ []) ≡ true
  unfolding any
  any-append key [] a h = ground (arith, h)
  any-append key (b ∷ rows) a h = ground (arith, h, any-append key rows a)

  pub RefersTo-append :
      (key : Option ℕ) (rows : List A) (a : A) → RefersTo rows key → RefersTo (rows ++ a ∷ []) key
  RefersTo-append none rows a h = tt
  RefersTo-append (some key) rows a h = any-append key rows a h

  any-map :
      (f : A → A) (key : ℕ) (rows : List A)
      → ((a : A) → id (f a) ≡ id a)
      → any (λ a. id a == key) (map f rows) ≡ any (λ a. id a == key) rows
  unfolding any
  any-map f key [] same = ground arith
  any-map f key (a ∷ rows) same = rw (same a, any-map f key rows same) (ground arith)

  pub RefersTo-map :
      (f : A → A) (key : Option ℕ) (rows : List A)
      → ((a : A) → id (f a) ≡ id a)
      → RefersTo rows key
      → RefersTo (map f rows) key
  RefersTo-map f none rows same h = tt
  RefersTo-map f (some key) rows same h = rw (any-map f key rows same) h

  any-filter :
      (selected : A → Bool) (key : ℕ) (rows : List A)
      → any (λ a. key == id a) (filter selected rows) ≡ false
      → any (λ a. id a == key) rows ≡ true
      → any (λ a. id a == key) (filter (λ a. not (selected a)) rows) ≡ true
  unfolding any filter
  any-filter selected key [] h k = ground (arith, h, k)
  any-filter selected key (a ∷ rows) h k = ground (arith, h, k, any-filter selected key rows)

  RefersTo-filter :
      (selected : A → Bool) (key : Option ℕ) (rows : List A)
      → any (λ a. refers_to key (id a)) (filter selected rows) ≡ false
      → RefersTo rows key
      → RefersTo (filter (λ a. not (selected a)) rows) key
  RefersTo-filter selected none rows h k = tt
  RefersTo-filter selected (some key) rows h k = any-filter selected key rows h k

any-or :
    {A : Type 0} (p q : A → Bool) (rows : List A)
    → any (λ a. p a || q a) rows ≡ false
    → (any p rows ≡ false) × (any q rows ≡ false)
unfolding any
any-or p q [] h = ground (arith, h)
any-or p q (a ∷ rows) h = ground (arith, h, any-or p q rows)

module _ {A B : Type 0} (id : A → ℕ) (key : B → Option ℕ) where
  -- DELETE: it is refused where a row that goes is referred to, so every key still refers to a row.
  pub RefersTo-delete :
      (selected : A → Bool) (rows : List A) (users : List B)
      → any (λ a. any (λ b. refers_to (key b) (id a)) users) (filter selected rows) ≡ false
      → All (λ b. RefersTo id rows (key b)) users
      → All (λ b. RefersTo id (filter (λ a. not (selected a)) rows) (key b)) users
  unfolding any
  RefersTo-delete selected rows [] h k = tt
  RefersTo-delete selected rows (b ∷ users) h k =
      let both =
        any-or (λ a. refers_to (key b) (id a)) (λ a. any (λ u. refers_to (key u) (id a)) users)
          (filter selected rows) h in
      (
        RefersTo-filter id selected (key b) rows both.0 k.0,
        RefersTo-delete selected rows users both.1 k.1,
      )
