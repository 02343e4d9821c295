-- ===== src/Exec.antt =====
-- Code that reads and writes a state and may return early: what was written before the return
-- stays written.
pub data Result {ℓ κ} (E : Type ℓ) (A : Type κ) : Type (ℓ ⊔ κ) where
  ok : A → Result E A
  err : E → Result E A

abbrev pub Exec : Type 0 → Type 0 → Type 0 → Type 0
Exec S E A = S → Result E A × S

module _ {S E : Type 0} where
  abbrev pub pure : {A : Type 0} → A → Exec S E A
  pure a s = (ok a, s)

  abbrev pub raise : {A : Type 0} → E → Exec S E A
  raise e s = (err e, s)

  abbrev pub gets : {A : Type 0} → (S → A) → Exec S E A
  gets f s = (ok (f s), s)

  abbrev pub modify : (S → S) → Exec S E (Unit {0})
  modify f s = (ok tt, f s)

  abbrev pub continue : {A B : Type 0} → Result E A → (A → Exec S E B) → Exec S E B
  continue (ok a) f s = f a s
  continue (err e) f s = (err e, s)

  infixl 5 ◌>>=◌ ◌>>◌
  abbrev pub ◌>>=◌ : {A B : Type 0} → Exec S E A → (A → Exec S E B) → Exec S E B
  ◌>>=◌ m f s = let (r, s') = m s in continue r f s'

  abbrev pub ◌>>◌ : {A B : Type 0} → Exec S E A → Exec S E B → Exec S E B
  m >> n = m >>= λ _. n

abbrev rename : {E F A : Type 0} → (E → F) → Result E A → Result F A
rename f (ok a) = ok a
rename f (err e) = err (f e)

module _ {S E F : Type 0} where
  -- `if err != nil { ...; return }`, with what is returned
  abbrev pub or_else : {A : Type 0} → (E → F) → Exec S E A → Exec S F A
  or_else f m s = let (r, s') = m s in (rename f r, s')

module _ {S E F : Type 0} where
  -- the result together with the error, for code that looks at the error itself
  abbrev pub try : {A : Type 0} → Exec S E A → Exec S F (Result E A)
  try m s = let (r, s') = m s in (ok r, s')

  -- `_, _ = f()`: the error is dropped
  abbrev pub ignore : {A : Type 0} → Exec S E A → Exec S F (Unit {0})
  ignore m s = (ok tt, (m s).1)
