-- ===== src/Consistency/Statements.antt =====
-- An invariant of the tables and a statement: one that always succeeds, and one with a condition.
use ooblivion.Shared.{
  ◌≡◌, subst, ap, arith, Bool, Bool-cases, inl, inr, true, false, Option, none, some, if◌then◌else◌,
}
use ooblivion.Db.{Tables}
use ooblivion.Db.Keeping.{Allows}

changed : {A : Type 0} → Tables → Option (A × Tables) → Tables
changed t none = t
changed t (some (a, t')) = t'

accepted :
    {A : Type 0} (b : Bool) (o : Option (A × Tables)) (t' : Tables) (a : A)
    → (if b then o else none) ≡ some (a, t')
    → (b ≡ true) × (o ≡ some (a, t'))
accepted b o t' a e = ground (arith, e)

module _ {A : Type 0} {P : Tables → Type 0} where
  -- A statement that always succeeds.
  pub total :
      (a : Tables → A) (f : Tables → Tables)
      → ((t : Tables) → P t → P (f t))
      → Allows P (λ t. some (a t, f t))
  unfolding changed
  total a f k = record { then_holds = λ t t' b e h. subst P (ap (changed t) e) (k t h) }

  -- A statement with a condition.
  pub guarded :
      (test : Tables → Bool) (a : Tables → A) (f : Tables → Tables)
      → ((t : Tables) → test t ≡ true → P t → P (f t))
      → Allows P (λ t. if test t then some (a t, f t) else none)
  unfolding changed
  guarded test a f k = record {
    then_holds = λ t t' b e h.
        let (good, same) = accepted (test t) (some (a t, f t)) t' b e in
        subst P (ap (changed t) same) (k t good h);
  }

  -- A statement that a condition forbids.
  pub unguarded :
      (test : Tables → Bool) (a : Tables → A) (f : Tables → Tables)
      → ((t : Tables) → test t ≡ false → P t → P (f t))
      → Allows P (λ t. if test t then none else some (a t, f t))
  unfolding changed
  unguarded test a f k = record {
    then_holds = λ t t' b e h. elim (Bool-cases (test t)) [
      | inl bad ↦ absurd (refused (test t) (some (a t, f t)) t' b bad e)
      | inr good ↦
          subst P (ap (changed t) (passed (test t) (some (a t, f t)) t' b good e)) (k t good h)
    ];
  }
    where
      refused :
          (b : Bool) (o : Option (A × Tables)) (t' : Tables) (a : A)
          → b ≡ true
          → (if b then none else o) ≡ some (a, t')
          → ⊥
      refused b o t' a h e = ground (arith, h, e)

      passed :
          (b : Bool) (o : Option (A × Tables)) (t' : Tables) (a : A)
          → b ≡ false
          → (if b then none else o) ≡ some (a, t')
          → o ≡ some (a, t')
      passed b o t' a h e = ground (arith, h, e)

-- Both values of a condition.
pub either : {A : Type 0} (Q : A → Type 0) (b : Bool) (x y : A) → Q x → Q y → Q (if b then x else y)
either Q true x y p q = p
either Q false x y p q = q
