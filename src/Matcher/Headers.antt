-- ===== src/Matcher/Headers.antt =====
-- The headers of internal/matcher/matcher.go are a Go map, which a loop reads in any order: the
-- result does not depend on it.
use ooblivion.Shared.{
  ◌≡◌, refl, sym, ap, ◌∙◌, arith, ◌↔◌, inl, inr, Str, Bool, Bool-cases, true, false, Option, none,
  some, List, [], ◌∷◌, Member,
}
use ooblivion.Matcher.{Rule, Subject, TextLib, header_value, field, value_matches, matches}

-- The two lists have the same entries.
abbrev pub SameEntries : List (Str × Str) → List (Str × Str) → Type 0
SameEntries xs ys = (e : Str × Str) → Member e xs ↔ Member e ys

differ : {b : Bool} → b ≡ false → b ≡ true → ⊥
differ h k = ground (arith, h, k)

module _ (lib : TextLib) (name : Str) where
  -- All headers that fold to the name have one value.
  abbrev pub IsUnambiguous : List (Str × Str) → Type 0
  IsUnambiguous xs =
      (d e : Str × Str)
      → Member d xs
      → Member e xs
      → lib.equal_fold d.0 name ≡ true
      → lib.equal_fold e.0 name ≡ true
      → d.1 ≡ e.1

  abbrev Holds : List (Str × Str) → Option Str → Type 0
  Holds xs none = (e : Str × Str) → Member e xs → lib.equal_fold e.0 name ≡ false
  Holds xs (some value) =
      (e : Str × Str) × Member e xs × (lib.equal_fold e.0 name ≡ true) × (e.1 ≡ value)

  Holds-cons :
      (d : Str × Str) (xs : List (Str × Str)) (o : Option Str)
      → lib.equal_fold d.0 name ≡ false
      → Holds xs o
      → Holds (d ∷ xs) o
  Holds-cons d xs none miss h = λ e m. elim m [ inl same ↦ rw same miss | inr later ↦ h e later ]
  Holds-cons d xs (some value) miss (e, m, hit, same) = (e, inr m, hit, same)

  header_value-Holds : (xs : List (Str × Str)) → Holds xs (header_value lib xs name)
  unfolding header_value
  header_value-Holds [] = λ e m. absurd m
  header_value-Holds (d ∷ xs) = elim (Bool-cases (lib.equal_fold d.0 name)) [
    | inl hit ↦ rw hit (d, inl refl, hit, refl)
    | inr miss ↦ rw miss (Holds-cons d xs _ miss (header_value-Holds xs))
  ]

  Holds-same :
      (xs ys : List (Str × Str)) (a b : Option Str)
      → SameEntries xs ys
      → IsUnambiguous xs
      → Holds xs a
      → Holds ys b
      → a ≡ b
  Holds-same xs ys none none same one h k = refl
  Holds-same xs ys none (some v) same one h (e, m, hit, eq) =
      absurd (differ (h e ((same e).1 m)) hit)
  Holds-same xs ys (some v) none same one (e, m, hit, eq) k =
      absurd (differ (k e ((same e).0 m)) hit)
  Holds-same xs ys (some v) (some u) same one (d, m, hit, eq) (e, n, hit', eq') =
      ap some (sym eq ∙ (one d e m ((same e).1 n) hit hit' ∙ eq'))

  header_value-same :
      (xs ys : List (Str × Str))
      → SameEntries xs ys
      → IsUnambiguous xs
      → header_value lib xs name ≡ header_value lib ys name
  header_value-same xs ys same one =
      Holds-same xs ys _ _ same one (header_value-Holds xs) (header_value-Holds ys)

module _ (lib : TextLib) (s : Subject) (r : Rule) where
  field-same :
      (xs ys : List (Str × Str))
      → header_value lib xs r.header_name ≡ header_value lib ys r.header_name
      → field lib (record s { headers = xs }) r.match_on r.header_name
        ≡ field lib (record s { headers = ys }) r.match_on r.header_name
  unfolding field
  field-same xs ys same = ground (arith, same)

  -- Whether a rule matches does not depend on the order in which the loop reads the headers, if
  -- all headers that fold to the name of the rule's header have one value.
  pub matches-SameEntries :
      (xs ys : List (Str × Str))
      → SameEntries xs ys
      → IsUnambiguous lib r.header_name xs
      → matches lib (record s { headers = xs }) r ≡ matches lib (record s { headers = ys }) r
  unfolding matches
  matches-SameEntries xs ys same one =
      ap
        (λ (o : Option Str). elim o as (λ p. Bool) [
          | none ↦ false
          | some value ↦ value_matches lib r value
        ])
        (field-same xs ys (header_value-same lib r.header_name xs ys same one))
