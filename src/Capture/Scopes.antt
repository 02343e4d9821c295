-- ===== src/Capture/Scopes.antt =====
-- The scope that applyScope of internal/capture/classify.go chooses, against a description of it
-- that mentions no order of rows.
use ooblivion.Shared.{
  ℕ, ltb_ℤ, leb, Bool, true, false, Option, none, some, List, [], ◌∷◌, ◌≡◌, ◌⊎◌, inl, inr, refl, ap,
  arith, Member, Bool-cases,
}
use ooblivion.Shared.Order.{
  All-Member, IsSorted, order_by-IsSorted, Member-order_by, order_by-Member,
}
use ooblivion.Shared.Select.{Member-filter, filter-Member}
use ooblivion.Matcher.{Subject, TextLib, matches}
use ooblivion.Models.{Scope}
use ooblivion.Db.{Tables}
use ooblivion.Capture.Classify.{scope_rule, scope_before, enabled_scopes, first_match}

abbrev pub hits : TextLib → Subject → Scope → Bool
hits lib subj s = matches lib subj (scope_rule s)

-- `s` is an enabled scope that matches, and no other such scope has a higher priority, or the same
-- priority and a smaller identifier.
pub record IsBest (lib : TextLib) (subj : Subject) (scopes : List Scope) (s : Scope) : Type 0 where
  pub listed : Member s scopes
  pub enabled : s.enabled ≡ true
  pub hit : hits lib subj s ≡ true
  pub first :
      (u : Scope)
      → Member u scopes
      → u.enabled ≡ true
      → hits lib subj u ≡ true
      → (ltb_ℤ u.priority s.priority ≡ true) ⊎ ((u.priority ≡ s.priority) × (leb s.id u.id ≡ true))

scope_before_total : (a b : Scope) → scope_before a b ≡ false → scope_before b a ≡ true
unfolding scope_before
scope_before_total a b h = ground arith

scope_before_trans :
    (a b c : Scope) → scope_before a b ≡ true → scope_before b c ≡ true → scope_before a c ≡ true
unfolding scope_before
scope_before_trans a b c h k = ground arith

scope_before_lem :
    (a b : Scope)
    → scope_before a b ≡ true
    → (ltb_ℤ b.priority a.priority ≡ true) ⊎ ((b.priority ≡ a.priority) × (leb a.id b.id ≡ true))
unfolding scope_before
scope_before_lem a b h = ground arith

scope_before_refl : (a : Scope) → scope_before a a ≡ true
unfolding scope_before
scope_before_refl a = ground arith

module _ (lib : TextLib) (subj : Subject) where
  abbrev FirstOf : List Scope → Option ℕ → Type 0
  FirstOf scopes none = (u : Scope) → Member u scopes → hits lib subj u ≡ false
  FirstOf scopes (some id) =
      (s : Scope) × (s.id ≡ id)
      × Member s scopes
      × (hits lib subj s ≡ true)
      × ((u : Scope) → Member u scopes → hits lib subj u ≡ true → scope_before s u ≡ true)

  FirstOf-cons :
      (s : Scope) (scopes : List Scope) (o : Option ℕ)
      → hits lib subj s ≡ false
      → FirstOf scopes o
      → FirstOf (s ∷ scopes) o
  FirstOf-cons s scopes none miss f = λ u m. elim m [ inl e ↦ rw e miss | inr n ↦ f u n ]
  FirstOf-cons s scopes (some id) miss (b, e, m, hit, least) = (
    b,
    e,
    inr m,
    hit,
    λ u n h. elim n [ inl same ↦ absurd (differ u same h) | inr later ↦ least u later h ],
  )
    where
      differ : (u : Scope) → u ≡ s → hits lib subj u ≡ true → ⊥
      differ u same h = cc (h, miss, ap (hits lib subj) same)

  first_match-FirstOf :
      (scopes : List Scope)
      → IsSorted scope_before scopes
      → FirstOf scopes (first_match lib subj scopes)
  unfolding first_match
  first_match-FirstOf [] h = λ u m. absurd m
  first_match-FirstOf (s ∷ scopes) (k, h) = elim (Bool-cases (hits lib subj s)) [
    | inl hit ↦ rw hit (
      s,
      refl,
      inl refl,
      hit,
      λ u m _. elim m [ inl e ↦ rw e (scope_before_refl s) | inr n ↦ All-Member _ u scopes k n ],
    )
    | inr miss ↦ rw miss (FirstOf-cons s scopes _ miss (first_match-FirstOf scopes h))
  ]

  enabled_scopes-FirstOf :
      (t : Tables) → FirstOf (enabled_scopes t) (first_match lib subj (enabled_scopes t))
  unfolding enabled_scopes
  enabled_scopes-FirstOf t =
      first_match-FirstOf _ (order_by-IsSorted scope_before scope_before_total scope_before_trans _)

  Member-enabled_scopes :
      (t : Tables) (u : Scope) → Member u t.scopes → u.enabled ≡ true → Member u (enabled_scopes t)
  unfolding enabled_scopes
  Member-enabled_scopes t u m e =
      Member-order_by scope_before u _ (Member-filter (λ (s : Scope). s.enabled) u t.scopes m e)

  enabled_scopes-Member :
      (t : Tables) (u : Scope)
      → Member u (enabled_scopes t)
      → Member u t.scopes × (u.enabled ≡ true)
  unfolding enabled_scopes
  enabled_scopes-Member t u m =
      filter-Member (λ (s : Scope). s.enabled) u t.scopes (order_by-Member scope_before u _ m)

  abbrev pub Chosen : List Scope → Option ℕ → Type 0
  Chosen scopes none = (u : Scope) → Member u scopes → u.enabled ≡ true → hits lib subj u ≡ false
  Chosen scopes (some id) = (s : Scope) × (s.id ≡ id) × IsBest lib subj scopes s

  Chosen-of_FirstOf : (t : Tables) (o : Option ℕ) → FirstOf (enabled_scopes t) o → Chosen t.scopes o
  Chosen-of_FirstOf t none f = λ u m e. f u (Member-enabled_scopes t u m e)
  Chosen-of_FirstOf t (some id) (s, same, m, hit, least) = (
    s,
    same,
    record {
      listed = (enabled_scopes-Member t s m).0;
      enabled = (enabled_scopes-Member t s m).1;
      hit = hit;
      first = λ u n e h. scope_before_lem s u (least u (Member-enabled_scopes t u n e) h);
    },
  )

  -- The scope found for a request is an enabled scope that matches it, of the highest priority and
  -- then of the smallest identifier; none is found exactly when no enabled scope matches.
  pub first_match-Chosen : (t : Tables) → Chosen t.scopes (first_match lib subj (enabled_scopes t))
  first_match-Chosen t = Chosen-of_FirstOf t _ (enabled_scopes-FirstOf t)
