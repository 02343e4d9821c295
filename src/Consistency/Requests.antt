-- ===== src/Consistency/Requests.antt =====
-- The statements on the table of requests, in internal/capture, internal/scheduler and
-- internal/admin: each keeps the tables consistent, or is refused.
use ooblivion.Shared.{
  ℕ, ◌≡◌, refl, sym, subst, arith, ℤ, Bool, ◌⊎◌, inl, inr, true, false, not, ◌||◌, Option, none,
  some, List, [], ◌∷◌, any, map, ◌==◌, if◌then◌else◌,
}
use ooblivion.Shared.Numbered.{
  IsNumbered-append, IsNumbered-filter, IsNumbered-map, All-append, All-filter, All-map, All-imp,
}
use ooblivion.Models.{Request, Scope, NotificationLog}
use ooblivion.Db.{Tables, delete_requests}
use ooblivion.Db.Keeping.{Allows}
use ooblivion.Db.Keys.{RefersTo, RefersTo-append, RefersTo-map, RefersTo-delete}
use ooblivion.Capture.{insert_request, count_capture}
use ooblivion.Capture.Classify.{mark_saved, mark_notified}
use ooblivion.Admin.{is_id}
use ooblivion.Admin.Requests.{set_saved}
use ooblivion.Admin.Rules.{RulesLib}
use ooblivion.Admin.Rules.Scopes.{unscope, in_scope}
use ooblivion.Consistency.{IsConsistent, IsKept}
use ooblivion.Consistency.Statements.{total, guarded, unguarded, either}

abbrev scope_id : Scope → ℕ
scope_id s = s.id

abbrev request_id : Request → ℕ
request_id r = r.id

IsKept-true : (key : Option ℕ) → IsKept true key
IsKept-true none = tt
IsKept-true (some key) = refl

-- An UPDATE that no row meets.
map-miss :
    (id : ℕ) (f : Request → Request) (rows : List Request)
    → any (λ (r : Request). r.id == id) rows ≡ false
    → map (λ (r : Request). if r.id == id then f r else r) rows ≡ rows
unfolding any
map-miss id f [] h = refl
map-miss id f (r ∷ rows) h = ground (arith, h, map-miss id f rows)

missed : (a b : Bool) → a || not b ≡ true → (a ≡ true) ⊎ (b ≡ false)
missed true b h = inl refl
missed false true h = ground (arith, h)
missed false false h = inr refl

abbrev IsKeyed : Tables → Request → Type 0
IsKeyed t r = RefersTo scope_id t.scopes r.scope_id

abbrev IsKeptRow : Request → Type 0
IsKeptRow r = IsKept r.saved r.scope_id

module _ {c : RulesLib} where
  -- An update of requests that keeps their identifiers.
  updated :
      (t : Tables) (f : Request → Request)
      → ((r : Request) → (f r).id ≡ r.id)
      → ((r : Request)
          → RefersTo scope_id t.scopes r.scope_id
          → RefersTo scope_id t.scopes (f r).scope_id)
      → ((r : Request) → IsKept r.saved r.scope_id → IsKept (f r).saved (f r).scope_id)
      → IsConsistent c t
      → IsConsistent c (record t { requests = map f t.requests })
  updated t f same keys kept (r, s, x, l, a, k) = (
    record {
      numbered = IsNumbered-map request_id f _ _ _ same r.numbered;
      scope_keys = All-map _ _ f _ keys r.scope_keys;
      kept = All-map _ _ f _ kept r.kept;
    },
    s,
    x,
    record {
      numbered = l.numbered;
      rule_keys = l.rule_keys;
      request_keys =
          All-imp _ _ _ (λ row. RefersTo-map request_id f row.request_id _ same) l.request_keys;
    },
    a,
    k,
  )

  -- A new request has no scope.
  pub Allows-insert_request :
      (req : Request) → req.scope_id ≡ none → Allows (IsConsistent c) (insert_request req)
  unfolding insert_request
  Allows-insert_request req fresh = total _ _ (λ t (r, s, x, l, a, k). (
    record {
      numbered = IsNumbered-append request_id _ _ _ _ refl r.numbered;
      scope_keys = All-append _ _ _ r.scope_keys (rw fresh tt);
      kept = All-append _ _ _ r.kept (rw fresh tt);
    },
    s,
    x,
    record {
      numbered = l.numbered;
      rule_keys = l.rule_keys;
      request_keys =
          All-imp _ _ _ (λ row. RefersTo-append request_id row.request_id _ _) l.request_keys;
    },
    a,
    k,
  ))

  pub Allows-count_capture : Allows (IsConsistent c) count_capture
  unfolding count_capture
  Allows-count_capture = total _ _ (λ t h. h)

  pub Allows-mark_saved : (key id : ℕ) → Allows (IsConsistent c) (mark_saved key id)
  unfolding mark_saved
  Allows-mark_saved key id = guarded _ _ _ (λ t good h. elim (missed _ _ good) [
    | inl there ↦
        updated t _ (λ r. ground arith) (λ r k. either (IsKeyed t) (r.id == id) _ _ there k)
          (λ r k. either IsKeptRow (r.id == id) _ _ refl k) h
    | inr none_met ↦
        subst (λ rows. IsConsistent c (record t { requests = rows }))
          (sym (map-miss id _ t.requests none_met)) h
  ])

  pub Allows-mark_notified : (id : ℕ) → Allows (IsConsistent c) (mark_notified id)
  unfolding mark_notified
  Allows-mark_notified id = total _ _ (λ t.
      updated t _ (λ r. ground arith) (λ r k. either (IsKeyed t) (r.id == id) _ _ k k)
        (λ r k. either IsKeptRow (r.id == id) _ _ k k))

  pub Allows-set_saved : (saved : Bool) (id : ℤ) → Allows (IsConsistent c) (set_saved saved id)
  unfolding set_saved
  Allows-set_saved saved id = total _ _ (λ t.
      updated t _ (λ r. ground arith)
        (λ r k. either (IsKeyed t) (is_id id r.id) _ _ (either (IsKeyed t) saved _ _ k tt) k)
        (λ r k.
          either IsKeptRow (is_id id r.id) _ _
            (either IsKeptRow saved _ _ (IsKept-true r.scope_id) tt) k))

  pub Allows-unscope : (id : ℤ) → Allows (IsConsistent c) (unscope id)
  unfolding unscope
  Allows-unscope id = total _ _ (λ t.
      updated t _ (λ r. ground arith) (λ r k. either (IsKeyed t) (in_scope id r.scope_id) _ _ tt k)
        (λ r k. either IsKeptRow (in_scope id r.scope_id) _ _ tt k))

  pub Allows-delete_requests :
      (selected : Request → Bool) → Allows (IsConsistent c) (delete_requests selected)
  unfolding delete_requests
  Allows-delete_requests selected = unguarded _ _ _ (λ t free (r, s, x, l, a, k). (
    record {
      numbered = IsNumbered-filter request_id _ _ _ _ r.numbered;
      scope_keys = All-filter _ _ _ r.scope_keys;
      kept = All-filter _ _ _ r.kept;
    },
    s,
    x,
    record {
      numbered = l.numbered;
      rule_keys = l.rule_keys;
      request_keys =
          RefersTo-delete request_id (λ (row : NotificationLog). row.request_id) selected t.requests
            _ free l.request_keys;
    },
    a,
    k,
  ))

pub ruleset request_rules = (
  Allows-count_capture, Allows-mark_saved, Allows-mark_notified, Allows-set_saved, Allows-unscope,
  Allows-delete_requests,
)
