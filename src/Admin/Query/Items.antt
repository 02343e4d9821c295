-- ===== src/Admin/Query/Items.antt =====
-- The list that queryRequests of internal/admin/handlers_requests.go returns.
use ooblivion.Shared.{
  ◌≡◌, arith, ℕ, zero, suc, ◌/◌, subst, sym, ◌+◌, ◌*◌, ◌≤◌, ◌<◌, pos, true, List, [], ◌∷◌, leb,
  length, take, drop, filter, order_by, Member, All, Bool, inl, inr, max_int64, wrap64,
}
use ooblivion.Shared.Select.{filter-Member, Member-filter}
use ooblivion.Shared.Order.{
  IsSorted, order_by-IsSorted, Member-order_by, order_by-Member, length-order_by,
}
use ooblivion.Exec.{ok}
use ooblivion.Models.{Request}
use ooblivion.Db.{World, query, query_row, rows_err, faulty, answered}
use ooblivion.Capture.Saving.{healthy}
use ooblivion.Admin.Query.Meaning.{IsSelected, selected_iff}
use ooblivion.Admin.Query.{QueryLib, RequestFilters, selected, offset_of, rows_of, query_requests}

module _ {A : Type 0} where
  take-Member : (n : ℕ) (a : A) (xs : List A) → Member a (take n xs) → Member a xs
  take-Member zero a xs m = elim m [ ]
  take-Member (suc n) a [] m = m
  take-Member (suc n) a (x ∷ xs) (inl e) = inl e
  take-Member (suc n) a (x ∷ xs) (inr m) = inr (take-Member n a xs m)

  drop-Member : (n : ℕ) (a : A) (xs : List A) → Member a (drop n xs) → Member a xs
  drop-Member zero a xs m = m
  drop-Member (suc n) a [] m = m
  drop-Member (suc n) a (x ∷ xs) m = inr (drop-Member n a xs m)

  length-take : (n : ℕ) (xs : List A) → length (take n xs) ≤ n
  length-take zero xs = ground arith
  length-take (suc n) [] = ground arith
  length-take (suc n) (x ∷ xs) = ground (arith, length-take n xs)

  take-All : (P : A → Type 0) (n : ℕ) (xs : List A) → All P xs → All P (take n xs)
  take-All P zero xs h = tt
  take-All P (suc n) [] h = tt
  take-All P (suc n) (x ∷ xs) (p, h) = (p, take-All P n xs h)

  module _ (before : A → A → Bool) where
    take-IsSorted : (n : ℕ) (xs : List A) → IsSorted before xs → IsSorted before (take n xs)
    take-IsSorted zero xs h = tt
    take-IsSorted (suc n) [] h = tt
    take-IsSorted (suc n) (x ∷ xs) (p, h) = (take-All _ n xs p, take-IsSorted n xs h)

    drop-IsSorted : (n : ℕ) (xs : List A) → IsSorted before xs → IsSorted before (drop n xs)
    drop-IsSorted zero xs h = h
    drop-IsSorted (suc n) [] h = tt
    drop-IsSorted (suc n) (x ∷ xs) (p, h) = drop-IsSorted n xs h

  -- Where an element stands: every stretch of the list around its index holds it.
  abbrev StandsAt : A → List A → ℕ → Type 0
  StandsAt a xs k = (n m : ℕ) → n ≤ k → k < n + m → Member a (take m (drop n xs))

  index-StandsAt : (a : A) (xs : List A) → Member a xs → (k : ℕ) × (k < length xs) × StandsAt a xs k
  index-StandsAt a [] m = elim m [ ]
  index-StandsAt a (x ∷ xs) (inl e) = (0, omega arith, here)
    where
      here : StandsAt a (x ∷ xs) 0
      here zero zero h k = ground arith
      here zero (suc m) h k = inl e
      here (suc n) m h k = ground arith
  index-StandsAt a (x ∷ xs) (inr m) =
      let (k, small, stands) = index-StandsAt a xs m in
      (suc k, omega (arith, small), later k stands)
    where
      later : (k : ℕ) → StandsAt a xs k → StandsAt a (x ∷ xs) (suc k)
      later k stands zero zero h l = ground arith
      later k stands zero (suc j) h l = inr (stands 0 j (omega arith) (omega (arith, l)))
      later k stands (suc n) j h l = stands n j (omega (arith, h)) (omega (arith, l))

-- The newer row first.
abbrev pub newest : Request → Request → Bool
newest a b = leb b.id a.id

abbrev pub at_page : RequestFilters → ℕ → RequestFilters
at_page f n = record f { page = pos n }

module _ (lib : QueryLib) (f : RequestFilters) (w : World) where
  abbrev pub total : ℕ
  total = length (filter (selected lib f) w.db.requests)

  query_requests-eq : (query_requests lib f (healthy w)).0 ≡ ok (rows_of lib f w.db, total)
  unfolding query_requests query query_row rows_err faulty answered
  query_requests-eq = ground arith

  rows_of-Member :
      (r : Request)
      → Member r (rows_of lib f w.db)
      → Member r w.db.requests × (selected lib f r ≡ true)
  unfolding rows_of
  rows_of-Member r m = filter-Member (selected lib f) r w.db.requests (
      order_by-Member (λ (a b : Request). leb b.id a.id) r _
        (drop-Member (offset_of lib f.page) r _ (take-Member 20 r _ m)))

offset-small : (lib : QueryLib) (n : ℕ) → n * 20 ≤ max_int64 → offset_of lib (pos (suc n)) ≡ n * 20
unfolding offset_of wrap64
offset-small lib n h = ground arith

module _ (lib : QueryLib) (f : RequestFilters) (w : World) where
  -- All rows that the filters select, newest first.
  abbrev sorted : List Request
  sorted = order_by (λ (a b : Request). leb b.id a.id) (filter (selected lib f) w.db.requests)

  length-sorted : length sorted ≡ total lib f w
  length-sorted =
      length-order_by (λ (a b : Request). leb b.id a.id) (filter (selected lib f) w.db.requests)

  Member-rows_of :
      (r : Request)
      → total lib f w ≤ max_int64
      → Member r w.db.requests
      → selected lib f r ≡ true
      → (n : ℕ) × (n * 20 < total lib f w) × Member r (rows_of lib (at_page f (suc n)) w.db)
  unfolding rows_of selected
  Member-rows_of r small m s =
      let (k, within, stands) = index-StandsAt r sorted (
        Member-order_by (λ (a b : Request). leb b.id a.id) r _
          (Member-filter (selected lib f) r w.db.requests m s)) in
      (
        k / 20,
        omega (arith, within, length-sorted),
        subst (λ o. Member r (take 20 (drop o sorted)))
            (sym (offset-small lib (k / 20) (omega (arith, within, length-sorted, small))))
            (stands (k / 20 * 20) 20 (omega arith) (omega arith)),
      )

  rows_of-IsSorted : IsSorted newest (rows_of lib f w.db)
  unfolding rows_of
  rows_of-IsSorted = take-IsSorted newest 20 _ (
      drop-IsSorted newest (offset_of lib f.page) sorted (
        order_by-IsSorted newest (λ a b h. ground (arith, h)) (λ a b c h k. ground (arith, h, k))
          _))

  -- With at most 2^63 - 1 selected rows and no faults, a page of the list holds at most twenty
  -- requests, newest first, all of them stored and with what every filter asks for, and the number
  -- of all that are selected; and every stored request with what the filters ask for stands on
  -- some page that the number allows for.
  pub query_requests_lem :
      total lib f w ≤ max_int64
      → ((query_requests lib f (healthy w)).0 ≡ ok (rows_of lib f w.db, total lib f w))
        × (length (rows_of lib f w.db) ≤ 20)
        × IsSorted newest (rows_of lib f w.db)
        × ((r : Request)
            → Member r (rows_of lib f w.db)
            → Member r w.db.requests × IsSelected lib f r)
        × ((r : Request)
            → Member r w.db.requests
            → IsSelected lib f r
            → (n : ℕ) × (n * 20 < total lib f w) × Member r (rows_of lib (at_page f (suc n)) w.db))
  query_requests_lem small = (
    query_requests-eq lib f w,
    unfold rows_of in length-take 20 _,
    rows_of-IsSorted,
    λ r m.
        let (stored, chosen) = rows_of-Member lib f w r m in
        (stored, (selected_iff lib f r).0 chosen),
    λ r m s. Member-rows_of r small m ((selected_iff lib f r).1 s),
  )
