-- ===== src/Admin/Pagination/Window.antt =====
-- The pages and the links of buildPagination in internal/admin/handlers_requests.go, at the twenty
-- rows per page that its callers use.
use ooblivion.Shared.{
  ◌≡◌, ◌⊎◌, refl, arith, ℕ, zero, suc, ◌+◌, ◌-◌, ◌*◌, ◌≤◌, ◌<◌, ℤ, pos, Str, true, ◌==◌, length,
  All, Member,
}
use ooblivion.Admin.Pagination.{PageLink, window, links, page_count, shown_page, build_pagination}

length-links : (href : ℕ → Str) (page n count : ℕ) → length (links href page n count) ≡ count
unfolding links
length-links href page n zero = refl
length-links href page n (suc count) = ground (arith, length-links href page (suc n) count)

-- A link shows its own page, and is marked if that is the page shown.
abbrev pub LinkOf : (ℕ → Str) → ℕ → ℕ → ℕ → PageLink → Type 0
LinkOf href page low high l =
    (low ≤ l.number) × (l.number ≤ high) × (l.href ≡ href l.number) × (l.active ≡ l.number == page)

links-LinkOf :
    (href : ℕ → Str) (page low high n count : ℕ)
    → low ≤ n
    → n + count ≤ suc high
    → All (LinkOf href page low high) (links href page n count)
unfolding links
links-LinkOf href page low high n zero h k = tt
links-LinkOf href page low high n (suc count) h k = (
  (h, omega arith, refl, refl),
  links-LinkOf href page low high (suc n) count (omega arith) (omega arith),
)

links-Member :
    (href : ℕ → Str) (page n count : ℕ)
    → n ≤ page
    → page < n + count
    → Member (record { number = page; active = true; href = href page }) (links href page n count)
unfolding links
links-Member href page n zero h k = ground arith
links-Member href page n (suc count) h k = ground (arith, links-Member href page (suc n) count)

pages_lem :
    (total : ℕ)
    → (total ≤ page_count 20 total * 20)
      × ((page_count 20 total ≡ 1) ⊎ ((page_count 20 total - 1) * 20 < total))
      × (1 ≤ page_count 20 total)
unfolding page_count
pages_lem total = ground arith

shown_lem :
    (asked : ℤ) (pages : ℕ)
    → 1 ≤ pages
    → (1 ≤ shown_page asked pages)
      × (shown_page asked pages ≤ pages)
      × ((n : ℕ) → asked ≡ pos n → 1 ≤ n → n ≤ pages → shown_page asked pages ≡ n)
unfolding shown_page
shown_lem asked pages h = (ground arith, ground arith, λ n e l k. ground arith)

window_lem :
    (page pages : ℕ)
    → 1 ≤ page
    → page ≤ pages
    → ((window page pages).1 + 1 - (window page pages).0 ≤ 5)
      × (1 ≤ (window page pages).0)
      × ((window page pages).1 ≤ pages)
      × ((window page pages).0 ≤ page)
      × (page ≤ (window page pages).1)
unfolding window
window_lem page pages h k = ground arith

-- At twenty rows per page, the page shown lies within the pages and is the one asked for where
-- that exists; the pages hold all rows and none is empty but a single one; the links are at most
-- five, to existing pages, and one of them, marked, is to the page shown.
pub build_pagination_lem :
    (asked : ℤ) (total : ℕ) (href : ℕ → Str)
    → let p = build_pagination asked 20 total href in
      (1 ≤ p.page)
      × (p.page ≤ p.pages)
      × ((n : ℕ) → asked ≡ pos n → 1 ≤ n → n ≤ p.pages → p.page ≡ n)
      × (total ≤ p.pages * 20)
      × ((p.pages ≡ 1) ⊎ ((p.pages - 1) * 20 < total))
      × (length p.numbers ≤ 5)
      × All (LinkOf href p.page 1 p.pages) p.numbers
      × Member (record { number = p.page; active = true; href = href p.page }) p.numbers
unfolding build_pagination
build_pagination_lem asked total href =
    let pages = page_count 20 total in
    let page = shown_page asked pages in
    let (enough, full, some_page) = pages_lem total in
    let (low, high, same) = shown_lem asked pages some_page in
    let (five, start, end, from, upto) = window_lem page pages low high in
    (
      low,
      high,
      same,
      enough,
      full,
      ground (
        arith,
        length-links href page (window page pages).0
            ((window page pages).1 + 1 - (window page pages).0),
      ),
      links-LinkOf href page 1 pages (window page pages).0 _ start (omega arith),
      links-Member href page (window page pages).0 _ from (omega arith),
    )
