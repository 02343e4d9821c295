-- ===== src/Admin/Pagination.antt =====
-- buildPagination of internal/admin/handlers_requests.go. A page and a total are integers of 64
-- bits; the links are texts that the caller gives.
pub mod Window
use ooblivion.Shared.{
  ℕ, zero, suc, ◌+◌, ◌-◌, ◌/◌, Str, Bool, true, false, List, [], ◌∷◌, ◌==◌, ltb, leb, ℤ, pos,
  negsuc, atoi, if◌then◌else◌,
}

pub record PageLink : Type 0 where
  pub number : ℕ
  pub active : Bool
  pub href : Str

pub record PaginationData : Type 0 where
  pub page : ℕ
  pub pages : ℕ
  pub has_prev : Bool
  pub has_next : Bool
  pub first_href : Str
  pub prev_href : Str
  pub next_href : Str
  pub last_href : Str
  pub numbers : List PageLink

-- maxInt and minInt
unfoldable pub max_int : ℕ → ℕ → ℕ
max_int a b = if ltb b a then a else b

unfoldable pub min_int : ℕ → ℕ → ℕ
min_int a b = if ltb a b then a else b

-- a - b with the lower bound one, as `if start < 1 { start = 1 }` leaves it
abbrev pub at_least_one : ℕ → ℕ → ℕ
at_least_one a b = if ltb b a then a - b else 1

-- the first and the last number of the window; `page` is from 1 to `pages`
unfoldable pub window : ℕ → ℕ → ℕ × ℕ
window page pages =
    let start = at_least_one page 2 in
    if ltb pages (start + 4) then (at_least_one pages 4, pages) else (start, start + 4)

-- the loop over the numbers
unfoldable pub links : (ℕ → Str) → ℕ → ℕ → ℕ → List PageLink
links href page n zero = []
links href page n (suc count) =
    record { number = n; active = n == page; href = href n } ∷ links href page (suc n) count

-- the number of pages
unfoldable pub page_count : ℕ → ℕ → ℕ
page_count per_page total =
    let pages = (total + per_page - 1) / per_page in if ltb pages 1 then 1 else pages

-- the page that is shown, from the one that was asked for
unfoldable pub shown_page : ℤ → ℕ → ℕ
shown_page (pos n) pages =
    let page = if ltb n 1 then 1 else n in if ltb pages page then pages else page
shown_page (negsuc n) pages = if ltb pages 1 then pages else 1

-- buildPagination
unfoldable pub build_pagination : ℤ → ℕ → ℕ → (ℕ → Str) → PaginationData
unfolding window links page_count shown_page max_int min_int
build_pagination asked per_page total href =
    let pages = page_count per_page total in
    let page = shown_page asked pages in
    let (start, end) = window page pages in
    record {
      page = page;
      pages = pages;
      has_prev = ltb 1 page;
      has_next = ltb page pages;
      first_href = href 1;
      prev_href = href (max_int (page - 1) 1);
      next_href = href (min_int (page + 1) pages);
      last_href = href pages;
      numbers = links href page start (end + 1 - start);
    }

-- atoiDefault
abbrev positive_of : ℤ → ℤ × Bool → ℤ
positive_of default (pos zero, good) = default
positive_of default (pos (suc n), true) = pos (suc n)
positive_of default (pos (suc n), false) = default
positive_of default (negsuc n, good) = default

unfoldable pub atoi_default : Str → ℤ → ℤ
atoi_default s default = positive_of default (atoi s)
