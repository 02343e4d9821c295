-- ===== src/Tests/Query.antt =====
-- The filters of internal/admin/handlers_requests.go, and ensureAuth of cmd/ooblivion/main.go.
use ooblivion.Shared.{
  ◌≡◌, ◌≤◌, ◌<◌, ◌*◌, refl, arith, ℕ, suc, pos, codes, contains, true, false, some, none, [],
  length, Member, map, max_int64, filter, replace_all, itoa_ℕ, str_eq, has_prefix,
}
use ooblivion.Exec.{ok}
use ooblivion.Models.{Request}
use ooblivion.Capture.Saving.{healthy}
use ooblivion.Auth.Passwords.{hash_password}
use ooblivion.Admin.Query.{
  QueryLib, RequestFilters, host_like, like_pieces, selected, rows_of, query_requests, some_rest,
  host_pattern, read_pattern,
}
use ooblivion.Admin.Query.Wildcards.{star_piece, host_like-eq}
use ooblivion.Shared.Order.{IsSorted}
use ooblivion.Admin.Query.Meaning.{IsSelected}
use ooblivion.Admin.Query.Items.{total, newest, at_page, query_requests_lem}
use ooblivion.Admin.Sizes.{human_bytes}
use ooblivion.Server.Setup.{Accepts, ensure_auth, ensure_auth_lem}
use ooblivion.Admin.Display.{body_file_ext, ext_of}
use ooblivion.Tests.Samples.{lower_ascii, clock, world}
use ooblivion.Tests.Console.{padded, passwords, passwords-IsSound, credentials}

host_like-eq_example :
    host_like (codes "*_%.example") (codes "A_%.EXAMPLE")
    ≡ like_pieces (map star_piece (codes "*_%.example")) (codes "A_%.EXAMPLE")
host_like-eq_example = host_like-eq (codes "*_%.example") (codes "A_%.EXAMPLE")

wildcard_test : like_pieces (map star_piece (codes "*_%.example")) (codes "A_%.EXAMPLE") ≡ true
unfolding like_pieces some_rest
wildcard_test = refl

no_wildcard_test : like_pieces (map star_piece (codes "*_%.example")) (codes "abc.example") ≡ false
unfolding like_pieces some_rest
no_wildcard_test = refl

abbrev pub query_lib : QueryLib
query_lib = record { like_any = λ q text. contains text q; as_integer = λ s. none }

abbrev filters : RequestFilters
filters = record {
  q = [];
  method = codes "GET";
  host = codes "*.example";
  saved = codes "1";
  country = [];
  scope_id = [];
  page = pos 1;
}

few : total query_lib filters world ≤ max_int64
unfolding selected filter host_like read_pattern host_pattern replace_all like_pieces some_rest
    contains str_eq has_prefix
few = omega arith

query_requests_lem_example :
    ((query_requests query_lib filters (healthy world)).0
      ≡ ok (rows_of query_lib filters world.db, total query_lib filters world))
    × (length (rows_of query_lib filters world.db) ≤ 20)
    × IsSorted newest (rows_of query_lib filters world.db)
    × ((r : Request)
        → Member r (rows_of query_lib filters world.db)
        → Member r world.db.requests × IsSelected query_lib filters r)
    × ((r : Request)
        → Member r world.db.requests
        → IsSelected query_lib filters r
        → (n : ℕ) × (n * 20 < total query_lib filters world)
          × Member r (rows_of query_lib (at_page filters (suc n)) world.db))
query_requests_lem_example = query_requests_lem query_lib filters world few

first_hash :
    hash_password passwords (codes "0123456789abcdef") (some (codes "s"))
    ≡ some credentials.password_hash
unfolding hash_password padded
first_hash = refl

ensure_auth_lem_example :
    let out =
      ensure_auth passwords clock (codes "0123456789abcdef") (some (codes "s")) 9 (healthy world) in
    (out.0 ≡ ok tt) × Accepts passwords out.1.db.auth (codes "0123456789abcdef")
ensure_auth_lem_example =
    ensure_auth_lem passwords clock (codes "0123456789abcdef") (codes "s") 9 world
      credentials.password_hash passwords-IsSound refl first_hash (omega arith)

gzip_test : body_file_ext lower_ascii (codes "application/GZIP") ≡ codes ".zip"
unfolding body_file_ext ext_of contains has_prefix
gzip_test = refl

-- one byte less than 1 MiB
size_test :
    (human_bytes 1023 ≡ codes "1023 B")
    × (human_bytes 154208 ≡ codes "150.6 KiB")
    × (human_bytes 1048575 ≡ codes "1024.0 KiB")
unfolding human_bytes itoa_ℕ
size_test = (refl, refl, refl)
