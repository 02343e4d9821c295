-- ===== src/Admin/Query/Wildcards.antt =====
-- The filter by host of queryRequests in internal/admin/handlers_requests.go, against what its
-- asterisk means.
use ooblivion.Shared.{
  ◌≡◌, refl, ap, arith, ℕ, Str, codes, replace_all, [], ◌∷◌, ◌++◌, ◌==◌, map, if◌then◌else◌,
}
use ooblivion.Admin.Query.{
  Piece, any_run, exactly, read_pattern, like_pieces, host_pattern, host_like,
}

-- An asterisk stands for any text, and every other byte for itself.
abbrev pub star_piece : ℕ → Piece
star_piece c = if c == b'*' then any_run else exactly c

-- What a byte of the filter becomes in the pattern.
abbrev chunk : ℕ → Str
chunk c =
    if c == b'\\'
    then codes "\\\\"
    else if c == b'%'
    then codes "\\%"
    else if c == b'_'
    then codes "\\_"
    else if c == b'*'
    then codes "%"
    else c ∷ []

host_pattern-cons : (c : ℕ) (host : Str) → host_pattern (c ∷ host) ≡ chunk c ++ host_pattern host
unfolding host_pattern replace_all
host_pattern-cons c host = ground arith

read_pattern-chunk :
    (c : ℕ) (rest : Str)
    → read_pattern b'\\' (chunk c ++ rest) ≡ star_piece c ∷ read_pattern b'\\' rest
unfolding read_pattern
read_pattern-chunk c [] = ground arith
read_pattern-chunk c (d ∷ rest) = ground arith

read_pattern-host_pattern :
    (host : Str) → read_pattern b'\\' (host_pattern host) ≡ map star_piece host
read_pattern-host_pattern [] = unfold host_pattern in unfold read_pattern in refl
read_pattern-host_pattern (c ∷ host) = ground (
  arith,
  host_pattern-cons c host,
  read_pattern-chunk c (host_pattern host),
  read_pattern-host_pattern host,
)

-- The host filter of the list, escaped and matched by LIKE, matches a host exactly if the filter
-- does, read with its asterisks as any text and every other byte, wildcards of LIKE and
-- backslashes included, as itself up to the case of ASCII letters.
pub host_like-eq : (host text : Str) → host_like host text ≡ like_pieces (map star_piece host) text
unfolding host_like
host_like-eq host text = ap (λ ps. like_pieces ps text) (read_pattern-host_pattern host)
