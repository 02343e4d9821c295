-- ===== src/Matcher.antt =====
-- internal/matcher/matcher.go. Case folding (the Unicode tables) and package regexp are a
-- parameter; a map of headers is the list of its entries in the order of an iteration.
pub mod Headers
use ooblivion.Shared.{
  Str, codes, str_eq, is_empty, has_prefix, has_suffix, contains, Bool, false, not, Option, none,
  some, List, [], ◌∷◌, if◌then◌else◌,
}

pub record Rule : Type 0 where
  pub match_on : Str
  pub match_type : Str
  pub pattern : Str
  pub header_name : Str

pub record Subject : Type 0 where
  pub method : Str
  pub host : Str
  pub path : Str
  pub query : Str
  pub body : Str
  pub user_agent : Str
  pub source_ip : Str
  pub headers : List (Str × Str)

-- strings.ToLower, strings.EqualFold, and regexp.Compile with MatchString.
pub record TextLib : Type 0 where
  pub to_lower : Str → Str
  pub equal_fold : Str → Str → Bool
  pub compile : Str → Option (Str → Bool)

-- `(value, value != "")`: a field counts as present if it is not empty.
abbrev pub present : Str → Option Str
present value = if is_empty value then none else some value

module _ (lib : TextLib) where
  -- the loop over the headers
  unfoldable pub header_value : List (Str × Str) → Str → Option Str
  header_value [] header_name = none
  header_value ((key, value) ∷ headers) header_name =
      if lib.equal_fold key header_name then some value else header_value headers header_name

  -- `none` is the result with `ok == false`
  unfoldable pub field : Subject → Str → Str → Option Str
  unfolding header_value
  field s name header_name =
      if str_eq name (codes "host")
      then present s.host
      else if str_eq name (codes "path")
      then present s.path
      else if str_eq name (codes "query")
      then present s.query
      else if str_eq name (codes "method")
      then present s.method
      else if str_eq name (codes "header")
      then (if is_empty header_name then none else header_value s.headers header_name)
      else if str_eq name (codes "body")
      then present s.body
      else if str_eq name (codes "user_agent")
      then present s.user_agent
      else if str_eq name (codes "source_ip")
      then present s.source_ip
      else none

  abbrev run_regex : Option (Str → Bool) → Str → Bool
  run_regex none value = false
  run_regex (some re) value = re value

  -- the second switch, on a value that was found
  unfoldable pub value_matches : Rule → Str → Bool
  value_matches r value =
      if str_eq r.match_type (codes "exists")
      then not (is_empty value)
      else if str_eq r.match_type (codes "equals")
      then lib.equal_fold value r.pattern
      else if str_eq r.match_type (codes "prefix")
      then has_prefix (lib.to_lower value) (lib.to_lower r.pattern)
      else if str_eq r.match_type (codes "suffix")
      then has_suffix (lib.to_lower value) (lib.to_lower r.pattern)
      else if str_eq r.match_type (codes "regex")
      then run_regex (lib.compile r.pattern) value
      else contains (lib.to_lower value) (lib.to_lower r.pattern)

  unfoldable pub matches : Subject → Rule → Bool
  unfolding field value_matches
  matches s r = elim (field s r.match_on r.header_name) [
    | none ↦ false
    | some value ↦ value_matches r value
  ]
