-- ===== src/Version.antt =====
-- internal/version/version.go: the build's three variables, which the linker sets, and String.
use ooblivion.Shared.{Str, codes, is_empty, str_eq, Bool, not, ◌&&◌, if◌then◌else◌}

pub record Build : Type 0 where
  pub version : Str
  pub commit : Str
  pub build_date : Str

-- `!= "" && != "dev"`
abbrev is_set : Str → Bool
is_set s = not (is_empty s) && not (str_eq s (codes "dev"))

-- String
unfoldable pub version_string : Build → Str
version_string b =
    if is_set b.version then b.version else if is_set b.commit then b.commit else codes "dev"
