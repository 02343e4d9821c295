-- ===== src/Logx.antt =====
-- internal/logx/logx.go: the levels of the log, and which messages are written. Package log writes
-- a line.
use ooblivion.Shared.{ℕ, ◌≡◌, arith, Str, codes, str_eq, List, [], ◌∷◌, ◌++◌, leb, if◌then◌else◌}

pub data Level : Type 0 where
  debug info warn error : Level

-- parseLevel
unfoldable pub parse_level : Str → Level
parse_level s =
    if str_eq s (codes "debug")
    then debug
    else if str_eq s (codes "warn")
    then warn
    else if str_eq s (codes "error")
    then error
    else info

-- the constants of Level
abbrev pub rank : Level → ℕ
rank debug = 0
rank info = 1
rank warn = 2
rank error = 3

-- logf, on the lines that are written
unfoldable pub logf : Level → Level → Str → List Str → List Str
logf level min line lines = if leb (rank level) (rank min) then lines ++ line ∷ [] else lines

-- Under any configured level an error is written.
pub logf-error :
    (level : Str) (line : Str) (lines : List Str)
    → logf (parse_level level) error line lines ≡ lines ++ line ∷ []
unfolding logf parse_level
logf-error level line lines = ground arith
