-- ===== src/Telegram.antt =====
-- internal/telegram/telegram.go: escaping and the alerts.
pub mod Markdown
pub mod Sender
pub mod Worker
use ooblivion.Shared.{ℕ, Str, codes, Bool, false, List, [], ◌∷◌, ◌++◌, ◌==◌, ◌||◌, if◌then◌else◌}

-- the characters that the replacer of `EscapeMD` names
unfoldable pub is_special : ℕ → Bool
is_special c =
    c == b'\\'
    || c == b'_'
    || c == b'*'
    || c == b'['
    || c == b']'
    || c == b'('
    || c == b')'
    || c == b'~'
    || c == b'`'
    || c == b'>'
    || c == b'#'
    || c == b'+'
    || c == b'-'
    || c == b'='
    || c == b'|'
    || c == b'{'
    || c == b'}'
    || c == b'.'
    || c == b'!'

-- every replacement is a backslash in front of the character
unfoldable pub escape_md : Str → Str
unfolding is_special
escape_md [] = []
escape_md (c ∷ text) =
    let rest = escape_md text in if is_special c then b'\\' ∷ c ∷ rest else c ∷ rest

pub record Job : Type 0 where
  pub rule_id : ℕ
  pub request_id : ℕ
  pub rule_name : Str
  pub text : Str
