-- ===== src/Telegram/Markdown.antt =====
-- How a reader of MarkdownV2 takes the texts that internal/telegram/telegram.go and
-- internal/capture/classify.go write: outside of entities a backslash makes the next character
-- plain and a special character alone is markup; inside a code entity a backslash makes the next
-- character plain and a backquote ends the entity (the Bot API's formatting options).
use ooblivion.Shared.{
  ℕ, Str, codes, replace_all, Bool, true, false, Option, none, some, [], ◌∷◌, ◌++◌, ◌==◌, ◌≡◌, ◌≢◌,
  refl, ap, inl, inr, arith, All, any, Bool-cases, if◌then◌else◌,
}
use mathlib.Core.Option
use ooblivion.Shared.Order.{All-Member}
use ooblivion.Shared.Select.{any-eq-false}
use ooblivion.Telegram.{is_special, escape_md}

-- The characters that the Bot API wants escaped outside of entities.
abbrev pub markup : Str
markup = codes "_*[]()~`>#+-=|{}.!"

unfoldable pub is_markup : ℕ → Bool
is_markup c = any (λ m. c == m) markup

-- The plain text that is shown; the flag says that a backslash stands in front. `none` is markup or
-- a dangling backslash.
unfoldable pub read_plain : Bool → Str → Option Str
read_plain true [] = none
read_plain false [] = some []
read_plain true (c ∷ s) = Option.map (◌∷◌ c) (read_plain false s)
read_plain false (c ∷ s) =
    let shown = Option.map (◌∷◌ c) (read_plain false s) in
    let escaped = read_plain true s in
    if c == b'\\' then escaped else if is_markup c then none else shown

-- The text of a code entity up to the backquote that ends it, and what follows.
unfoldable pub read_code : Bool → Str → Option (Str × Str)
read_code escaped [] = none
read_code true (c ∷ s) = Option.map (λ (p : Str × Str). (c ∷ p.0, p.1)) (read_code false s)
read_code false (c ∷ s) =
    let shown = Option.map (λ (p : Str × Str). (c ∷ p.0, p.1)) (read_code false s) in
    let escaped = read_code true s in
    if c == b'\\' then escaped else if c == b'`' then some ([], s) else shown

special_backslash : (c : ℕ) → is_special c ≡ false → (c == b'\\') ≡ false
unfolding is_special
special_backslash c h = ground arith

-- Every character that the Bot API wants escaped is one that the replacer names.
markup_special : All (λ m. is_special m ≡ true) markup
unfolding is_special
markup_special = ground arith

special_markup : (c : ℕ) → is_special c ≡ false → is_markup c ≡ false
unfolding is_markup
special_markup c h =
    any-eq-false (λ m. c == m) markup
      (λ m listed. differ m (All-Member (λ m. is_special m ≡ true) m markup markup_special listed))
  where
    differ : (m : ℕ) → is_special m ≡ true → (c == m) ≡ false
    differ m k = ground (arith, h, k, ap is_special)

-- A reader of MarkdownV2, with the Bot API's list of special characters, shows an escaped text as
-- it was before escaping, whatever characters it holds, and finds no markup in it.
pub read_plain-escape_md : (text : Str) → read_plain false (escape_md text) ≡ some text
unfolding read_plain escape_md
read_plain-escape_md [] = refl
read_plain-escape_md (c ∷ text) = elim (Bool-cases (is_special c)) [
  | inl special ↦ rw special (rw (read_plain-escape_md text) refl)
  | inr other ↦
      rw other
        (rw (special_backslash c other, special_markup c other, read_plain-escape_md text) refl)
]

abbrev pub NoBackslash : Str → Type 0
NoBackslash s = All (λ c. c ≢ b'\\') s

-- Where a line that is put between backquotes with its own backquotes escaped holds a backslash followed by a
-- backquote, with no backslash before, a reader ends the code entity at that backquote and reads
-- the rest of the line as markup.
pub read_code-breakout :
    (line more rest : Str)
    → NoBackslash line
    → read_code false (replace_all (line ++ codes "\\`" ++ more) b'`' (codes "\\`") ++ b'`' ∷ rest)
      ≡ some (line ++ codes "\\", replace_all more b'`' (codes "\\`") ++ b'`' ∷ rest)
unfolding read_code replace_all
read_code-breakout [] more rest h = refl
read_code-breakout (c ∷ line) more rest (h, hs) = elim (Bool-cases (c == b'`')) [
  | inl quote ↦ rw quote (rw (read_code-breakout line more rest hs) (ground arith))
  | inr other ↦ rw other (ground (arith, read_code-breakout line more rest hs))
]
