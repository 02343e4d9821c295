-- ===== src/Admin/Flags.antt =====
-- countryFlag of internal/admin/funcs.go, as a list of code points. strings.ToUpper and
-- strings.TrimSpace are parameters.
use ooblivion.Shared.{ℕ, ◌+◌, ◌-◌, ◌%◌, ◌≤◌, ◌≡◌, refl, arith, Str, List, [], ◌∷◌}

-- rune(0x1F1E6) + rune(b-'A'), with the wrap-around of a byte
unfoldable pub indicator : ℕ → ℕ
indicator b = 127462 + (b + 256 - 65) % 256

abbrev runes_of : Str → List ℕ
runes_of [] = []
runes_of (a ∷ []) = []
runes_of (a ∷ b ∷ []) = indicator a ∷ indicator b ∷ []
runes_of (a ∷ b ∷ c ∷ s) = []

-- countryFlag
unfoldable pub country_flag : (Str → Str) → (Str → Str) → Str → List ℕ
unfolding indicator
country_flag to_upper trim_space code = runes_of (to_upper (trim_space code))

indicator-letter : (i : ℕ) → i ≤ 25 → indicator (65 + i) ≡ 127462 + i
unfolding indicator
indicator-letter i h = omega (arith, h)

-- A code of two capital letters, after trimming, becomes the pair of their regional indicator
-- symbols, U+1F1E6 to U+1F1FF.
pub country_flag_letters :
    (to_upper trim_space : Str → Str) (code : Str) (i j : ℕ)
    → to_upper (trim_space code) ≡ (65 + i) ∷ (65 + j) ∷ []
    → i ≤ 25
    → j ≤ 25
    → country_flag to_upper trim_space code ≡ (127462 + i) ∷ (127462 + j) ∷ []
unfolding country_flag
country_flag_letters to_upper trim_space code i j e h k =
    rw (e, indicator-letter i h, indicator-letter j k) refl
