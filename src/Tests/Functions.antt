-- ===== src/Tests/Functions.antt =====
-- The functions of the templates, in internal/admin/funcs.go.
use ooblivion.Shared.{◌≡◌, refl, codes, str_eq, [], ◌∷◌}
use ooblivion.Exec.{ok, err}
use ooblivion.Admin.Flags.{country_flag}
use ooblivion.Admin.Functions.{text, other, missing_value, bad_key, dict_onto}
use ooblivion.Tests.Samples.{trim_none}

-- Cloudflare's code for Tor is no pair of letters: the second point is no regional indicator.
country_flag_test : country_flag trim_none trim_none (codes "T1") ≡ 127481 ∷ 127702 ∷ []
unfolding country_flag
country_flag_test = refl

twice_test :
    dict_onto {A = Unit {0}} []
      (text (codes "a") ∷ text (codes "x") ∷ text (codes "a") ∷ other tt ∷ [])
    ≡ ok ((codes "a", other tt) ∷ [])
unfolding dict_onto str_eq
twice_test = refl

odd_test : dict_onto {A = Unit {0}} [] (text (codes "a") ∷ []) ≡ err missing_value
unfolding dict_onto
odd_test = refl

key_test : dict_onto {A = Unit {0}} [] (other tt ∷ text (codes "a") ∷ []) ≡ err bad_key
unfolding dict_onto
key_test = refl
