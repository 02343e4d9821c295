-- ===== src/Admin/Functions.antt =====
-- templateFuncs of internal/admin/funcs.go: the functions that the templates call. Admin/Flags has
-- `flag`; `matchOns` and `matchTypes` are the lists of Admin/Rules.
use ooblivion.Shared.{
  ◌≡◌, refl, arith, Str, str_eq, str_eq_iff, ap, ◌∙◌, Option, none, some, List, [], ◌∷◌,
  if◌then◌else◌,
}
use ooblivion.Exec.{Result, ok, err}

-- an argument of `dict`: a text, or anything else
pub data Argument (A : Type 0) : Type 0 where
  text : Str → Argument A
  other : A → Argument A

-- errDictKey, and the panic of an index out of range, which the template reports
pub data DictError : Type 0 where
  bad_key missing_value : DictError

module _ {A : Type 0} where
  -- m[key] = value
  unfoldable pub put_entry : Str → Argument A → List (Str × Argument A) → List (Str × Argument A)
  put_entry key value [] = (key, value) ∷ []
  put_entry key value ((k, v) ∷ m) =
      let later = put_entry key value m in if str_eq k key then (k, value) ∷ m else (k, v) ∷ later

  -- dict
  unfoldable pub dict_onto :
      List (Str × Argument A) → List (Argument A) → Result DictError (List (Str × Argument A))
  unfolding put_entry
  dict_onto m [] = ok m
  dict_onto m (text key ∷ []) = err missing_value
  dict_onto m (other a ∷ values) = err bad_key
  dict_onto m (text key ∷ value ∷ values) = dict_onto (put_entry key value m) values

  abbrev pub entry : Str → List (Str × Argument A) → Option (Argument A)
  entry key [] = none
  entry key ((k, v) ∷ m) = if str_eq k key then some v else entry key m

  -- what the template reads under a key: the value of its last occurrence
  abbrev pub last_value : Str → Option (Argument A) → List (Argument A) → Option (Argument A)
  last_value key found [] = found
  last_value key found (text k ∷ []) = found
  last_value key found (other a ∷ values) = found
  last_value key found (text k ∷ value ∷ values) =
      last_value key (if str_eq k key then some value else found) values

  entry-put_entry :
      (key : Str) (value : Argument A) (k : Str) (m : List (Str × Argument A))
      → entry k (put_entry key value m) ≡ (if str_eq key k then some value else entry k m)
  unfolding put_entry
  entry-put_entry key value k [] = refl
  entry-put_entry key value k ((j, v) ∷ m) =
      ground
        (arith, str_eq_iff key k, str_eq_iff j k, str_eq_iff j key, entry-put_entry key value k m)

  dict_onto-entry :
      (key : Str) (values : List (Argument A)) (m m' : List (Str × Argument A))
      → dict_onto m values ≡ ok m'
      → entry key m' ≡ last_value key (entry key m) values
  unfolding dict_onto
  dict_onto-entry key [] m m' h = ground (arith, h)
  dict_onto-entry key (text k ∷ []) m m' h = ground (arith, h)
  dict_onto-entry key (other a ∷ values) m m' h = ground (arith, h)
  dict_onto-entry key (text k ∷ value ∷ values) m m' h =
      dict_onto-entry key values (put_entry k value m) m' h
      ∙ ap (λ found. last_value key found values) (entry-put_entry k value key m)

  -- the arguments are keys that are texts, each with a value
  abbrev pub IsPaired : List (Argument A) → Type 0
  IsPaired [] = Unit {0}
  IsPaired (text k ∷ []) = ⊥
  IsPaired (other a ∷ values) = ⊥
  IsPaired (text k ∷ value ∷ values) = IsPaired values

  -- With a value for each key, and texts for keys, `dict` gives a map that has under each key the
  -- value of its last occurrence, and no other key.
  pub dict_onto_lem :
      (values : List (Argument A)) (m : List (Str × Argument A))
      → IsPaired values
      → (m' : List (Str × Argument A)) × (dict_onto m values ≡ ok m')
        × ((key : Str) → entry key m' ≡ last_value key (entry key m) values)
  unfolding dict_onto
  dict_onto_lem [] m paired = (m, refl, λ key. refl)
  dict_onto_lem (text k ∷ []) m paired = absurd paired
  dict_onto_lem (other a ∷ values) m paired = absurd paired
  dict_onto_lem (text k ∷ value ∷ values) m paired =
      let (m', made, _) = dict_onto_lem values (put_entry k value m) paired in
      (m', made, λ key. dict_onto-entry key (text k ∷ value ∷ values) m m' made)

-- headerName
abbrev pub header_name : Option Str → Str
header_name none = []
header_name (some v) = v
