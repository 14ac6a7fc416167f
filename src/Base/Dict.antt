-- ===== src/Base/Dict.antt =====
-- Python's `dict` with texts as its keys, in the order of insertion.
use mathlib.Core.Path.{◌≡◌, refl, ap, subst, ◌∙◌}
use mathlib.Core.Logic.{inl, inr}
use mathlib.Core.Bool.{false}
use mathlib.Core.Option.{Option, none, some}
use mathlib.Core.List.{List, [], ◌∷◌, map}
use native.Mathlib.Omega.{arith}
use server_key_injection.Base.Tests.{if◌then◌else◌, Bool-cases}
use server_key_injection.Base.Equality.{◌==◌, nat_eq, list_eq, list_beq_iff}
use server_key_injection.Base.Lists.{contains, IsDistinct}
use server_key_injection.Base.Text.{Text}

-- A `dict` of texts, in the order of its keys.
abbrev pub Fields : Type 0 → Type 0
Fields V = List (Text × V)

abbrev pub keys_of : {V : Type 0} → Fields V → List Text
keys_of fields = map (λ (p : Text × _). p.0) fields

module _ {V : Type 0} where
  -- `fields[key] = value`
  unfoldable pub set_field : Text → V → Fields V → Fields V
  set_field key value [] = (key, value) ∷ []
  set_field key value ((k, v) ∷ fields) =
      if k == key then (k, value) ∷ fields else (k, v) ∷ set_field key value fields

  unfoldable pub get_field : Text → Fields V → Option V
  get_field key [] = none
  get_field key ((k, v) ∷ fields) = if k == key then some v else get_field key fields

  -- `fields.update(more)`
  unfoldable pub update : Fields V → Fields V → Fields V
  unfolding set_field
  update fields [] = fields
  update fields ((k, v) ∷ more) = update (set_field k v fields) more

  get_field-set_field_other :
      (j k : Text) (v : V) (fields : Fields V)
      → (k == j) ≡ false
      → get_field j (set_field k v fields) ≡ get_field j fields
  unfolding get_field set_field
  get_field-set_field_other j k v [] h = rw h refl
  get_field-set_field_other j k v ((i, w) ∷ fields) h = ground (
    arith,
    list_beq_iff i k,
    list_beq_iff k j,
    list_beq_iff i j,
    get_field-set_field_other j k v fields,
  )

  pub get_field-update_other :
      (j : Text) (fields more : Fields V)
      → contains (keys_of more) j ≡ false
      → get_field j (update fields more) ≡ get_field j fields
  unfolding update contains
  get_field-update_other j fields [] h = refl
  get_field-update_other j fields ((k, v) ∷ more) h =
      get_field-update_other j (set_field k v fields) more (ground arith)
      ∙ get_field-set_field_other j k v fields (ground (arith, list_beq_iff j k, list_beq_iff k j))

  get_field-set_field :
      (k : Text) (v : V) (fields : Fields V) → get_field k (set_field k v fields) ≡ some v
  unfolding get_field set_field
  get_field-set_field k v [] = ground (arith, list_beq_iff k k)
  get_field-set_field k v ((i, w) ∷ fields) =
      ground (arith, list_beq_iff i k, list_beq_iff k k, get_field-set_field k v fields)

  -- A value of the second `dict` wins over one of the first.
  pub get_field-update :
      (k : Text) (v : V) (fields more : Fields V)
      → IsDistinct (keys_of more)
      → get_field k more ≡ some v
      → get_field k (update fields more) ≡ some v
  unfolding update get_field
  get_field-update k v fields [] distinct h = absurd (cc)
  get_field-update k v fields ((i, w) ∷ more) (new, distinct) h = elim (Bool-cases (i == k)) [
    | inl same ↦
        let at_k : i ≡ k = (list_beq_iff i k).0 same in
        let given : w ≡ v = ground arith in
        get_field-update_other k (set_field i w fields) more
          (subst (λ j. contains (keys_of more) j ≡ false) at_k new)
        ∙ subst (λ j. get_field j (set_field i w fields) ≡ some v) at_k
            (get_field-set_field i w fields ∙ ap some given)
    | inr other ↦ get_field-update k v (set_field i w fields) more distinct (ground arith)
  ]
