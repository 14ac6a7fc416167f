-- ===== src/Configuration/Settings.antt =====
-- What the validators of src/ski/configuration.py let through.
use Prim.Native.String.{String}
use server_key_injection.Base.{
  ◌≡◌, refl, ◌⊎◌, inl, inr, Bool, true, false, not, ◌&&◌, ◌||◌, Option, none, some, List, [], ◌∷◌,
  map, ok, ◌==◌, nat_eq, list_eq, list_beq_iff, contains, distinct, all, if◌then◌else◌, IsDistinct,
  IsDistinct_of_distinct, arith, Ensures, Ensures->>=, Ensures-raise_if, Ensures-require, ensured,
  Bool-cases,
}
use server_key_injection.Base.Int.{ℤ, pos, leb_ℤ}
use server_key_injection.Base.Text.{Text, codes, strip, split}
use server_key_injection.Base.Dict.{Fields, get_field}
use server_key_injection.Policy.{ordinary_certificate_extensions}
use server_key_injection.State.Records.{path_name}
use server_key_injection.Configuration.{
  Places, Checked, validate_bind, validate_port, validate_output_path, parse_ordinary_extensions,
  CaSettings, ca_settings,
}

-- The path of a setting that is given: it names a file of a directory that is there and can be written.
pub record IsPlace (places : Places) (setting : Option Text) (path : Text) : Type 0 where
  pub value : Text
  pub given : setting ≡ some value
  pub nonempty : (value == []) ≡ false
  pub expanded : path ≡ places.expanduser value
  pub named : contains ([] ∷ codes "." ∷ codes ".." ∷ []) (path_name path) ≡ false
  pub there : places.parent_is_dir path ≡ true
  pub writable : places.parent_writable path ≡ true

-- The extensions are the items of the setting, each supported and none twice.
pub record IsExtensions (setting : Option Text) (extensions : List Text) : Type 0 where
  pub value : Text
  pub given : setting ≡ some value
  pub items : extensions ≡ map strip (split b',' value)
  pub unique : IsDistinct extensions
  pub supported : all (contains ordinary_certificate_extensions) extensions ≡ true

abbrev pub IsBind : Places → Text → Type 0
IsBind places bind = (bind ≡ codes "*") ⊎ (places.is_ip_address bind ≡ true)

abbrev pub IsPort : Bool → ℤ → Type 0
IsPort allow_ephemeral port =
    (leb_ℤ (if allow_ephemeral then pos 0 else pos 1) port ≡ true) × (leb_ℤ port (pos 65535) ≡ true)

-- The settings of the CA that are asked for, and none where the service has no CA.
abbrev pub IsCaSettings : Places → Bool → Fields Text → CaSettings → Type 0
IsCaSettings places false values s =
    (s.private_key ≡ none) × (s.public_key ≡ none) × (s.krl ≡ none) × (s.extensions ≡ [])
IsCaSettings places true values s =
    ((path : Text) × (s.private_key ≡ some path)
      × IsPlace places (get_field (codes "SKI_CA_PRIVATE_KEY") values) path)
    × ((path : Text) × (s.public_key ≡ some path)
        × IsPlace places (get_field (codes "SKI_CA_PUBLIC_KEY") values) path)
    × ((path : Text) × (s.krl ≡ some path)
        × IsPlace places (get_field (codes "SKI_CA_KRL") values) path)
    × IsExtensions (get_field (codes "ORDINARY_CERT_EXTENSIONS") values) s.extensions

validated : Text → Checked Text
validated bind = ok bind

both : (a b : Bool) → (a && b) ≡ true → (a ≡ true) × (b ≡ true)
both a b h = ground arith

pub validate_bind-IsBind :
    (places : Places) (bind : Text)
    → Ensures (λ b. (b ≡ bind) × IsBind places b) (validate_bind places bind)
unfolding Ensures validate_bind validated
validate_bind-IsBind places bind =
    Ensures-raise_if _ _ (ok bind) (not (bind == codes "*") && not (places.is_ip_address bind))
      (λ h. returned h)
  where
    returned :
        (not (bind == codes "*") && not (places.is_ip_address bind)) ≡ false
        → Ensures (λ b. (b ≡ bind) × IsBind places b) (validated bind)
    returned h = elim (Bool-cases (bind == codes "*")) [
      | inl every ↦ (refl, inl ((list_beq_iff bind (codes "*")).0 every))
      | inr other ↦ (refl, inr (ground arith))
    ]

pub validate_port-IsPort :
    (port : ℤ) (allow_ephemeral : Bool)
    → Ensures (λ p. (p ≡ port) × IsPort allow_ephemeral p) (validate_port port allow_ephemeral)
unfolding Ensures validate_port
validate_port-IsPort port allow_ephemeral =
    Ensures-require _ _ (ok port)
      (leb_ℤ (if allow_ephemeral then pos 0 else pos 1) port && leb_ℤ port (pos 65535))
      λ h. (refl, both _ _ h)

pub validate_output_path-IsPlace :
    (places : Places) (setting : Option Text) (variable : Text)
    → Ensures (IsPlace places setting) (validate_output_path places setting variable)
unfolding Ensures validate_output_path
validate_output_path-IsPlace places none variable = tt
validate_output_path-IsPlace places (some value) variable =
    Ensures-raise_if (IsPlace places (some value)) _ _ (value == []) λ nonempty.
      Ensures-raise_if (IsPlace places (some value)) _ _
        (contains ([] ∷ codes "." ∷ codes ".." ∷ []) (path_name (places.expanduser value)))
        λ named.
          Ensures-require (IsPlace places (some value)) _ _
            (places.parent_is_dir (places.expanduser value))
            λ there.
              Ensures-require (IsPlace places (some value)) _ _
                (places.parent_writable (places.expanduser value))
                λ writable. record {
                  value = value;
                  given = refl;
                  nonempty = nonempty;
                  expanded = refl;
                  named = named;
                  there = there;
                  writable = writable;
                }

parse_ordinary_extensions-IsExtensions :
    (setting : Option Text) → Ensures (IsExtensions setting) (parse_ordinary_extensions setting)
unfolding Ensures parse_ordinary_extensions
parse_ordinary_extensions-IsExtensions none = tt
parse_ordinary_extensions-IsExtensions (some value) =
    let items = map strip (split b',' value) in
    Ensures-raise_if (IsExtensions (some value)) _ _ (value == [] || strip value == []) λ _.
      Ensures-raise_if (IsExtensions (some value)) _ _ (contains items []) λ _.
        Ensures-require (IsExtensions (some value)) _ _ (distinct items) λ unique.
          Ensures-require (IsExtensions (some value)) _ _
            (all (contains ordinary_certificate_extensions) items)
            λ supported. record {
              value = value;
              given = refl;
              items = refl;
              unique = IsDistinct_of_distinct items unique;
              supported = supported;
            }

pub ca_settings-IsCaSettings :
    (places : Places) (required : Bool) (values : Fields Text)
    → Ensures (IsCaSettings places required values) (ca_settings places required values)
unfolding Ensures ca_settings
ca_settings-IsCaSettings places false values = (refl, refl, refl, refl)
ca_settings-IsCaSettings places true values =
    Ensures->>= Q
      (validate_output_path places (field "SKI_CA_PRIVATE_KEY") (codes "SKI_CA_PRIVATE_KEY")) _
      λ private_key h1.
        Ensures->>= Q
          (validate_output_path places (field "SKI_CA_PUBLIC_KEY") (codes "SKI_CA_PUBLIC_KEY")) _
          λ public_key h2.
            Ensures->>= Q (validate_output_path places (field "SKI_CA_KRL") (codes "SKI_CA_KRL")) _
              λ krl h3.
                Ensures->>= Q (parse_ordinary_extensions (field "ORDINARY_CERT_EXTENSIONS")) _
                  λ extensions h4. (
                    (private_key, refl, place "SKI_CA_PRIVATE_KEY" private_key h1),
                    (public_key, refl, place "SKI_CA_PUBLIC_KEY" public_key h2),
                    (krl, refl, place "SKI_CA_KRL" krl h3),
                    ensured (IsExtensions (field "ORDINARY_CERT_EXTENSIONS"))
                        (parse_ordinary_extensions (field "ORDINARY_CERT_EXTENSIONS"))
                        (parse_ordinary_extensions-IsExtensions (field "ORDINARY_CERT_EXTENSIONS"))
                        h4,
                  )
  where
    Q : CaSettings → Type 0
    Q = IsCaSettings places true values

    field : String → Option Text
    field name = get_field (codes name) values

    place :
        (name : String) (path : Text)
        → validate_output_path places (field name) (codes name) ≡ ok path
        → IsPlace places (field name) path
    place name path h =
        ensured (IsPlace places (field name))
          (validate_output_path places (field name) (codes name))
          (validate_output_path-IsPlace places (field name) (codes name)) h
