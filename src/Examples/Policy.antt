-- ===== src/Examples/Policy.antt =====
-- src/ski/policy.py, src/ski/secure_files.py and src/ski/notify.py on concrete values.
use server_key_injection.Base.{
  refl, ◌≡◌, ◌↔◌, ◌⊎◌, ℕ, suc, List, Option, true, false, some, [], ◌∷◌, ok,
}
use server_key_injection.Base.Int.{ℤ, pos}
use server_key_injection.Base.Text.{Text, codes}
use server_key_injection.Policy.Values.{str_value, tuple_value}
use server_key_injection.Policy.{build_principals, validate_principals}
use server_key_injection.Policy.Laws.{build_principals_iff, validate_principals_iff}
use server_key_injection.Service.{
  FileMetadata, validate_secure_file, validate_secure_file_iff, notify_after_mutation,
  notify_after_mutation_iff, succeeded,
}
use server_key_injection.Examples.Data.{alice, dev, alice_principals, alice-ArePrincipals}

build_principals_iff_example :
    build_principals (str_value alice) (str_value dev ∷ []) ≡ ok alice_principals
build_principals_iff_example =
    (build_principals_iff (str_value alice) (str_value dev ∷ []) alice_principals).1
      (alice, dev ∷ [], refl, refl, alice-ArePrincipals)

validate_principals_iff_example :
    validate_principals (tuple_value (str_value alice ∷ str_value (codes "group:dev") ∷ []))
    ≡ ok alice_principals
validate_principals_iff_example =
    (validate_principals_iff (tuple_value (str_value alice ∷ str_value (codes "group:dev") ∷ []))
        alice_principals).1
      (refl, (alice, dev ∷ [], alice-ArePrincipals))

abbrev secure_file : FileMetadata
secure_file = record {
  is_regular = true;
  uid = 0;
  gid = 0;
  group_writable = false;
  other_writable = false;
}

validate_secure_file_iff_example : validate_secure_file (some secure_file) 0 0 ≡ ok tt
validate_secure_file_iff_example = (validate_secure_file_iff (some secure_file) 0 0).1 (
  secure_file,
  refl,
  record { regular = refl; owner = refl; group = refl; group_safe = refl; others_safe = refl },
)

-- A manager that counts its commands and answers each with 0, as for an active unit.
abbrev manager : List Text → ℕ → Option ℤ × ℕ
manager command n = (some (pos 0), suc n)

notify_after_mutation_iff_example : (succeeded (notify_after_mutation manager 0).0 ≡ true) ↔ (
    (some (pos 0) ≡ some (pos 3)) ⊎ ((some (pos 0) ≡ some (pos 0)) × (some (pos 0) ≡ some (pos 0))))
notify_after_mutation_iff_example = notify_after_mutation_iff manager 0
