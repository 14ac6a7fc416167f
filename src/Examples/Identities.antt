-- ===== src/Examples/Identities.antt =====
-- src/ski/identities.py on concrete values: the user alice in the group dev.
use server_key_injection.Base.{
  ℕ, ◌≡◌, refl, true, false, Bool, Option, none, some, List, [], ◌∷◌, Result, ok, err, map,
  list_beq, ◌==◌, nat_eq, list_eq,
}
use server_key_injection.Base.Int.{pos}
use server_key_injection.Base.Text.{Text, codes}
use server_key_injection.Policy.Values.{int_value, str_value}
use server_key_injection.Policy.{build_principals}
use server_key_injection.Identities.Repository.{IdentityTables, no_identities}
use server_key_injection.Identities.{Hasher, UserRecord}
use server_key_injection.Identities.Store.{
  get_user, get_group_snapshot, verify_password, create_user, create_group, add_membership,
}
use server_key_injection.Identities.Laws.{get_group_snapshot-certifiable, verify_password_iff}
use server_key_injection.Identities.Steps.{IsWellFormed}
use server_key_injection.Identities.Reachable.{
  IsReachable, reachable-IsWellFormed, empty, later, created, group_created, member_added,
}
use server_key_injection.Examples.Data.{alice, dev, alice_principals}

abbrev pub is_secret : Text → Bool
is_secret _ = true

abbrev hash : Text → Text
hash password = b'$' ∷ password

abbrev pub hasher : Hasher
hasher = record {
  hash = hash;
  verifies = λ verifier password. verifier == hash password;
  needs_rehash = λ _. false;
}

-- The tables after alice, dev and her membership are created.
abbrev with_user : IdentityTables
with_user =
    (create_user is_secret hash (str_value alice) (str_value (codes "pw")) (str_value (codes "S"))
      no_identities).1

abbrev with_group : IdentityTables
with_group = (create_group (str_value dev) with_user).1

abbrev tables : IdentityTables
tables = (add_membership (str_value dev) (str_value alice) with_group).1

reached : IsReachable is_secret tables
reached =
    later with_group tables
      (later with_user with_group
        (later no_identities with_user empty
          (created hash (str_value alice) (str_value (codes "pw")) (str_value (codes "S"))))
        (group_created (str_value dev)))
      (member_added (str_value dev) (str_value alice))

reachable-IsWellFormed_example : IsWellFormed tables
reachable-IsWellFormed_example = reachable-IsWellFormed is_secret tables reached

-- The same tables, written out.
abbrev pub stored : IdentityTables
stored = record {
  users =
      record {
        username = alice;
        password_verifier = str_value (hash (codes "pw"));
        totp_secret = str_value (codes "S");
        enabled = int_value (pos 1);
      }
      ∷ [];
  groups = dev ∷ [];
  memberships = (alice, dev) ∷ [];
}

tables-eq-stored : tables ≡ stored
unfolding create_user add_membership server_key_injection.Policy.validate_group_name
    server_key_injection.Policy.group_pattern server_key_injection.Base.all
    server_key_injection.Policy.validate_username server_key_injection.Policy.username_pattern
    server_key_injection.Base.contains create_group
    server_key_injection.Identities.Repository.insert_group
    server_key_injection.Identities.Repository.insert_user list_beq
    server_key_injection.Identities.Repository.change_membership
tables-eq-stored = refl

snapshot :
    get_group_snapshot is_secret stored (str_value alice)
    ≡ ok (record { username = alice; groups = dev ∷ [] })
unfolding get_group_snapshot get_user server_key_injection.Policy.validate_username
    server_key_injection.Policy.username_pattern server_key_injection.Base.all
    server_key_injection.Identities.Repository.find_user list_beq
    server_key_injection.Identities.Repository.user_group_rows server_key_injection.Base.sorted
    server_key_injection.Policy.validate_group_name server_key_injection.Policy.group_pattern
    server_key_injection.Base.contains
snapshot = refl

get_group_snapshot-certifiable_example :
    (str_value alice ≡ str_value alice)
    × (build_principals (str_value alice) (map str_value (dev ∷ [])) ≡ ok alice_principals)
get_group_snapshot-certifiable_example =
    get_group_snapshot-certifiable is_secret stored (str_value alice)
      (record { username = alice; groups = dev ∷ [] }) snapshot

abbrev user : UserRecord
user = record {
  username = alice;
  password_verifier = hash (codes "pw");
  totp_secret = codes "S";
  enabled = true;
  groups = dev ∷ [];
}

found : get_user is_secret stored (str_value alice) ≡ ok user
unfolding get_user server_key_injection.Policy.validate_username
    server_key_injection.Policy.username_pattern server_key_injection.Base.all
    server_key_injection.Identities.Repository.find_user list_beq
    server_key_injection.Identities.Repository.user_group_rows server_key_injection.Base.sorted
    server_key_injection.Policy.validate_group_name server_key_injection.Policy.group_pattern
    server_key_injection.Base.contains
found = refl

verify_password_iff_example :
    (verify_password is_secret hasher (str_value alice) (codes "pw") none stored).0 ≡ true
unfolding list_beq
verify_password_iff_example =
    (verify_password_iff is_secret stored hasher (str_value alice) (codes "pw") none).1
      (user, found, refl, refl)
