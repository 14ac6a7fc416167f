-- ===== src/Identities/Reachable.antt =====
-- The tables that calls of `SqliteIdentityStore` in src/ski/identities.py reach from empty ones.
use server_key_injection.Base.{
  Bool, true, false, not, Option, none, some, Result, ok, err, if_either, map_err,
}
use server_key_injection.Base.Text.{Text, codes}
use server_key_injection.Policy.Values.{Value, bool_value, str_value}
use server_key_injection.State.Tables.{SqlError}
use server_key_injection.Identities.Repository.{
  IdentityTables, UserRow, Assignment, no_identities, insert_user, update_user, insert_group,
  user_row, set_password_verifier,
}
use server_key_injection.Identities.{
  IdentityError, already_exists, UserRecord, Hasher, check_password, validate_group_name, not_found,
  rehash,
}
use server_key_injection.Identities.Store.{
  create_user, create_checked, after_insert, check_user, update_and_get, update_checked,
  set_user_enabled, replace_password, replace_totp_secret, verify_password, get_user, create_group,
  delete_group, delete_checked, check_removal, add_membership, remove_membership, change_checked,
  check_membership,
}
use server_key_injection.Identities.Steps.{
  IsWellFormed, IsWellFormedAfter, insert_user-IsWellFormed, update_user-IsWellFormed,
  insert_group-IsWellFormed, remove_group-IsWellFormed, change_membership-IsWellFormed,
}

-- One call of an operation that may change the tables, whether it returns or raises.
pub data IsStep (is_totp_secret : Text → Bool) (t : IdentityTables) : IdentityTables → Type 0 where
  created :
      (hash : Text → Text) (username password secret : Value)
      → IsStep is_totp_secret t (create_user is_totp_secret hash username password secret t).1
  enabled :
      (username state : Value)
      → IsStep is_totp_secret t (set_user_enabled is_totp_secret username state t).1
  password_replaced :
      (hash : Text → Text) (username password : Value)
      → IsStep is_totp_secret t (replace_password is_totp_secret hash username password t).1
  secret_replaced :
      (username secret : Value)
      → IsStep is_totp_secret t (replace_totp_secret is_totp_secret username secret t).1
  password_verified :
      (hasher : Hasher) (username : Value) (password : Text) (dummy : Option Text)
      → IsStep is_totp_secret t
          (verify_password is_totp_secret hasher username password dummy t).1.1
  group_created : (name : Value) → IsStep is_totp_secret t (create_group name t).1
  group_removed : (name : Value) → IsStep is_totp_secret t (delete_group name t).1
  member_added :
      (group username : Value) → IsStep is_totp_secret t (add_membership group username t).1
  member_removed :
      (group username : Value) → IsStep is_totp_secret t (remove_membership group username t).1

pub data IsReachable (is_totp_secret : Text → Bool) : IdentityTables → Type 0 where
  empty : IsReachable is_totp_secret no_identities
  later :
      (t t' : IdentityTables)
      → IsReachable is_totp_secret t
      → IsStep is_totp_secret t t'
      → IsReachable is_totp_secret t'

module _ (is_totp_secret : Text → Bool) (t : IdentityTables) (h : IsWellFormed t) where
  inserted :
      (username : Text) (p : Result SqlError (Unit {0}) × IdentityTables)
      → IsWellFormedAfter p
      → IsWellFormedAfter (after_insert is_totp_secret username p)
  unfolding after_insert
  inserted username (err _, t') k = k
  inserted username (ok _, t') k = k

  created_well :
      (hash : Text → Text) (r : Result IdentityError (Text × (Text × Text)))
      → IsWellFormedAfter (create_checked is_totp_secret hash r t)
  unfolding create_checked
  created_well hash (err e) = h
  created_well hash (ok (username, (password, secret))) =
      inserted username (insert_user username (hash password) secret t)
        (insert_user-IsWellFormed username (hash password) secret t h)

  assigned_well :
      (username : Text) (a : Assignment)
      → IsWellFormedAfter (update_and_get is_totp_secret username a t)
  unfolding update_and_get
  assigned_well username a = go (user_row t username)
    where
      go :
          (o : Option UserRow)
          → IsWellFormedAfter {A = Result IdentityError UserRecord} (elim o [
            | none ↦ (err (not_found (codes "user is not available")), t)
            | some _ ↦
                let t' = update_user username a t in
                (get_user is_totp_secret t' (str_value username), t')
          ])
      go none = h
      go (some _) = update_user-IsWellFormed username a t h

  updated_well :
      (r : Result IdentityError (Text × Assignment))
      → IsWellFormedAfter (update_checked is_totp_secret r t)
  updated_well (err e) = h
  updated_well (ok (username, a)) = assigned_well username a

  enabled_well :
      (username state : Value)
      → IsWellFormedAfter (set_user_enabled is_totp_secret username state t)
  unfolding set_user_enabled
  enabled_well username (bool_value b) = updated_well _
  enabled_well username _ = updated_well _

  rehashed_well :
      (hasher : Hasher) (user : UserRecord) (password : Text)
      → IsWellFormed (rehash hasher user password t)
  rehashed_well hasher user password =
      if_either IsWellFormed (hasher.needs_rehash user.password_verifier) _ _
        (λ _.
          update_user-IsWellFormed user.username (set_password_verifier (hasher.hash password)) t h)
        (λ _. h)

  checked_well :
      (hasher : Hasher) (password : Text) (dummy : Option Text)
      (r : Result IdentityError UserRecord)
      → IsWellFormed (check_password hasher password dummy t r).1.1
  unfolding check_password
  checked_well hasher password dummy (err (not_found _)) = h
  checked_well hasher password dummy (err _) = h
  checked_well hasher password dummy (ok user) =
      if_either (λ (p : Bool × (Option Text × IdentityTables)). IsWellFormed p.1.1)
        (not user.enabled) _ _ (λ _. h)
        λ _.
          if_either (λ (p : Bool × (Option Text × IdentityTables)). IsWellFormed p.1.1)
            (hasher.verifies user.password_verifier password) _ _
            (λ _. rehashed_well hasher user password) (λ _. h)

  group_created_well : (name : Value) → IsWellFormedAfter (create_group name t)
  unfolding create_group
  group_created_well name = go (validate_group_name name)
    where
      go :
          (r : Result IdentityError Text)
          → IsWellFormedAfter {A = Result IdentityError (Unit {0})} (elim r [
            | err e ↦ (err e, t)
            | ok name ↦
                let (r, t') = insert_group name t in
                (map_err (λ _. already_exists (codes "group already exists")) r, t')
          ])
      go (err e) = h
      go (ok name) = insert_group-IsWellFormed name t h

  group_removed_well : (r : Result IdentityError Text) → IsWellFormedAfter (delete_checked r t)
  unfolding delete_checked
  group_removed_well (err e) = h
  group_removed_well (ok name) = remove_group-IsWellFormed name t h

  member_well :
      (add : Bool) (r : Result IdentityError (Text × Text))
      → IsWellFormedAfter (change_checked add r t)
  unfolding change_checked
  member_well add (err e) = h
  member_well add (ok (group, username)) = change_membership-IsWellFormed group username add t h

  step_well : (t' : IdentityTables) → IsStep is_totp_secret t t' → IsWellFormed t'
  unfolding create_user replace_password replace_totp_secret verify_password delete_group
      add_membership remove_membership
  step_well _ (created hash username password secret) =
      created_well hash (check_user is_totp_secret username password secret)
  step_well _ (enabled username state) = enabled_well username state
  step_well _ (password_replaced hash username password) = updated_well _
  step_well _ (secret_replaced username secret) = updated_well _
  step_well _ (password_verified hasher username password dummy) =
      checked_well hasher password dummy (get_user is_totp_secret t username)
  step_well _ (group_created name) = group_created_well name
  step_well _ (group_removed name) = group_removed_well (check_removal name t)
  step_well _ (member_added group username) = member_well true (check_membership group username t)
  step_well _ (member_removed group username) =
      member_well false (check_membership group username t)

-- From empty tables, whatever calls the store has answered, returning or raising, its users,
-- groups and memberships are distinct, and every membership refers to a user and a group that are
-- there.
pub reachable-IsWellFormed :
    (is_totp_secret : Text → Bool) (t : IdentityTables)
    → IsReachable is_totp_secret t
    → IsWellFormed t
reachable-IsWellFormed is_totp_secret _ empty = record {
  users = tt;
  groups = tt;
  memberships = tt;
  referenced = tt;
}
reachable-IsWellFormed is_totp_secret _ (later t t' before step) =
    step_well is_totp_secret t (reachable-IsWellFormed is_totp_secret t before) t' step
