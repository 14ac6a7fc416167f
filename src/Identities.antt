-- ===== src/Identities.antt =====
-- src/ski/identities.py: `SqliteIdentityStore`, with the password hasher and the TOTP check as
-- parameters. What a closed or broken database raises is left out.
pub mod Store
pub mod Repository
pub mod Laws
pub mod Steps
pub mod Reachable
use server_key_injection.Base.{
  ℕ, zero, suc, Bool, true, false, not, ◌&&◌, ◌||◌, Option, none, some, List, [], ◌∷◌, ◌++◌, map,
  Result, ok, err, ◌>>=◌, ◌>>◌, raise_if, map_err, traverse, contains, distinct, if◌then◌else◌, Eq,
  ◌==◌, nat_eq, list_eq,
}
use server_key_injection.Base.Int.{ℤ, pos}
use server_key_injection.Base.Text.{Text, codes}
use server_key_injection.Policy.Values.{Value, bool_value, int_value, str_value, value_eq}
use server_key_injection.Policy
use server_key_injection.Issuance.{IdentitySnapshot}
use server_key_injection.State.Tables.{SqlError}
use Repository.{
  UserRow, IdentityTables, user_row, find_user, user_rows, insert_user, Assignment, set_enabled,
  set_password_verifier, set_totp_secret, update_user, group_rows, group_exists,
  group_membership_rows, user_group_rows, insert_group, remove_group, change_membership, is_some,
}

-- `IdentityStoreError` and its subclasses, with the message.
pub data IdentityError : Type 0 where
  store_error validation_error already_exists not_found disabled data_error unavailable :
      Text → IdentityError

-- `UserRecord`, `UserSummary` and `UserDetail`
pub record UserRecord : Type 0 where
  pub username : Text
  pub password_verifier : Text
  pub totp_secret : Text
  pub enabled : Bool
  pub groups : List Text

pub record UserSummary : Type 0 where
  pub username : Text
  pub enabled : Bool

pub record UserDetail : Type 0 where
  pub username : Text
  pub enabled : Bool
  pub groups : List Text

abbrev Outcome : Type 0 → Type 0
Outcome = Result IdentityError

unfoldable pub validate_username : Value → Outcome Text
validate_username value =
    map_err (λ _. validation_error (codes "username is not canonical"))
      (Policy.validate_username value)

unfoldable pub validate_group_name : Value → Outcome Text
validate_group_name value =
    map_err (λ _. validation_error (codes "group name is not canonical"))
      (Policy.validate_group_name value)

-- `_validate_enabled`, for which Python's `True` is 1 and `False` is 0
unfoldable pub validate_enabled : Value → Outcome Bool
validate_enabled (int_value (pos zero)) = ok false
validate_enabled (int_value (pos (suc zero))) = ok true
validate_enabled (bool_value b) = ok b
validate_enabled _ = err (data_error (codes "enabled state is malformed"))

-- `lookup_identity` of the store
unfoldable pub lookup_identity : Value → Outcome Text
lookup_identity value = validate_username value

-- A text that is not empty.
abbrev as_filled : Value → IdentityError → Outcome Text
as_filled (str_value (c ∷ s)) e = ok (c ∷ s)
as_filled _ e = err e

-- `except IdentityStoreError as exc: raise IdentityDataError(...)`
abbrev malformed_data : IdentityError → IdentityError
malformed_data _ = data_error (codes "identity data is malformed")

-- The loop of `_groups_for`, on the names it has seen.
unfoldable pub check_groups : List Text → List Text → List Text → Outcome (List Text)
unfolding validate_group_name
check_groups existing seen [] = ok []
check_groups existing seen (g ∷ gs) = do
  name ← validate_group_name (str_value g)
  raise_if (not (contains existing name)) (data_error (codes "group membership is malformed"))
  raise_if (contains seen name) (data_error (codes "group membership is duplicated"))
  rest ← check_groups existing (name ∷ seen) gs
  ok (name ∷ rest)

unfoldable pub groups_for : IdentityTables → Text → Outcome (List Text)
unfolding check_groups
groups_for t username = check_groups t.groups [] (user_group_rows t username)

-- The argon2 hasher: what `hash` gives, whether `verify` returns and does not raise, and
-- `check_needs_rehash`.
pub record Hasher : Type 0 where
  pub hash : Text → Text
  pub verifies : Text → Text → Bool
  pub needs_rehash : Text → Bool

-- `_verify_dummy_password`: the cached verifier of the dummy password
abbrev pub dummy_verifier : Hasher → Option Text → Option Text
dummy_verifier hasher none = some (hasher.hash (codes "ski-dummy-password"))
dummy_verifier hasher (some verifier) = some verifier

abbrev pub rehash : Hasher → UserRecord → Text → IdentityTables → IdentityTables
rehash hasher user password t =
    if hasher.needs_rehash user.password_verifier
    then update_user user.username (set_password_verifier (hasher.hash password)) t
    else t

-- `verify_password` behind `get_user`, with the cached dummy verifier and the tables after it
unfoldable pub check_password :
    Hasher
    → Text
    → Option Text
    → IdentityTables
    → Outcome UserRecord
    → Bool × (Option Text × IdentityTables)
check_password hasher password dummy t (err (not_found _)) =
    (false, (dummy_verifier hasher dummy, t))
check_password hasher password dummy t (err _) = (false, (dummy, t))
check_password hasher password dummy t (ok user) =
    if not user.enabled
    then (false, (dummy_verifier hasher dummy, t))
    else (if hasher.verifies user.password_verifier password
        then (true, (dummy, rehash hasher user password t))
        else (false, (dummy, t)))
