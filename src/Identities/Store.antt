-- ===== src/Identities/Store.antt =====
-- The operations of `SqliteIdentityStore` in src/ski/identities.py.
use server_key_injection.Base.{
  Bool, true, false, not, ◌&&◌, Option, none, some, List, [], Result, ok, err, ◌>>=◌, ◌>>◌,
  raise_if, map_err, traverse, distinct, ◌==◌, nat_eq, list_eq,
}
use server_key_injection.Base.Text.{Text, codes}
use server_key_injection.Policy.Values.{Value, bool_value, str_value, value_eq}
use server_key_injection.Issuance.{IdentitySnapshot}
use server_key_injection.State.Tables.{SqlError}
use server_key_injection.Identities.Repository.{
  UserRow, IdentityTables, user_row, user_rows, insert_user, Assignment, set_enabled,
  set_password_verifier, set_totp_secret, update_user, group_rows, group_exists,
  group_membership_rows, insert_group, remove_group, change_membership, is_some,
}
use server_key_injection.Identities.{
  IdentityError, UserRecord, UserSummary, UserDetail, Outcome, validate_username,
  validate_group_name, validate_enabled, as_filled, malformed_data, groups_for, Hasher,
  check_password, store_error, validation_error, already_exists, not_found, disabled, data_error,
}

module _ (is_totp_secret : Text → Bool) where
  -- `_validate_totp_secret`, where `pyotp.TOTP` accepts what `is_totp_secret` holds of
  unfoldable pub validate_totp_secret : Value → Outcome Text
  validate_totp_secret value = do
    secret ← as_filled value (validation_error (codes "TOTP secret is malformed"))
    raise_if (not (is_totp_secret secret)) (validation_error (codes "TOTP secret is malformed"))
    ok secret

  -- `_record_from_row`
  unfoldable pub record_from_row : IdentityTables → UserRow → Outcome UserRecord
  unfolding validate_username validate_totp_secret validate_enabled groups_for
  record_from_row t row = map_err malformed_data (do
    username ← validate_username (str_value row.username)
    verifier ← as_filled row.password_verifier (data_error (codes "password verifier is malformed"))
    totp_secret ← validate_totp_secret row.totp_secret
    enabled ← validate_enabled row.enabled
    groups ← groups_for t username
    ok (record {
      username = username;
      password_verifier = verifier;
      totp_secret = totp_secret;
      enabled = enabled;
      groups = groups;
    }))

  unfoldable pub get_user : IdentityTables → Value → Outcome UserRecord
  unfolding record_from_row
  get_user t value = do
    username ← validate_username value
    elim (user_row t username) [
      | none ↦ err (not_found (codes "user is not available"))
      | some row ↦ record_from_row t row
    ]

  unfoldable pub get_user_detail : IdentityTables → Value → Outcome UserDetail
  get_user_detail t value = do
    user ← get_user t value
    ok (record { username = user.username; enabled = user.enabled; groups = user.groups })

  unfoldable pub get_group_snapshot : IdentityTables → Value → Outcome IdentitySnapshot
  get_group_snapshot t value = do
    user ← get_user t value
    raise_if (not user.enabled) (disabled (codes "user is disabled"))
    ok (record { username = user.username; groups = user.groups })

  abbrev summary_of : UserRow → Outcome UserSummary
  summary_of row = do
    username ← validate_username (str_value row.username)
    enabled ← validate_enabled row.enabled
    ok (record { username = username; enabled = enabled })

  unfoldable pub list_users : IdentityTables → Outcome (List UserSummary)
  list_users t = map_err malformed_data (traverse summary_of (user_rows t.users))

  abbrev pub Changed : Type 0 → Type 0
  Changed A = Outcome A × IdentityTables

  abbrev taken_or : IdentityError → Result SqlError (Unit {0}) → Outcome (Unit {0})
  taken_or e r = map_err (λ _. e) r

  -- The checks of the arguments of `create_user`.
  unfoldable pub check_user : Value → Value → Value → Outcome (Text × (Text × Text))
  check_user username password totp_secret = do
    username ← validate_username username
    password ← as_filled password (validation_error (codes "password is malformed"))
    totp_secret ← validate_totp_secret totp_secret
    ok (username, (password, totp_secret))

  unfoldable pub after_insert :
      Text → Result SqlError (Unit {0}) × IdentityTables → Changed UserRecord
  unfolding get_user
  after_insert username (err _, t) = (err (already_exists (codes "user already exists")), t)
  after_insert username (ok _, t) = (get_user t (str_value username), t)

  unfoldable pub create_checked :
      (hash : Text → Text) → Outcome (Text × (Text × Text)) → IdentityTables → Changed UserRecord
  unfolding after_insert
  create_checked hash (err e) t = (err e, t)
  create_checked hash (ok (username, (password, totp_secret))) t =
      after_insert username (insert_user username (hash password) totp_secret t)

  -- `create_user`, with the hash that the hasher gives for the password
  unfoldable pub create_user :
      (hash : Text → Text) → Value → Value → Value → IdentityTables → Changed UserRecord
  unfolding check_user create_checked
  create_user hash username password totp_secret =
      create_checked hash (check_user username password totp_secret)

  -- `_update_user` of a checked name, and the record after it
  unfoldable pub update_and_get : Text → Assignment → IdentityTables → Changed UserRecord
  unfolding get_user
  update_and_get username assignment t = elim (user_row t username) [
    | none ↦ (err (not_found (codes "user is not available")), t)
    | some _ ↦ let t' = update_user username assignment t in (get_user t' (str_value username), t')
  ]

  abbrev pub update_checked : Outcome (Text × Assignment) → IdentityTables → Changed UserRecord
  update_checked (err e) t = (err e, t)
  update_checked (ok (username, assignment)) t = update_and_get username assignment t

  unfoldable pub set_user_enabled : Value → Value → IdentityTables → Changed UserRecord
  unfolding update_and_get
  set_user_enabled username (bool_value enabled) =
      update_checked (do username ← validate_username username; ok (username, set_enabled enabled))
  set_user_enabled username _ =
      update_checked
        (do validate_username username; err (validation_error (codes "enabled state is malformed")))

  unfoldable pub replace_password :
      (hash : Text → Text) → Value → Value → IdentityTables → Changed UserRecord
  unfolding update_and_get
  replace_password hash username password = update_checked (do
    username ← validate_username username
    password ← as_filled password (validation_error (codes "password is malformed"))
    ok (username, set_password_verifier (hash password)))

  unfoldable pub replace_totp_secret : Value → Value → IdentityTables → Changed UserRecord
  unfolding update_and_get
  replace_totp_secret username totp_secret = update_checked (do
    username ← validate_username username
    totp_secret ← validate_totp_secret totp_secret
    ok (username, set_totp_secret totp_secret))

  unfoldable pub verify_password :
      Hasher → Value → Text → Option Text → IdentityTables → Bool × (Option Text × IdentityTables)
  unfolding check_password
  verify_password hasher username password dummy t =
      check_password hasher password dummy t (get_user t username)

  -- `verify_totp`; `verifies` is the verifier given, or pyotp's with a window of one step
  unfoldable pub verify_totp :
      (verifies : Text → Text → Bool) → IdentityTables → Value → Value → Bool
  unfolding get_user
  verify_totp verifies t username code = elim (get_user t username) [
    | err _ ↦ false
    | ok user ↦ user.enabled && elim code [ str_value s ↦ verifies user.totp_secret s | _ ↦ false ]
  ]

abbrev pub Change : Type 0
Change = IdentityTables → Outcome (Unit {0}) × IdentityTables

unfoldable pub create_group : Value → Change
create_group name t = elim (validate_group_name name) [
  | err e ↦ (err e, t)
  | ok name ↦
      let (r, t') = insert_group name t in
      (map_err (λ _. already_exists (codes "group already exists")) r, t')
]

unfoldable pub list_groups : IdentityTables → Outcome (List Text)
list_groups t =
    map_err malformed_data (traverse (λ g. validate_group_name (str_value g)) (group_rows t))

abbrev keep_not_found : IdentityError → IdentityError
keep_not_found (not_found m) = not_found m
keep_not_found _ = data_error (codes "identity data is malformed")

unfoldable pub get_group_members : IdentityTables → Value → Outcome (List Text)
get_group_members t value = do
  name ← validate_group_name value
  map_err keep_not_found (do
    raise_if (not (group_exists t name)) (not_found (codes "group is not available"))
    members ← traverse (λ u. validate_username (str_value u)) (group_membership_rows t name)
    raise_if (not (distinct members)) (data_error (codes "group membership is duplicated"))
    ok members)

-- The checks of `remove_group` before the deletion.
unfoldable pub check_removal : Value → IdentityTables → Outcome Text
check_removal value t = do
  name ← validate_group_name value
  raise_if (not (group_exists t name)) (not_found (codes "group is not available"))
  raise_if (not (group_membership_rows t name == [])) (store_error (codes "group is not empty"))
  ok name

unfoldable pub delete_checked : Outcome Text → Change
delete_checked (err e) t = (err e, t)
delete_checked (ok name) t =
    let (removed, t') = remove_group name t in
    (raise_if (not removed) (not_found (codes "group is not available")), t')

-- `remove_group`
unfoldable pub delete_group : Value → Change
unfolding check_removal delete_checked
delete_group value t = delete_checked (check_removal value t) t

-- The checks of `add_membership` and `remove_membership`, and of `_change_membership`.
unfoldable pub check_membership : Value → Value → IdentityTables → Outcome (Text × Text)
check_membership group username t = do
  group ← validate_group_name group
  username ← validate_username username
  raise_if (not (group_exists t group)) (not_found (codes "group is not available"))
  raise_if (not (is_some (user_row t username))) (not_found (codes "user is not available"))
  ok (group, username)

abbrev changed : Result SqlError Bool → Outcome (Unit {0})
changed (err _) = err (already_exists (codes "membership already exists"))
changed (ok b) = raise_if (not b) (not_found (codes "membership is not available"))

unfoldable pub change_checked : Bool → Outcome (Text × Text) → Change
change_checked add (err e) t = (err e, t)
change_checked add (ok (group, username)) t =
    let (r, t') = change_membership group username add t in (changed r, t')

unfoldable pub add_membership : Value → Value → Change
unfolding check_membership change_checked
add_membership group username t = change_checked true (check_membership group username t) t

unfoldable pub remove_membership : Value → Value → Change
unfolding check_membership change_checked
remove_membership group username t = change_checked false (check_membership group username t) t
