-- ===== src/Identities/Repository.antt =====
-- src/ski/identity_persistence.py: the statements on the tables of users and groups, and the
-- constraints that src/ski/migrations.py puts on them. A name column holds a text.
use server_key_injection.Base.{
  Bool, true, false, not, ◌&&◌, Option, none, some, List, [], ◌∷◌, ◌++◌, filter, contains, ok, err,
  if◌then◌else◌, ◌==◌, nat_eq, list_eq, pair_eq, sorted, lex_le,
}
use server_key_injection.Base.Int.{pos}
use server_key_injection.Base.Text.{Text}
use server_key_injection.Policy.Values.{Value, int_value, str_value}
use server_key_injection.State.Exec.{Run}
use server_key_injection.State.Tables.{SqlError, integrity}

-- A row of `users`.
pub record UserRow : Type 0 where
  pub username : Text
  pub password_verifier : Value
  pub totp_secret : Value
  pub enabled : Value

-- The tables `users`, `groups` and `user_groups`; a membership is (username, group_name).
pub record IdentityTables : Type 0 where
  pub users : List UserRow
  pub groups : List Text
  pub memberships : List (Text × Text)

abbrev pub no_identities : IdentityTables
no_identities = record { users = []; groups = []; memberships = [] }

abbrev pub Sql : Type 0 → Type 0
Sql = Run IdentityTables SqlError

-- `user_row`
unfoldable pub find_user : List UserRow → Text → Option UserRow
find_user [] username = none
find_user (row ∷ rows) username =
    if row.username == username then some row else find_user rows username

abbrev pub user_row : IdentityTables → Text → Option UserRow
user_row t username = find_user t.users username

abbrev pub is_some : {A : Type 0} → Option A → Bool
is_some none = false
is_some (some _) = true

-- `user_rows`, ORDER BY username
unfoldable pub insert_user_row : UserRow → List UserRow → List UserRow
insert_user_row row [] = row ∷ []
insert_user_row row (r ∷ rows) =
    if lex_le row.username r.username then row ∷ r ∷ rows else r ∷ insert_user_row row rows

unfoldable pub user_rows : List UserRow → List UserRow
unfolding insert_user_row
user_rows [] = []
user_rows (row ∷ rows) = insert_user_row row (user_rows rows)

-- `insert_user`: the primary key refuses a name that is there.
unfoldable pub insert_user : Text → Text → Text → Sql (Unit {0})
unfolding find_user
insert_user username verifier totp_secret t =
    if is_some (user_row t username) then (err integrity, t) else (
      ok tt,
      record t {
        users =
            t.users
            ++ record {
              username = username;
              password_verifier = str_value verifier;
              totp_secret = str_value totp_secret;
              enabled = int_value (pos 1);
            }
              ∷ [];
      },
    )

-- The assignments that `update_user` is called with.
pub data Assignment : Type 0 where
  set_enabled : Bool → Assignment
  set_password_verifier : Text → Assignment
  set_totp_secret : Text → Assignment

abbrev pub assign : Assignment → UserRow → UserRow
assign (set_enabled true) row = record row { enabled = int_value (pos 1) }
assign (set_enabled false) row = record row { enabled = int_value (pos 0) }
assign (set_password_verifier verifier) row = record row { password_verifier = str_value verifier }
assign (set_totp_secret secret) row = record row { totp_secret = str_value secret }

-- `UPDATE users SET ... WHERE username = ?`
unfoldable pub update_rows : Text → Assignment → List UserRow → List UserRow
update_rows username assignment [] = []
update_rows username assignment (row ∷ rows) =
    let rest = update_rows username assignment rows in
    (if row.username == username then assign assignment row else row) ∷ rest

-- `update_user`; a user that is not there changes nothing.
unfoldable pub update_user : Text → Assignment → IdentityTables → IdentityTables
unfolding update_rows
update_user username assignment t = record t { users = update_rows username assignment t.users }

-- `group_rows`, `group_exists`, `group_membership_rows` and `user_group_rows`
abbrev pub group_rows : IdentityTables → List Text
group_rows t = sorted t.groups

abbrev pub group_exists : IdentityTables → Text → Bool
group_exists t name = contains t.groups name

unfoldable pub members_of : List (Text × Text) → Text → List Text
members_of [] name = []
members_of ((username, group) ∷ ms) name =
    let rest = members_of ms name in if group == name then username ∷ rest else rest

unfoldable pub groups_of : List (Text × Text) → Text → List Text
groups_of [] name = []
groups_of ((username, group) ∷ ms) name =
    let rest = groups_of ms name in if username == name then group ∷ rest else rest

unfoldable pub group_membership_rows : IdentityTables → Text → List Text
unfolding members_of
group_membership_rows t name = sorted (members_of t.memberships name)

unfoldable pub user_group_rows : IdentityTables → Text → List Text
unfolding groups_of
user_group_rows t username = sorted (groups_of t.memberships username)

-- `create_group`
unfoldable pub insert_group : Text → Sql (Unit {0})
insert_group name t =
    if group_exists t name
    then (err integrity, t)
    else (ok tt, record t { groups = t.groups ++ name ∷ [] })

-- `remove_group`: whether one row was deleted; a group with members stays.
unfoldable pub remove_group : Text → IdentityTables → Bool × IdentityTables
unfolding members_of
remove_group name t = elim (members_of t.memberships name) [
  | _ ∷ _ ↦ (false, t)
  | [] ↦ (contains t.groups name, record t { groups = filter (λ g. not (g == name)) t.groups })
]

-- `change_membership`: whether the membership was changed; the primary key refuses one that is there.
unfoldable pub change_membership : Text → Text → Bool → Sql Bool
unfolding find_user
change_membership group username add t =
    if not (group_exists t group && is_some (user_row t username))
    then (ok false, t)
    else (if add
        then (if contains t.memberships (username, group)
            then (err integrity, t)
            else (ok true, record t { memberships = t.memberships ++ (username, group) ∷ [] }))
        else (
          ok (contains t.memberships (username, group)),
          record t { memberships = filter (λ m. not (m == (username, group))) t.memberships },
        ))
