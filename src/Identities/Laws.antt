-- ===== src/Identities/Laws.antt =====
-- What the identity store of src/ski/identities.py promises the issuer.
use mathlib.Core.Path.{subst}
use server_key_injection.Base.{
  ◌≡◌, refl, sym, ap, ◌∙◌, ◌↔◌, Bool, true, false, not, Option, none, some, List, [], ◌∷◌, map,
  Result, ok, err, raise_if, map_err-eq-ok, arith, contains, IsDistinct, All, if◌then◌else◌, ◌==◌,
  nat_eq, list_eq, list_beq_iff, Ensures, Ensures->>=, Ensures-map_err, ensured, Bool-cases, inl,
  inr, ok-injective,
}
use server_key_injection.Base.Text.{Text, codes}
use server_key_injection.Policy.Values.{Value, str_value}
use server_key_injection.Policy
use server_key_injection.Policy.{username_pattern, group_pattern, group_principal, build_principals}
use server_key_injection.Policy.Shape.{ArePrincipals}
use server_key_injection.Policy.Laws.{build_principals_of, validate_username-eq-ok}
use server_key_injection.Issuance.{IdentitySnapshot}
use server_key_injection.Identities.Repository.{
  IdentityTables, UserRow, user_row, user_group_rows, find_user,
}
use server_key_injection.Identities.{
  IdentityError, UserRecord, not_found, validation_error, validate_username, validate_group_name,
  check_groups, groups_for, validate_enabled, Hasher, check_password, malformed_data, as_filled,
}
use server_key_injection.Identities.Store.{
  record_from_row, get_user, get_group_snapshot, validate_totp_secret, verify_password,
}

checked_username :
    (v : Value) (u : Text)
    → validate_username v ≡ ok u
    → (v ≡ str_value u) × (username_pattern u ≡ true)
unfolding validate_username
checked_username v u h = validate_username-eq-ok v (
    map_err-eq-ok (λ _. validation_error (codes "username is not canonical"))
      (Policy.validate_username v) h)

checked_group : (s g : Text) → validate_group_name (str_value s) ≡ ok g → group_pattern g ≡ true
unfolding validate_group_name Policy.validate_group_name
checked_group s g h = ground arith

-- Distinct canonical groups, none of them seen before.
record AreGroups (seen gs : List Text) : Type 0 where
  canonical : All (λ g. group_pattern g ≡ true) gs
  distinct : IsDistinct gs
  unseen : All (λ g. contains seen g ≡ false) gs

not_again :
    (name : Text) (seen gs : List Text)
    → All (λ g. contains (name ∷ seen) g ≡ false) gs
    → contains gs name ≡ false
unfolding contains
not_again name seen [] h = refl
not_again name seen (g ∷ gs) h =
    ground (arith, not_again name seen gs h.1, list_beq_iff g name, list_beq_iff name g)

unseen_before :
    (name : Text) (seen gs : List Text)
    → All (λ g. contains (name ∷ seen) g ≡ false) gs
    → All (λ g. contains seen g ≡ false) gs
unfolding contains
unseen_before name seen [] h = tt
unseen_before name seen (g ∷ gs) h = (ground arith, unseen_before name seen gs h.1)

passed : {E : Type 0} (b : Bool) (e : E) (u : Unit {0}) → raise_if b e ≡ ok u → b ≡ false
passed false e u h = refl
passed true e u h = absurd (cc)

check_groups-AreGroups :
    (existing seen gs : List Text) → Ensures (AreGroups seen) (check_groups existing seen gs)
unfolding check_groups Ensures
check_groups-AreGroups existing seen [] = record { canonical = tt; distinct = tt; unseen = tt }
check_groups-AreGroups existing seen (g ∷ gs) =
    Ensures->>= (AreGroups seen) (validate_group_name (str_value g)) _ λ name named.
      Ensures->>= (AreGroups seen) (raise_if (not (contains existing name)) _) _ λ _ _.
        Ensures->>= (AreGroups seen) (raise_if (contains seen name) _) _ λ u new.
          Ensures->>= (AreGroups seen) (check_groups existing (name ∷ seen) gs) _ λ rest checked.
            let h =
              ensured (AreGroups (name ∷ seen)) (check_groups existing (name ∷ seen) gs)
                (check_groups-AreGroups existing (name ∷ seen) gs) checked in
            record {
              canonical = (checked_group g name named, h.canonical);
              distinct = (not_again name seen rest h.unseen, h.distinct);
              unseen = (passed (contains seen name) _ u new, unseen_before name seen rest h.unseen);
            }

abbrev IsCertifiable : Text → List Text → Type 0
IsCertifiable username groups =
    ArePrincipals (username ∷ map group_principal groups) username groups

abbrev IsCertifiableRecord : UserRecord → Type 0
IsCertifiableRecord user = IsCertifiable user.username user.groups

-- What `get_user` returns for the name it is given.
abbrev IsFound : Value → UserRecord → Type 0
IsFound value user = (value ≡ str_value user.username) × IsCertifiableRecord user

abbrev name_in : Option UserRow → Text
name_in none = []
name_in (some row) = row.username

check_password_iff :
    (hasher : Hasher) (password : Text) (dummy : Option Text) (t : IdentityTables)
    (r : Result IdentityError UserRecord)
    → ((check_password hasher password dummy t r).0 ≡ true) ↔ (
        (user : UserRecord) × (r ≡ ok user)
        × (user.enabled ≡ true)
        × (hasher.verifies user.password_verifier password ≡ true))
unfolding check_password
check_password_iff hasher password dummy t (err (not_found m)) =
    (λ h. absurd (cc), λ (u, e, _, _). absurd (cc e))
check_password_iff hasher password dummy t (err _) =
    (λ h. absurd (cc), λ (u, e, _, _). absurd (cc e))
check_password_iff hasher password dummy t (ok user) = (
  λ h. (user, refl, ground arith, ground arith),
  λ (u, e, enabled, verified).
      let same : user ≡ u = ok-injective e in
      accepted (ap (λ (x : UserRecord). x.enabled) same ∙ enabled)
        (ap (λ (x : UserRecord). hasher.verifies x.password_verifier password) same ∙ verified),
)
  where
    accepted :
        user.enabled ≡ true
        → hasher.verifies user.password_verifier password ≡ true
        → (check_password hasher password dummy t (ok user)).0 ≡ true
    accepted enabled verified = rw (enabled, verified)

module _ (is_totp_secret : Text → Bool) (t : IdentityTables) where
  read_user :
      (row : UserRow)
      → Ensures (IsFound (str_value row.username)) (record_from_row is_totp_secret t row)
  unfolding record_from_row Ensures groups_for
  read_user row = Ensures-map_err (IsFound (str_value row.username)) malformed_data _ (
      Ensures->>= (IsFound (str_value row.username)) (validate_username (str_value row.username)) _
        λ username named.
          Ensures->>= (IsFound (str_value row.username)) (as_filled row.password_verifier _) _
            λ _ _.
              Ensures->>= (IsFound (str_value row.username))
                (validate_totp_secret is_totp_secret row.totp_secret) _
                λ _ _.
                  Ensures->>= (IsFound (str_value row.username)) (validate_enabled row.enabled) _
                    λ _ _.
                      Ensures->>= (IsFound (str_value row.username))
                        (check_groups t.groups [] (user_group_rows t username)) _
                        λ groups grouped.
                          let (same, canonical) =
                            checked_username (str_value row.username) username named in
                          let h =
                            ensured (AreGroups [])
                              (check_groups t.groups [] (user_group_rows t username))
                              (check_groups-AreGroups t.groups [] (user_group_rows t username))
                              grouped in
                          (
                            same,
                            record {
                              shape = refl;
                              canonical_user = canonical;
                              canonical_groups = h.canonical;
                              distinct_groups = h.distinct;
                            },
                          ))

  named_row :
      (rows : List UserRow) (username : Text) (row : UserRow)
      → find_user rows username ≡ some row
      → row.username ≡ username
  unfolding find_user
  named_row [] username row h = absurd (cc)
  named_row (r ∷ rows) username row h = elim (Bool-cases (r.username == username)) [
    | inl same ↦
        let first : some r ≡ some row =
          sym (ap (λ b. if b then some r else find_user rows username) same) ∙ h in
        ground (arith, list_beq_iff r.username username, ap name_in first)
    | inr other ↦
        named_row rows username row
          (sym (ap (λ b. if b then some r else find_user rows username) other) ∙ h)
  ]

  read_row :
      (value : Value) (username : Text) (o : Option UserRow)
      → value ≡ str_value username
      → user_row t username ≡ o
      → Ensures (IsFound value) (elim o [
        | none ↦ err (not_found (codes "user is not available"))
        | some row ↦ record_from_row is_totp_secret t row
      ])
  unfolding Ensures
  read_row value username none same h = tt
  read_row value username (some row) same h =
      subst (λ v. Ensures (IsFound v) (record_from_row is_totp_secret t row))
        (ap str_value (named_row t.users username row h) ∙ sym same) (read_user row)

  found : (value : Value) → Ensures (IsFound value) (get_user is_totp_secret t value)
  unfolding get_user
  found value = Ensures->>= (IsFound value) (validate_username value) _ λ username named.
      read_row value username (user_row t username) (checked_username value username named).0 refl

  snapshot_found :
      (value : Value)
      → Ensures
          (λ (s : IdentitySnapshot).
            (value ≡ str_value s.username) × IsCertifiable s.username s.groups)
          (get_group_snapshot is_totp_secret t value)
  unfolding get_group_snapshot Ensures
  snapshot_found value = Ensures->>= _ (get_user is_totp_secret t value) _ λ user got.
      Ensures->>= _ (raise_if (not user.enabled) _) _
        λ _ _. ensured (IsFound value) (get_user is_totp_secret t value) (found value) got

  -- Every snapshot that the store returns can be certified: it is for the name that was asked for,
  -- and the policy builds the principals of that user and those groups from it, in order.
  pub get_group_snapshot-certifiable :
      (value : Value) (snapshot : IdentitySnapshot)
      → get_group_snapshot is_totp_secret t value ≡ ok snapshot
      → (value ≡ str_value snapshot.username)
        × (build_principals (str_value snapshot.username) (map str_value snapshot.groups)
            ≡ ok (snapshot.username ∷ map group_principal snapshot.groups))
  get_group_snapshot-certifiable value snapshot h =
      let (same, are) =
        ensured
          (λ (s : IdentitySnapshot).
            (value ≡ str_value s.username) × IsCertifiable s.username s.groups)
          (get_group_snapshot is_totp_secret t value) (snapshot_found value) h in
      (same, build_principals_of snapshot.username snapshot.groups are)

  -- A password is accepted exactly when the user is found and enabled, and the hasher verifies the
  -- stored verifier; every error and every other user is a refusal.
  pub verify_password_iff :
      (hasher : Hasher) (username : Value) (password : Text) (dummy : Option Text)
      → ((verify_password is_totp_secret hasher username password dummy t).0 ≡ true) ↔ (
          (user : UserRecord) × (get_user is_totp_secret t username ≡ ok user)
          × (user.enabled ≡ true)
          × (hasher.verifies user.password_verifier password ≡ true))
  unfolding verify_password
  verify_password_iff hasher username password dummy =
      check_password_iff hasher password dummy t (get_user is_totp_secret t username)
