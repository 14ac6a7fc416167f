-- ===== src/Server/Sqlite.antt =====
-- The connection of src/ski/server.py on the identity store of src/ski/identities.py, which the
-- service gives it.
use mathlib.Core.Path.{subst}
use server_key_injection.Base.{
  ◌≡◌, refl, sym, ap, ◌∙◌, Bool-cases, inl, inr, Bool, true, false, ◌&&◌, Option, some, List, [],
  ◌∷◌, map, Result, ok, err, map_err, map_err-eq-ok, ok-injective, arith,
}
use server_key_injection.Base.Int.{ℤ}
use server_key_injection.Base.Text.{Text, codes}
use server_key_injection.Policy.{build_principals, group_principal, username_pattern}
use server_key_injection.Policy.Values.{Value, str_value}
use server_key_injection.Issuance.{IdentitySnapshot}
use server_key_injection.Identities.Repository.{IdentityTables}
use server_key_injection.Identities.{
  IdentityError, store_error, validation_error, already_exists, not_found, disabled, data_error,
  unavailable, Hasher, UserRecord, lookup_identity,
}
use server_key_injection.Identities.Store.{
  verify_password, verify_totp, get_group_snapshot, get_user,
}
use server_key_injection.Identities.Laws.{get_group_snapshot-certifiable, verify_password_iff}
use server_key_injection.Server.{
  IdentityProvider, Connection, validate_kbdint_response, Reply, nothing, challenge, flag, session,
}
use server_key_injection.Server.History.{
  Exchange, latest_accepted, IsReached, IsVerified, IsGrantedReply, AreGranted,
}
use server_key_injection.Server.Laws.{reached-AreGranted}
use server_key_injection.Policy
use server_key_injection.Identities

-- `type(exc).__name__`
abbrev pub class_name : IdentityError → Text
class_name (store_error _) = codes "IdentityStoreError"
class_name (validation_error _) = codes "IdentityValidationError"
class_name (already_exists _) = codes "IdentityAlreadyExistsError"
class_name (not_found _) = codes "IdentityNotFoundError"
class_name (disabled _) = codes "IdentityDisabledError"
class_name (data_error _) = codes "IdentityDataError"
class_name (unavailable _) = codes "IdentityUnavailableError"

text_of : Value → Text
text_of (str_value s) = s
text_of _ = []

-- The cached verifier of the dummy password, and the tables.
abbrev pub Store : Type 0
Store = Option Text × IdentityTables

module _ (is_totp_secret : Text → Bool) (hasher : Hasher) (verifies : ℤ → Text → Text → Bool) where
  -- `SqliteIdentityStore` as the capability that the issuer requires.
  abbrev pub sqlite_store : IdentityProvider Store
  sqlite_store = record {
    lookup_identity = λ username w. (map_err class_name (lookup_identity (str_value username)), w);
    verify_password = λ username password (dummy, t).
        let (accepted, w') =
          verify_password is_totp_secret hasher (str_value username) password dummy t in
        (ok accepted, w');
    verify_totp = λ username code now (dummy, t). (
      ok (verify_totp is_totp_secret (verifies now) t (str_value username) (str_value code)),
      (dummy, t),
    );
    get_group_snapshot = λ username (dummy, t).
        (map_err class_name (get_group_snapshot is_totp_secret t (str_value username)), (dummy, t));
  }

  -- The store after the password of a name was checked, which may have hashed it anew.
  abbrev pub password_checked : Store → Text → Text → Store
  password_checked w username password =
      (verify_password is_totp_secret hasher (str_value username) password w.0 w.1).1

  -- The user of a session against the exchange that was accepted: the client answered for the name of
  -- the session with a password and a code; on the identities that the exchange found, the user of that
  -- name was enabled and the password right; and after that check, the code was right by the secret of
  -- that user, and these are the groups of that user, from which the policy builds the principals.
  pub record IsAuthenticated (x : Exchange Store) (snapshot : IdentitySnapshot) : Type 0 where
    pub password : Text
    pub code : Text
    pub now : ℤ
    pub answered :
        x.callback ≡ validate_kbdint_response snapshot.username (password ∷ code ∷ []) now
    pub user : UserRecord
    pub found : get_user is_totp_secret x.before.1 (str_value snapshot.username) ≡ ok user
    pub enabled : user.enabled ≡ true
    pub verified : hasher.verifies user.password_verifier password ≡ true
    pub later_user : UserRecord
    pub later_found :
        get_user is_totp_secret
          (password_checked x.before snapshot.username password).1
          (str_value snapshot.username)
        ≡ ok later_user
    pub still_enabled : later_user.enabled ≡ true
    pub confirmed : verifies now later_user.totp_secret code ≡ true
    pub bound :
        get_group_snapshot is_totp_secret
          (password_checked x.before snapshot.username password).1
          (str_value snapshot.username)
        ≡ ok snapshot
    pub certifiable :
        build_principals (str_value snapshot.username) (map str_value snapshot.groups)
        ≡ ok (snapshot.username ∷ map group_principal snapshot.groups)

  verify_totp-true :
      (t : IdentityTables) (username code : Text) (now : ℤ)
      → verify_totp is_totp_secret (verifies now) t (str_value username) (str_value code) ≡ true
      → (user : UserRecord) × (get_user is_totp_secret t (str_value username) ≡ ok user)
        × (user.enabled ≡ true)
        × (verifies now user.totp_secret code ≡ true)
  unfolding verify_totp
  verify_totp-true t username code now h =
      go (get_user is_totp_secret t (str_value username)) refl h
    where
      go :
          (r : Result IdentityError UserRecord)
          → get_user is_totp_secret t (str_value username) ≡ r
          → elim r as (λ _. Bool) [
            | err _ ↦ false
            | ok user ↦ user.enabled && verifies now user.totp_secret code
          ]
            ≡ true
          → (user : UserRecord) × (get_user is_totp_secret t (str_value username) ≡ ok user)
            × (user.enabled ≡ true)
            × (verifies now user.totp_secret code ≡ true)
      go (err e) same k = absurd (cc)
      go (ok user) same k = (user, same, ground arith, ground arith)

  looked_up :
      (username canonical : Text)
      → lookup_identity (str_value username) ≡ ok canonical
      → username ≡ canonical
  unfolding lookup_identity Identities.validate_username Policy.validate_username
  looked_up username canonical h = elim (Bool-cases (username_pattern username)) [
    | inl e ↦ ok-injective {E = IdentityError} (rw e at h)
    | inr e ↦ absurd (ground arith)
  ]

  moved :
      (P : Store → Text → Type 0) {w w' : Store} {u u' : Text} → w ≡ w' → u ≡ u' → P w u → P w' u'
  moved P {w' = w'} {u = u} same_w same_u h = subst (P w') same_u (subst (λ v. P v u) same_w h)

  verified-IsAuthenticated :
      (x : Exchange Store) (snapshot : IdentitySnapshot)
      → IsVerified sqlite_store x snapshot
      → IsAuthenticated x snapshot
  unfolding text_of
  verified-IsAuthenticated x snapshot v =
      let bound : get_group_snapshot is_totp_secret v.confirmed.1 (str_value v.canonical)
          ≡ ok snapshot =
        map_err-eq-ok class_name
          (get_group_snapshot is_totp_secret v.confirmed.1 (str_value v.canonical))
          (ap (λ p. p.0) v.bound) in
      let (same, certifiable) =
        get_group_snapshot-certifiable is_totp_secret v.confirmed.1 (str_value v.canonical) snapshot
          bound in
      let name : v.canonical ≡ snapshot.username = ap text_of same in
      let given : v.username ≡ snapshot.username =
        looked_up v.username v.canonical (
          map_err-eq-ok class_name (lookup_identity (str_value v.username))
            (ap (λ p. p.0) v.lookup))
        ∙ name in
      let found_is : v.found ≡ x.before = sym (ap (λ p. p.1) v.lookup) in
      let checked_is : v.checked ≡ password_checked x.before snapshot.username v.password =
        sym (ap (λ p. p.1) v.password_ok)
        ∙ ap (λ w. password_checked w v.canonical v.password) found_is
        ∙ ap (λ u. password_checked x.before u v.password) name in
      let confirmed_is : v.confirmed ≡ v.checked = sym (ap (λ p. p.1) v.totp_ok) in
      let (user, found, enabled, verified) =
        (verify_password_iff is_totp_secret v.found.1 hasher (str_value v.canonical) v.password
            v.found.0).0
          (ok-injective (ap (λ p. p.0) v.password_ok)) in
      let (later_user, later_found, still_enabled, confirmed) =
        verify_totp-true v.checked.1 v.canonical v.code v.now
          (ok-injective (ap (λ p. p.0) v.totp_ok)) in
      record {
        password = v.password;
        code = v.code;
        now = v.now;
        answered =
            v.answered
            ∙ ap (λ u. validate_kbdint_response u (v.password ∷ v.code ∷ []) v.now) given;
        user = user;
        found =
            moved (λ w u. get_user is_totp_secret w.1 (str_value u) ≡ ok user) found_is name found;
        enabled = enabled;
        verified = verified;
        later_user = later_user;
        later_found =
            moved (λ w u. get_user is_totp_secret w.1 (str_value u) ≡ ok later_user) checked_is name
              later_found;
        still_enabled = still_enabled;
        confirmed = confirmed;
        bound =
            moved (λ w u. get_group_snapshot is_totp_secret w.1 (str_value u) ≡ ok snapshot)
              (confirmed_is ∙ checked_is) name bound;
        certifiable = certifiable;
      }

  -- Each session of a history is the one of the latest accepted answer before it.
  abbrev pub IsAuthenticatedReply : List (Exchange Store) → Reply → Type 0
  IsAuthenticatedReply history (session snapshot) =
      (x : Exchange Store) × (latest_accepted history ≡ some x) × IsAuthenticated x snapshot
  IsAuthenticatedReply history _ = Unit

  abbrev pub AreAuthenticated : List (Exchange Store) → Type 0
  AreAuthenticated [] = Unit
  AreAuthenticated (x ∷ history) = IsAuthenticatedReply history x.reply × AreAuthenticated history

  granted_reply :
      (history : List (Exchange Store)) (reply : Reply)
      → IsGrantedReply (some sqlite_store) history reply
      → IsAuthenticatedReply history reply
  granted_reply history (session snapshot) (x, latest, verified) =
      (x, latest, verified-IsAuthenticated x snapshot verified)
  granted_reply history nothing h = tt
  granted_reply history challenge h = tt
  granted_reply history (flag b) h = tt

  granted_history :
      (history : List (Exchange Store))
      → AreGranted (some sqlite_store) history
      → AreAuthenticated history
  granted_history [] h = tt
  granted_history (x ∷ history) h = (granted_reply history x.reply h.0, granted_history history h.1)

  -- On the service's identity store, whatever order the callbacks come in and whatever others do to the
  -- identities in between: a session is opened only behind an accepted answer, and then for the name
  -- that the client gave in the latest of them. In the identities which that answer found, the user of
  -- that name was enabled and the hasher verified the password against its verifier; in those that the
  -- check of the password left, its secret verified the code, its groups are those of the session, and
  -- the policy builds the principals from the name and the groups.
  pub sessions-AreAuthenticated :
      (history : List (Exchange Store)) (c : Connection) (w : Store)
      → IsReached (some sqlite_store) history c w
      → AreAuthenticated history
  sessions-AreAuthenticated history c w reached =
      granted_history history (reached-AreGranted (some sqlite_store) history c w reached)
