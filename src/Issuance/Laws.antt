-- ===== src/Issuance/Laws.antt =====
-- What `issue` of src/ski/credentials.py guarantees of a credential, and that the state accepts it.
use mathlib.Core.Path.{subst}
use server_key_injection.Base.{
  ℕ, ◌<◌, ◌≤◌, ◌^◌, ◌≡◌, refl, sym, ap, ◌∙◌, true, Option, none, some, List, [], map, ok, err,
  arith, if◌then◌else◌, nat_eq, list_eq, ◌↔◌, contains, Elem, Elem-of_contains, contains_of_Elem,
  Ensures, Ensures->>=, ensured, map_err, map_err-eq-ok, ok-injective, le→leb, inl, inr, Bool-cases,
  ltb, ltb→lt, list_beq,
}
use server_key_injection.Base.Int.{ℤ, pos, negsuc, ◌-ℤ◌, add-sub, int_eq}
use server_key_injection.Base.Text.{Text, codes}
use server_key_injection.Policy.Values.{Value, str_value}
use server_key_injection.Policy.{
  strings, ordinary_certificate_lifetime, build_principals, username_pattern,
}
use server_key_injection.Policy.Shape.{ArePrincipals, strings-map}
use server_key_injection.Policy.Laws.{build_principals-eq-ok, accept_tuple}
use server_key_injection.State.Json.{dumps}
use server_key_injection.State.Tables.{CertificateValues, integrity}
use server_key_injection.State.Validation.{
  state_error, validated_certificate_fields, serial_max, validate_serial, validate_principals,
  validate_interval, validate_outcome,
}
use server_key_injection.State.Rows.{
  IsText, validate_positive_id-pos, validate_text-IsText, validate_identity-canonical,
}
use server_key_injection.State.{certificate_record, already_recorded}
use server_key_injection.State.Ledger.{
  Ledger, tables_of, is_issuable, next_certificate_id, issue as issue_on,
}
use server_key_injection.State.Refinement.{record_certificate_with_event-refines}
use server_key_injection.Issuance.{
  IdentitySnapshot, OrdinaryIdentity, CertificateRequest, Factory, Supply, issue, commit, fields_of,
  marker, check_serial,
}

-- The certificate asked of asyncssh for a credential: what is signed is the identity, the serial,
-- the principals, the interval, the permissions and the comment of the credential.
pub record IsRequest {Key Certificate : Type 0} (factory : Factory) (identity : IdentitySnapshot)
    (credential : OrdinaryIdentity Key Certificate) (request : CertificateRequest Key)
    : Type 0 where
  pub user_key : request.user_key ≡ credential.private_key
  pub key_id : request.key_id ≡ identity.username
  pub serial : request.serial ≡ credential.serial
  pub principals : ArePrincipals request.principals identity.username identity.groups
  pub valid_after : request.valid_after ≡ credential.valid_after
  pub interval : (request.valid_before -ℤ request.valid_after) ≡ pos ordinary_certificate_lifetime
  pub x11 :
      (request.permit_x11_forwarding ≡ true) ↔ Elem (codes "x11-forwarding") factory.extensions
  pub agent :
      (request.permit_agent_forwarding ≡ true) ↔ Elem (codes "agent-forwarding") factory.extensions
  pub port :
      (request.permit_port_forwarding ≡ true) ↔ Elem (codes "port-forwarding") factory.extensions
  pub pty : (request.permit_pty ≡ true) ↔ Elem (codes "pty") factory.extensions
  pub user_rc : (request.permit_user_rc ≡ true) ↔ Elem (codes "user-rc") factory.extensions
  pub touch_required : request.touch_required ≡ true
  pub comment : request.comment ≡ credential.comment

-- The credential of an identity: what its certificate signs, its principals, its 25 hours, and the
-- comment that marks it.
pub record IsCredential {Key Certificate : Type 0} (sign : CertificateRequest Key → Certificate)
    (factory : Factory) (supply : Supply Key) (identity : IdentitySnapshot)
    (credential : OrdinaryIdentity Key Certificate) : Type 0 where
  pub request : CertificateRequest Key
  pub signed : credential.certificate ≡ sign request
  pub requested : IsRequest factory identity credential request
  pub key_id : credential.key_id ≡ identity.username
  pub principals : ArePrincipals credential.principals identity.username identity.groups
  pub allocated : supply.serial ≡ pos credential.serial
  pub serial : credential.serial ≤ serial_max
  pub valid_after : credential.valid_after ≡ supply.time
  pub interval :
      (credential.valid_before -ℤ credential.valid_after) ≡ pos ordinary_certificate_lifetime
  pub comment :
      credential.comment ≡ marker identity.username factory.active_ca.fingerprint credential.serial
  pub private_key : credential.private_key ≡ supply.new_key credential.comment

texts_of : Option (List Text) → List Text
texts_of none = []
texts_of (some ss) = ss

str_of : Value → Text → Text
str_of (str_value s) t = s
str_of _ t = t

built_for :
    (username : Text) (groups : List Text) (ps : List Text)
    → build_principals (str_value username) (map str_value groups) ≡ ok ps
    → ArePrincipals ps username groups
unfolding str_of texts_of
built_for username groups ps h =
    let (user, names, same, same_groups, are) =
      build_principals-eq-ok (str_value username) (map str_value groups) h in
    let user_is : user ≡ username = sym (ap (λ v. str_of v user) same) in
    let names_are : names ≡ groups =
      ap texts_of (sym (strings-map names) ∙ ap strings (sym same_groups) ∙ strings-map groups) in
    subst (λ u. ArePrincipals ps u groups) user_is
      (subst (λ gs. ArePrincipals ps user gs) names_are are)

extension_iff :
    (factory : Factory) (name : Text)
    → (contains factory.extensions name ≡ true) ↔ Elem name factory.extensions
extension_iff factory name =
    (Elem-of_contains factory.extensions name, contains_of_Elem factory.extensions name)

below : (m : ℕ) → m < 2 ^ 64 → m ≤ serial_max
below m h = omega arith

serial_checked : (n : ℤ) (k : ℕ) → check_serial n ≡ ok k → (n ≡ pos k) × (k ≤ serial_max)
unfolding check_serial
serial_checked (pos m) k h = elim (Bool-cases (ltb m (2 ^ 64))) [
  | inl small ↦
      let same : m ≡ k = ok-injective (
        sym (
          ap (λ b. if b then ok m else err (state_error (codes "certificate serial is malformed")))
            small)
        ∙ h) in
      (ap pos same, subst (λ n. n ≤ serial_max) same (below m (ltb→lt m (2 ^ 64) small)))
  | inr large ↦ absurd (ground arith)
]
serial_checked (negsuc m) k h = absurd (cc)

module _ {Key Certificate : Type 0} (sign : CertificateRequest Key → Certificate) where
  issued-IsCredential :
      (factory : Factory) (supply : Supply Key) (identity : IdentitySnapshot)
      → Ensures (IsCredential sign factory supply identity) (issue sign factory supply identity)
  unfolding issue Ensures
  issued-IsCredential factory supply identity =
      Ensures->>= _
        (map_err _ (build_principals (str_value identity.username) (map str_value identity.groups)))
        _
        λ ps ps_h. Ensures->>= _ (check_serial supply.serial) _ λ n n_h.
          let are = built_for identity.username identity.groups ps (
            map_err-eq-ok _
              (build_principals (str_value identity.username) (map str_value identity.groups))
              ps_h) in
          let lasts = add-sub supply.time (pos ordinary_certificate_lifetime) in
          record {
            request = _;
            signed = refl;
            requested = record {
              user_key = refl;
              key_id = refl;
              serial = refl;
              principals = are;
              valid_after = refl;
              interval = lasts;
              x11 = extension_iff factory (codes "x11-forwarding");
              agent = extension_iff factory (codes "agent-forwarding");
              port = extension_iff factory (codes "port-forwarding");
              pty = extension_iff factory (codes "pty");
              user_rc = extension_iff factory (codes "user-rc");
              touch_required = refl;
              comment = refl;
            };
            key_id = refl;
            principals = are;
            allocated = (serial_checked supply.serial n n_h).0;
            serial = (serial_checked supply.serial n n_h).1;
            valid_after = refl;
            interval = lasts;
            comment = refl;
            private_key = refl;
          }

  -- Every credential that `issue` returns is for the identity it was asked for, and holds the signature
  -- of a request that says the same: the key generated for the comment that marks the issuer's entries,
  -- the identity's name, its groups as the principals, the allocated 64-bit serial, exactly 25 hours
  -- from the clock's time, each permission exactly where it is among the factory's extensions, and
  -- the demand for touch.
  pub issue-IsCredential :
      (factory : Factory) (supply : Supply Key) (identity : IdentitySnapshot)
      (credential : OrdinaryIdentity Key Certificate)
      → issue sign factory supply identity ≡ ok credential
      → IsCredential sign factory supply identity credential
  issue-IsCredential factory supply identity credential h =
      ensured (IsCredential sign factory supply identity) (issue sign factory supply identity)
        (issued-IsCredential factory supply identity) h

  module _ (fingerprint_of : Key → Text) (factory : Factory) (supply : Supply Key)
      (identity : IdentitySnapshot) (request_id : Text)
      (credential : OrdinaryIdentity Key Certificate) where
    -- What is inserted for a credential.
    abbrev pub values_of : CertificateValues
    values_of = record {
      ca_id = factory.active_ca.ca_id;
      serial = credential.serial;
      identity = credential.key_id;
      public_key_fingerprint = fingerprint_of credential.private_key;
      encoded_principals = dumps credential.principals;
      valid_after = credential.valid_after;
      valid_before = credential.valid_before;
      request_id = request_id;
      outcome = codes "success";
    }

    validated :
        IsCredential sign factory supply identity credential
        → 0 < factory.active_ca.ca_id
        → IsText (fingerprint_of credential.private_key)
        → IsText request_id
        → validated_certificate_fields
            (fields_of fingerprint_of factory.active_ca credential request_id)
            (str_value (codes "success"))
          ≡ ok (credential.principals, values_of)
    unfolding validated_certificate_fields validate_serial validate_principals validate_interval
        validate_outcome list_beq
    validated h ca fingerprint request = rw (
      validate_positive_id-pos factory.active_ca.ca_id ca,
      le→leb credential.serial serial_max h.serial,
      validate_identity-canonical credential.key_id
          (subst (λ u. username_pattern u ≡ true) (sym h.key_id) h.principals.canonical_user),
      validate_text-IsText (fingerprint_of credential.private_key)
          (codes "public key fingerprint is malformed") fingerprint,
      accept_tuple identity.username identity.groups h.principals,
      h.interval,
      validate_text-IsText request_id (codes "request id is malformed") request,
    )

    -- The state never refuses an issued credential as malformed: committing it to the rows of a
    -- ledger, for a numbered CA and with a fingerprint and a request id that are not empty and
    -- hold no NUL, records the certificate and its event, or finds the CA unknown or the serial
    -- taken, reports a duplicate serial and changes nothing.
    pub issue-commit :
        (l : Ledger)
        → issue sign factory supply identity ≡ ok credential
        → 0 < factory.active_ca.ca_id
        → IsText (fingerprint_of credential.private_key)
        → IsText request_id
        → commit fingerprint_of factory.active_ca credential request_id (tables_of l) ≡ (
            if is_issuable l values_of
            then (
              ok (certificate_record (next_certificate_id l) credential.principals values_of),
              tables_of (issue_on l credential.principals values_of),
            )
            else (err (already_recorded integrity), tables_of l))
    unfolding commit
    issue-commit l issued ca fingerprint request =
        let h = issue-IsCredential factory supply identity credential issued in
        record_certificate_with_event-refines
          (fields_of fingerprint_of factory.active_ca credential request_id) l
        ∙ rw (validated h ca fingerprint request) (elim (Bool-cases (is_issuable l values_of)) [
          | inl issuable ↦ rw issuable refl
          | inr refused ↦ rw refused refl
        ])
