-- ===== src/Host/Authorization/Laws.antt =====
-- What `authorize_certificate` of authorization.py accepts, and what it answers.
use mathlib.Core.Path.{subst}
use server_key_injection.Base.{
  equality_laws, require-eq-ok, list_beq, raise_if-eq-ok, ◌≡◌, refl, sym, ap, ◌∙◌, ◌↔◌, inl, inr,
  true, false, not, ◌&&◌, ◌||◌, List, [], ◌∷◌, Result, ok, all, contains, to_set, filter, IsLeast,
  IsLeast-unique, sorted_first, contains-filter, contains-to_set, IsDistinct,
  IsDistinct_of_distinct, distinct_of_IsDistinct, lex_le, arith, ◌==◌, nat_eq, list_eq, beq_refl,
  &&_true,
}
use server_key_injection.Base.Text.{Text, text_eq_iff}
use server_key_injection.Host.Policy.{HostPolicy, group_principal_pattern}
use server_key_injection.Host.Certificate.{CertificateAttributes}
use server_key_injection.Host.Authorization.{
  AuthorizationDenied, account_pattern, require_account, first_is, tail, permitted_groups,
  first_permitted, authorize_certificate,
}

-- The least, as strings order, of the certificate's groups that the host allows.
pub record IsFirstAllowed (g : Text) (groups allowed : List Text) : Type 0 where
  pub carried : contains groups g ≡ true
  pub allowed_here : contains allowed g ≡ true
  pub least : (k : Text) → contains groups k ≡ true → contains allowed k ≡ true → lex_le g k ≡ true

contains-both :
    (groups allowed : List Text) (k : Text)
    → contains (filter (contains (to_set allowed)) (to_set groups)) k
      ≡ (contains allowed k && contains groups k)
contains-both groups allowed k =
    rw (contains-filter, contains-to_set allowed k, contains-to_set groups k)

first_allowed :
    (groups allowed : List Text) (g : Text)
    → IsLeast g (filter (contains (to_set allowed)) (to_set groups))
    → IsFirstAllowed g groups allowed
first_allowed groups allowed g h =
    let both =
      &&_true (contains allowed g) (contains groups g)
        (sym (contains-both groups allowed g) ∙ h.member) in
    record {
      carried = both.1;
      allowed_here = both.0;
      least = λ k c a. h.below k (rw (contains-both groups allowed k, c, a));
    }

first_allowed-IsLeast :
    (groups allowed : List Text) (g : Text)
    → IsFirstAllowed g groups allowed
    → IsLeast g (filter (contains (to_set allowed)) (to_set groups))
first_allowed-IsLeast groups allowed g h = record {
  member = rw (contains-both groups allowed g, h.carried, h.allowed_here);
  below = λ k m.
      let both =
        &&_true (contains allowed k) (contains groups k)
          (sym (contains-both groups allowed k) ∙ m) in
      h.least k both.1 both.0;
}

pub first_permitted-eq-ok :
    (groups allowed : List Text) (g : Text)
    → first_permitted (permitted_groups groups allowed) ≡ ok g
    → IsFirstAllowed g groups allowed
unfolding permitted_groups
first_permitted-eq-ok groups allowed g h =
    elim (sorted_first (filter (contains (to_set allowed)) (to_set groups))) [
      | inl (_, empty) ↦ absurd (ground arith)
      | inr (k, rest, e, least) ↦
          let same : k ≡ g = ground arith in first_allowed groups allowed g (rw same at least)
    ]

pub first_permitted_of :
    (groups allowed : List Text) (g : Text)
    → IsFirstAllowed g groups allowed
    → first_permitted (permitted_groups groups allowed) ≡ ok g
unfolding permitted_groups contains
first_permitted_of groups allowed g h =
    let least_g = first_allowed-IsLeast groups allowed g h in
    elim (sorted_first (filter (contains (to_set allowed)) (to_set groups))) [
      | inl (empty, _) ↦ absurd (let m = least_g.member in cc (ap (λ xs. contains xs g) empty, m))
      | inr (k, rest, e, least_k) ↦ rw e (ap ok (IsLeast-unique k g _ least_k least_g))
    ]

first_is-shape : (ps : List Text) (user : Text) → first_is ps user ≡ true → ps ≡ user ∷ tail ps
first_is-shape [] user h = absurd (cc)
first_is-shape (p ∷ ps) user h = ap (λ q. q ∷ ps) ((text_eq_iff p user).0 h)

both_equal : (a b c : Text) → (not (a == c) || not (b == c)) ≡ false → (a ≡ c) × (b ≡ c)
both_equal a b c h = grind equality_laws

some_groups :
    (groups : List Text)
    → (groups == [] || not (all group_principal_pattern groups)) ≡ false
    → all group_principal_pattern groups ≡ true
some_groups groups h = ground arith

some_carried : (groups : List Text) (g : Text) → contains groups g ≡ true → (groups == []) ≡ false
unfolding contains list_beq
some_carried [] g h = cc
some_carried (x ∷ groups) g h = refl

module _ (policy : HostPolicy) (certificate : CertificateAttributes)
    (supplied_ca_fingerprint target_user : Text) where
  -- What a certificate must show for the account, with `g` as its principal.
  pub record IsAuthorized (groups : List Text) (g : Text) : Type 0 where
    pub self_login : policy.allow_self_login_only ≡ true
    pub supplied : supplied_ca_fingerprint ≡ policy.trusted_ca_fingerprint
    pub signed : certificate.ca_fingerprint ≡ policy.trusted_ca_fingerprint
    pub account : account_pattern target_user ≡ true
    pub key_id : certificate.key_id ≡ target_user
    pub principals : certificate.principals ≡ target_user ∷ groups
    pub distinct_principals : IsDistinct (target_user ∷ groups)
    pub group_shape : all group_principal_pattern groups ≡ true
    pub first : IsFirstAllowed g groups policy.allowed_groups

  abbrev decision : Result AuthorizationDenied Text
  decision = authorize_certificate policy certificate supplied_ca_fingerprint target_user

  pub authorize_certificate-eq-ok :
      (g : Text) → decision ≡ ok g → IsAuthorized (tail certificate.principals) g
  unfolding authorize_certificate require_account
  authorize_certificate-eq-ok g h =
      let (self_login, h1) = require-eq-ok _ _ _ h in
      let (fingerprints, h2) = raise_if-eq-ok _ _ _ h1 in
      let (account, h3) = require-eq-ok _ _ _ h2 in
      let (key_account, h4) = require-eq-ok _ _ _ h3 in
      let (key_id, h5) = require-eq-ok _ _ _ h4 in
      let (identity, h6) = require-eq-ok _ _ _ h5 in
      let (separate, h7) = require-eq-ok _ _ _ h6 in
      let (shape, h8) = raise_if-eq-ok _ _ _ h7 in
      let (supplied, signed) = both_equal _ _ _ fingerprints in
      let principals = first_is-shape certificate.principals target_user identity in
      record {
        self_login = self_login;
        supplied = supplied;
        signed = signed;
        account = account;
        key_id = (text_eq_iff _ _).0 key_id;
        principals = principals;
        distinct_principals =
            subst IsDistinct principals (IsDistinct_of_distinct certificate.principals separate);
        group_shape = some_groups (tail certificate.principals) shape;
        first = first_permitted-eq-ok (tail certificate.principals) policy.allowed_groups g h8;
      }

  pub authorize_certificate_of :
      (groups : List Text) (g : Text) → IsAuthorized groups g → decision ≡ ok g
  unfolding authorize_certificate require_account
  authorize_certificate_of groups g h = rw (
    h.self_login,
    h.supplied,
    h.signed,
    h.account,
    h.key_id,
    h.account,
    h.principals,
    beq_refl policy.trusted_ca_fingerprint,
    beq_refl target_user,
    distinct_of_IsDistinct (target_user ∷ groups) h.distinct_principals,
    h.group_shape,
    first_permitted_of groups policy.allowed_groups g h.first,
    some_carried groups g h.first.carried,
  )

  -- The host answers with a group exactly if self-login is on, both CA fingerprints are the trusted
  -- one, the account is canonical and is the key id and the first principal, no principal occurs
  -- twice, all further principals are canonical groups, and the answer is the first of them, in
  -- string order, that the policy allows.
  pub authorize_certificate_iff :
      (g : Text) → (decision ≡ ok g) ↔ ((groups : List Text) × IsAuthorized groups g)
  authorize_certificate_iff g = (
    λ h. (tail certificate.principals, authorize_certificate-eq-ok g h),
    λ (groups, h). authorize_certificate_of groups g h,
  )

-- If any of the groups is allowed, there is a first one.
pub some_first :
    (groups allowed : List Text) (k : Text)
    → contains groups k ≡ true
    → contains allowed k ≡ true
    → (g : Text) × IsFirstAllowed g groups allowed
unfolding contains
some_first groups allowed k c a =
    elim (sorted_first (filter (contains (to_set allowed)) (to_set groups))) [
      | inl (empty, _) ↦
          absurd (cc (ap (λ xs. contains xs k) empty, contains-both groups allowed k, c, a))
      | inr (g, rest, e, least) ↦ (g, first_allowed groups allowed g least)
    ]
