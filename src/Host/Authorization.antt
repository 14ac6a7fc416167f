-- ===== src/Host/Authorization.antt =====
-- packages/ski-authorize/src/ski_authorize/authorization.py: the decision on one certificate.
pub mod Laws
use server_key_injection.Base.{
  ℕ, Bool, true, false, not, ◌&&◌, ◌||◌, List, [], ◌∷◌, Result, ok, err, ◌>>=◌, ◌>>◌, raise_if, all,
  contains, distinct, to_set, filter, sorted, if◌then◌else◌, Eq, ◌==◌, nat_eq, list_eq,
}
use server_key_injection.Base.Text.{Text}
use server_key_injection.Base.Pattern.{is_lower, is_account_char, full_match}
use server_key_injection.Host.Policy.{HostPolicy, group_principal_pattern}
use server_key_injection.Host.Certificate.{CertificateAttributes}

-- AuthorizationDenied, one constructor for each message.
pub data AuthorizationDenied : Type 0 where
  self_login_disabled fingerprint_untrusted target_not_canonical : AuthorizationDenied
  key_id_not_canonical key_id_mismatch identity_mismatch : AuthorizationDenied
  principals_duplicated groups_malformed no_allowed_group : AuthorizationDenied

-- `[a-z][a-z0-9_-]{0,31}\Z`
unfoldable pub account_pattern : Text → Bool
unfolding full_match is_lower is_account_char
account_pattern = full_match is_lower is_account_char 31

-- `_require_account`
unfoldable pub require_account : Text → AuthorizationDenied → Result AuthorizationDenied (Unit {0})
require_account value denied = raise_if (not (account_pattern value)) denied

abbrev pub first_is : List Text → Text → Bool
first_is [] user = false
first_is (p ∷ ps) user = p == user

abbrev pub tail : List Text → List Text
tail [] = []
tail (p ∷ ps) = ps

-- `sorted(set(groups) & set(policy.allowed_groups))`
unfoldable pub permitted_groups : List Text → List Text → List Text
unfolding to_set
permitted_groups groups allowed = sorted (filter (contains (to_set allowed)) (to_set groups))

abbrev pub first_permitted : List Text → Result AuthorizationDenied Text
first_permitted [] = err no_allowed_group
first_permitted (g ∷ _) = ok g

module _ (policy : HostPolicy) (certificate : CertificateAttributes)
    (supplied_ca_fingerprint target_user : Text) where
  unfoldable pub authorize_certificate : Result AuthorizationDenied Text
  unfolding require_account
  authorize_certificate = do
    raise_if (not policy.allow_self_login_only) self_login_disabled
    raise_if
        (not (supplied_ca_fingerprint == policy.trusted_ca_fingerprint)
          || not (certificate.ca_fingerprint == policy.trusted_ca_fingerprint))
        fingerprint_untrusted
    require_account target_user target_not_canonical
    require_account certificate.key_id key_id_not_canonical
    raise_if (not (certificate.key_id == target_user)) key_id_mismatch
    raise_if (not (first_is certificate.principals target_user)) identity_mismatch
    raise_if (not (distinct certificate.principals)) principals_duplicated
    raise_if
        (tail certificate.principals == []
          || not (all group_principal_pattern (tail certificate.principals)))
        groups_malformed
    first_permitted (permitted_groups (tail certificate.principals) policy.allowed_groups)
