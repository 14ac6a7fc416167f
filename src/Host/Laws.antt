-- ===== src/Host/Laws.antt =====
-- What a login prints: every line of `main` of cli.py that is no answer to `--check-config`.
use server_key_injection.Base.{
  ◌≡◌, false, Option, none, some, Result, ok, err, map_err, >>=-eq-ok, raise_if-eq-ok, not, ◌&&◌,
  ◌||◌,
}
use server_key_injection.Base.Int.{ℤ}
use server_key_injection.Base.Text.{Text}
use server_key_injection.Host.Policy.{HostPolicy, FileStatus, Toml, load_policy}
use server_key_injection.Host.Certificate.{
  ImportedCertificate, CertificateAttributes, parse_certificate,
}
use server_key_injection.Host.Authorization.{tail}
use server_key_injection.Host.Authorization.Laws.{IsAuthorized, authorize_certificate-eq-ok}
use server_key_injection.Host.{
  Arguments, Exit, authorization_denied, authorize, authorize_login, main, root_uid, demand, given,
  incomplete_arguments, arguments_required, config_required,
}

map_err-eq-ok :
    {E F A : Type 0} (f : E → F) (r : Result E A) {a : A} → map_err f r ≡ ok a → r ≡ ok a
map_err-eq-ok f (ok a) h = cc
map_err-eq-ok f (err e) h = absurd (cc)

demand-eq-ok : (o : Option Text) (e : Exit) {s : Text} → demand o e ≡ ok s → o ≡ some s
demand-eq-ok none e h = absurd (cc)
demand-eq-ok (some s) e h = cc

module _ (loads : Text → Option Toml) (import_certificate : Text → Option ImportedCertificate)
    (open_file : Text → Option FileStatus) (now : ℤ) where
  -- The grounds of a printed principal.
  pub record IsGrounded (config ca_fingerprint user kind body line : Text) : Type 0 where
    pub policy : HostPolicy
    pub certificate : CertificateAttributes
    pub loaded : load_policy loads (open_file config) root_uid ≡ ok policy
    pub parsed : parse_certificate import_certificate kind body now ≡ ok certificate
    pub granted :
        IsAuthorized policy certificate ca_fingerprint user (tail certificate.principals) line

  authorize-IsGrounded :
      (config ca_fingerprint user kind body : Text) (line : Text)
      → authorize loads import_certificate open_file now config ca_fingerprint user kind body
        ≡ ok line
      → IsGrounded config ca_fingerprint user kind body line
  unfolding authorize
  authorize-IsGrounded config ca_fingerprint user kind body line h =
      let (policy, p, h1) =
        >>=-eq-ok
          (map_err (λ _. authorization_denied) (load_policy loads (open_file config) root_uid)) _
          h in
      let (certificate, c, h2) =
        >>=-eq-ok
          (map_err (λ _. authorization_denied) (parse_certificate import_certificate kind body now))
          _ h1 in
      record {
        policy = policy;
        certificate = certificate;
        loaded = map_err-eq-ok _ _ p;
        parsed = map_err-eq-ok _ _ c;
        granted =
            authorize_certificate-eq-ok policy certificate ca_fingerprint user line
              (map_err-eq-ok _ _ h2);
      }

  -- Without `--check-config`, a line is printed only if all five arguments are given, the policy
  -- file is loaded as root's, the certificate parses now, and the line is the principal that
  -- `authorize_certificate` grants to the target account under them.
  pub main-IsGrounded :
      (args : Arguments) (line : Text)
      → args.check_config ≡ false
      → main loads import_certificate open_file now args ≡ ok line
      → (config ca_fingerprint user kind body : Text) × (args.config ≡ some config)
        × (args.ca_fingerprint ≡ some ca_fingerprint)
        × (args.target_user ≡ some user)
        × (args.certificate_type ≡ some kind)
        × (args.certificate_base64 ≡ some body)
        × IsGrounded config ca_fingerprint user kind body line
  unfolding main authorize_login
  main-IsGrounded args line login h =
      let h0 : authorize_login loads import_certificate open_file now args ≡ ok line =
        rw login at h in
      let (_, h1) =
        raise_if-eq-ok
          ((given args.target_user || given args.certificate_type || given args.certificate_base64)
            && not (
                given args.target_user
                && given args.certificate_type
                && given args.certificate_base64))
          incomplete_arguments _ h0 in
      let (user, u, h2) = >>=-eq-ok (demand args.target_user arguments_required) _ h1 in
      let (kind, k, h3) = >>=-eq-ok (demand args.certificate_type arguments_required) _ h2 in
      let (body, b, h4) = >>=-eq-ok (demand args.certificate_base64 arguments_required) _ h3 in
      let (config, c, h5) = >>=-eq-ok (demand args.config config_required) _ h4 in
      let (ca_fingerprint, f, h6) = >>=-eq-ok (demand args.ca_fingerprint config_required) _ h5 in
      (
        config,
        ca_fingerprint,
        user,
        kind,
        body,
        demand-eq-ok _ _ c,
        demand-eq-ok _ _ f,
        demand-eq-ok _ _ u,
        demand-eq-ok _ _ k,
        demand-eq-ok _ _ b,
        authorize-IsGrounded config ca_fingerprint user kind body line h6,
      )
