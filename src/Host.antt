-- ===== src/Host.antt =====
-- packages/ski-authorize/src/ski_authorize/cli.py: the command that sshd runs for a login.
pub mod Policy
pub mod Certificate
pub mod Authorization
pub mod Laws
pub mod Issued
use server_key_injection.Base.{
  ℕ, Bool, true, false, not, ◌&&◌, ◌||◌, Option, none, some, Result, ok, err, ◌>>=◌, ◌>>◌, raise_if,
  map_err, if◌then◌else◌,
}
use server_key_injection.Base.Int.{ℤ}
use server_key_injection.Base.Text.{Text, codes}
use Policy.{FileStatus, Toml, load_policy}
use Certificate.{ImportedCertificate, parse_certificate}
use Authorization.{authorize_certificate}

-- What argparse gives for one command line.
pub record Arguments : Type 0 where
  pub config : Option Text
  pub ca_fingerprint : Option Text
  pub check_config : Bool
  pub target_user : Option Text
  pub certificate_type : Option Text
  pub certificate_base64 : Option Text

-- The messages of `SystemExit`.
pub data Exit : Type 0 where
  check_config_arguments policy_invalid incomplete_arguments arguments_required : Exit
  config_required authorization_denied : Exit

abbrev given : Option Text → Bool
given none = false
given (some _) = true

abbrev demand : Option Text → Exit → Result Exit Text
demand none e = err e
demand (some s) e = ok s

-- `load_policy` is called with its default owner, root.
abbrev root_uid : ℕ
root_uid = 0

module _ (loads : Text → Option Toml) (import_certificate : Text → Option ImportedCertificate)
    (open_file : Text → Option FileStatus) (now : ℤ) where
  -- The branch of `--check-config`.
  unfoldable pub check_configuration : Arguments → Result Exit Text
  check_configuration args = do
    config ← demand args.config check_config_arguments
    raise_if
        (given args.ca_fingerprint
          || given args.target_user
          || given args.certificate_type
          || given args.certificate_base64)
        check_config_arguments
    map_err (λ _. policy_invalid) (load_policy loads (open_file config) root_uid)
    ok (codes "authorization policy is valid")

  -- The last `try` block, on arguments that are all there.
  unfoldable pub authorize : (config ca_fingerprint user kind body : Text) → Result Exit Text
  authorize config ca_fingerprint user kind body = do
    policy ← map_err (λ _. authorization_denied) (load_policy loads (open_file config) root_uid)
    certificate ←
        map_err (λ _. authorization_denied) (parse_certificate import_certificate kind body now)
    map_err (λ _. authorization_denied)
        (authorize_certificate policy certificate ca_fingerprint user)

  -- The branch of a login.
  unfoldable pub authorize_login : Arguments → Result Exit Text
  unfolding authorize
  authorize_login args = do
    raise_if
        ((given args.target_user || given args.certificate_type || given args.certificate_base64)
          && not (
              given args.target_user
              && given args.certificate_type
              && given args.certificate_base64))
        incomplete_arguments
    user ← demand args.target_user arguments_required
    kind ← demand args.certificate_type arguments_required
    body ← demand args.certificate_base64 arguments_required
    config ← demand args.config config_required
    ca_fingerprint ← demand args.ca_fingerprint config_required
    authorize config ca_fingerprint user kind body

  -- `main`: the line that it prints, or how it exits.
  unfoldable pub main : Arguments → Result Exit Text
  unfolding check_configuration authorize_login
  main args = if args.check_config then check_configuration args else authorize_login args
