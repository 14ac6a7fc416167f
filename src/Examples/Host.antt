-- ===== src/Examples/Host.antt =====
-- packages/ski-authorize on concrete values: alice's certificate against a host's policy.
use server_key_injection.Base.{
  ℕ, ◌<◌, ◌≡◌, ◌≢◌, refl, true, false, Bool, Option, none, some, List, [], ◌∷◌, Result, ok, err,
  arith, all, All, ltb, ltb→lt, length, map, contains, list_beq, ◌≤◌, &&_true,
}
use server_key_injection.Base.Int.{pos}
use server_key_injection.Base.Text.{Text, codes}
use server_key_injection.Host.Policy.{load_policy, FileStatus}
use server_key_injection.Host.Policy.Laws.{load_policy-IsStrict, IsStrict, IsProtected}
use server_key_injection.Host.Certificate.{
  parse_public_data, parse_certificate, certificate_algorithm, no_fuel, read_principals,
}
use server_key_injection.Host.Certificate.Base64.{
  decode_base64, encode_base64, decode_base64-encode,
}
use server_key_injection.Host.Certificate.Roundtrip.{
  IsEncodable, encode, public_data, parse_public_data-encode,
}
use server_key_injection.Host.Certificate.Termination.{parse_public_data_ends, read_principals_ends}
use server_key_injection.Host.Authorization.{
  AuthorizationDenied, authorize_certificate, permitted_groups,
}
use server_key_injection.Host.Authorization.Laws.{
  authorize_certificate_iff, IsAuthorized, IsFirstAllowed,
}
use server_key_injection.Host.{Arguments, authorize, authorize_login, main}
use server_key_injection.Host.Laws.{main-IsGrounded, IsGrounded}
use server_key_injection.Host.Issued.{
  parse_certificate-encode, issued_certificate_authorizes, IsPresented,
}
use server_key_injection.Policy.{group_principal}
use server_key_injection.Examples.Data.{
  alice, dev, alice-ArePrincipals, ca_fingerprint, host_policy, host_file, loads, open_file,
  import_certificate, wire_certificate, alice_attributes,
}

below : (n : ℕ) (bs : List ℕ) → all (λ b. ltb b n) bs ≡ true → All (λ b. b < n) bs
unfolding all
below n [] h = tt
below n (b ∷ bs) h =
    let (first, rest) = &&_true (ltb b n) (all (λ c. ltb c n) bs) h in
    (ltb→lt b n first, below n bs rest)

policy_loads : load_policy loads (some host_file) 0 ≡ ok host_policy
unfolding load_policy all contains list_beq server_key_injection.Host.Policy.fingerprint_pattern
    server_key_injection.Host.Policy.group_principal_pattern server_key_injection.Base.distinct
    server_key_injection.Base.sorted server_key_injection.Base.lex_le
policy_loads = refl

load_policy-IsStrict_example :
    IsStrict host_policy
    × ((status : FileStatus) × (some host_file ≡ some status) × IsProtected status 0)
load_policy-IsStrict_example =
    load_policy-IsStrict loads (some host_file) 0 host_policy policy_loads

decode_base64-encode_example : decode_base64 (encode_base64 (0 ∷ 255 ∷ [])) ≡ some (0 ∷ 255 ∷ [])
decode_base64-encode_example = decode_base64-encode (0 ∷ 255 ∷ []) (omega arith, (omega arith, tt))

encodable : IsEncodable wire_certificate
unfolding all
encodable = record {
  nonce = omega arith;
  public_key = omega arith;
  serial = omega arith;
  key_id_ascii = refl;
  key_id = omega arith;
  principals = ((refl, omega arith), ((refl, omega arith), tt));
  principal_data = omega arith;
  valid_after = omega arith;
  valid_before = omega arith;
  critical_options = omega arith;
  extensions = omega arith;
  reserved = omega arith;
  signature_key = omega arith;
  signature = omega arith;
}

parse_public_data-encode_example :
    parse_public_data (encode wire_certificate) ≡ ok (public_data wire_certificate)
parse_public_data-encode_example = parse_public_data-encode wire_certificate encodable

parse_public_data_ends_example : parse_public_data (0 ∷ 0 ∷ []) ≢ err no_fuel
parse_public_data_ends_example = parse_public_data_ends (0 ∷ 0 ∷ [])

read_principals_ends_example : read_principals 5 (0 ∷ 0 ∷ 0 ∷ 0 ∷ []) 0 ≢ err no_fuel
read_principals_ends_example = read_principals_ends 4 (0 ∷ 0 ∷ 0 ∷ 0 ∷ []) 0 (omega arith)

granted :
    authorize_certificate host_policy alice_attributes ca_fingerprint alice ≡ ok (codes "group:dev")
unfolding authorize_certificate list_beq server_key_injection.Host.Authorization.account_pattern all
    server_key_injection.Base.distinct server_key_injection.Host.Policy.group_principal_pattern
    permitted_groups server_key_injection.Base.sorted server_key_injection.Base.filter
granted = refl

authorize_certificate_iff_example :
    (groups : List Text) × IsAuthorized host_policy alice_attributes ca_fingerprint alice groups
      (codes "group:dev")
authorize_certificate_iff_example =
    (authorize_certificate_iff host_policy alice_attributes ca_fingerprint alice
        (codes "group:dev")).0
      granted

bytes : all (λ b. ltb b 256) (encode wire_certificate) ≡ true
unfolding all
bytes = refl

presented :
    IsPresented loads import_certificate
      (pos 2000)
      host_policy
      (codes "policy.toml")
      open_file
      wire_certificate
      (dev ∷ [])
presented = record {
  loaded = policy_loads;
  principals = alice-ArePrincipals;
  encodable = encodable;
  bytes = below 256 (encode wire_certificate) bytes;
  imports = refl;
  not_before = refl;
  not_after = refl;
}

issued_certificate_authorizes_example :
    (g : Text) × IsFirstAllowed g (map group_principal (dev ∷ [])) host_policy.allowed_groups
    × (authorize loads import_certificate open_file
          (pos 2000)
          (codes "policy.toml")
          ca_fingerprint
          alice
          certificate_algorithm
          (encode_base64 (encode wire_certificate))
        ≡ ok g)
unfolding contains list_beq
issued_certificate_authorizes_example =
    issued_certificate_authorizes loads import_certificate (pos 2000) host_policy
      (codes "policy.toml") open_file wire_certificate (dev ∷ []) dev presented refl refl

abbrev login : Arguments
login = record {
  config = some (codes "policy.toml");
  ca_fingerprint = some ca_fingerprint;
  check_config = false;
  target_user = some alice;
  certificate_type = some certificate_algorithm;
  certificate_base64 = some (encode_base64 (encode wire_certificate));
}

parsed :
    parse_certificate import_certificate certificate_algorithm
      (encode_base64 (encode wire_certificate))
      (pos 2000)
    ≡ ok alice_attributes
parsed =
    parse_certificate-encode loads import_certificate (pos 2000) wire_certificate ca_fingerprint
      encodable (below 256 (encode wire_certificate) bytes) refl refl refl

-- `main` prints what the certificate grants.
prints : main loads import_certificate open_file (pos 2000) login ≡ ok (codes "group:dev")
unfolding main
prints = rw (policy_loads, parsed, granted)

main-IsGrounded_example :
    (config ca_fingerprint user kind body : Text) × (login.config ≡ some config)
    × (login.ca_fingerprint ≡ some ca_fingerprint)
    × (login.target_user ≡ some user)
    × (login.certificate_type ≡ some kind)
    × (login.certificate_base64 ≡ some body)
    × IsGrounded loads import_certificate open_file
        (pos 2000)
        config
        ca_fingerprint
        user
        kind
        body
        (codes "group:dev")
main-IsGrounded_example =
    main-IsGrounded loads import_certificate open_file (pos 2000) login (codes "group:dev") refl
      prints
