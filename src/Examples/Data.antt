-- ===== src/Examples/Data.antt =====
-- The values of the examples: the user alice in the group dev, her certificate, and a host.
use server_key_injection.Base.{ℕ, refl, contains, true, false, Option, none, some, List, [], ◌∷◌}
use server_key_injection.Base.Text.{Text, codes}
use server_key_injection.Policy.Shape.{ArePrincipals}
use server_key_injection.Policy.{username_pattern, group_pattern}
use server_key_injection.Host.Policy.{
  HostPolicy, FileStatus, Toml, string, boolean, array, table, empty, item, end, entry,
}
use server_key_injection.Host.Certificate.{
  CertificateAttributes, ImportedCertificate, certificate_algorithm,
}
use server_key_injection.Host.Certificate.Roundtrip.{WireCertificate}

abbrev pub alice : Text
alice = codes "alice"

abbrev pub dev : Text
dev = codes "dev"

abbrev pub alice_principals : List Text
alice_principals = alice ∷ codes "group:dev" ∷ []

pub alice-ArePrincipals : ArePrincipals alice_principals alice (dev ∷ [])
unfolding username_pattern group_pattern contains server_key_injection.Base.all
alice-ArePrincipals = record {
  shape = refl;
  canonical_user = refl;
  canonical_groups = (refl, tt);
  distinct_groups = (refl, tt);
}

-- A fingerprint: `SHA256:` and 43 characters.
abbrev pub ca_fingerprint : Text
ca_fingerprint = codes "SHA256:AAAAAAAAAAAAAAAAAAAAAAAAAAAAAAAAAAAAAAAAAAA"

abbrev pub host_policy : HostPolicy
host_policy = record {
  trusted_ca_fingerprint = ca_fingerprint;
  allowed_groups = codes "group:dev" ∷ codes "group:ops" ∷ [];
  allow_self_login_only = true;
}

abbrev pub host_document : Toml
host_document = table (
    entry (codes "ssh")
      (table (
        entry (codes "trusted_ca_fingerprint") (string ca_fingerprint) (
          entry (codes "allowed_groups")
            (array (item (string (codes "group:ops")) (item (string (codes "group:dev")) empty)))
            (entry (codes "allow_self_login_only") (boolean true) end))))
      end)

-- A TOML reader that knows one document.
abbrev pub loads : Text → Option Toml
loads _ = some host_document

abbrev pub host_file : FileStatus
host_file = record { regular = true; uid = 0; mode = 0o600; text = some (codes "[ssh]") }

abbrev pub open_file : Text → Option FileStatus
open_file _ = some host_file

-- asyncssh's reader, for a certificate of the CA.
abbrev pub import_certificate : Text → Option ImportedCertificate
import_certificate _ =
    some (record {
      is_ssh_certificate = true;
      signing_key = some (codes "ssh-ed25519", ca_fingerprint);
    })

abbrev pub wire_certificate : WireCertificate
wire_certificate = record {
  nonce = [];
  public_key = [];
  serial = 7;
  key_id = alice;
  principals = alice_principals;
  valid_after = 1000;
  valid_before = 91000;
  critical_options = [];
  extensions = [];
  reserved = [];
  signature_key = [];
  signature = [];
}

abbrev pub alice_attributes : CertificateAttributes
alice_attributes = record {
  algorithm = certificate_algorithm;
  ca_algorithm = codes "ssh-ed25519";
  ca_fingerprint = ca_fingerprint;
  key_id = alice;
  principals = alice_principals;
  serial = 7;
  valid_after = 1000;
  valid_before = 91000;
}
