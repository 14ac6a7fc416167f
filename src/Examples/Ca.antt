-- ===== src/Examples/Ca.antt =====
-- src/ski/ca.py, src/ski/ca_commands.py and src/ski/configuration.py on concrete values.
use mathlib.Core.Path.{subst}
use server_key_injection.Base.{
  ℕ, ◌≡◌, refl, true, false, not, Bool, Option, none, some, List, [], ◌∷◌, Result, ok, err, ◌==◌,
  nat_eq, list_eq,
}
use server_key_injection.Base.Int.{pos}
use server_key_injection.Base.Text.{Text, codes}
use server_key_injection.State.Records.{PublicKey}
use server_key_injection.State.Ledger.{tables_of}
use server_key_injection.State.Reachable.{empty_ledger}
use server_key_injection.Ca.{Files, Disk, PrivateKey, ValidatedCa, load_validated_active_ca}
use server_key_injection.Ca.Install.{install}
use server_key_injection.Ca.Staging.{IsNaming}
use server_key_injection.Ca.Laws.{IsTarget, AllOrNothing, install-AllOrNothing}
use server_key_injection.Ca.Initialize.{initialize_ca, IsAllOrNothing, initialize_ca-IsAllOrNothing}
use server_key_injection.Ca.Load.{IsMatching, load_validated_active_ca-IsMatching}
use server_key_injection.Configuration.{
  Places, Request, RuntimeConfiguration, load_runtime_configuration,
}
use server_key_injection.Configuration.Laws.{IsUsable, load_runtime_configuration-IsUsable}
use server_key_injection.Examples.Data.{ca_fingerprint}
use server_key_injection.Examples.State.{ca, ledger, import_public_key}

abbrev public_key : PublicKey
public_key = record {
  algorithm = codes "ssh-ed25519";
  fingerprint = ca_fingerprint;
  exported = 1 ∷ 2 ∷ [];
}

abbrev private_key : PrivateKey
private_key = record {
  algorithm = codes "ssh-ed25519";
  fingerprint = ca_fingerprint;
  private_bytes = some (7 ∷ []);
  public_bytes = some (1 ∷ 2 ∷ []);
}

abbrev free_name : Option Text → Text → Option Text
free_name none name = some name
free_name (some _) name = none

free_name-eq-some :
    (o : Option Text) (name temporary : Text)
    → free_name o name ≡ some temporary
    → (name ≡ temporary) × (o ≡ none)
free_name-eq-some none name temporary h = (cc h, refl)
free_name-eq-some (some _) name temporary h = absurd (cc h)

-- A disk where all goes well; a temporary file is its target behind a mark.
abbrev disk : Disk
disk = record {
  uid = 0;
  gid = 0;
  expanduser = λ path. path;
  parent_is_dir = λ _. true;
  parent_writable = λ _. true;
  resolve = λ path. some path;
  is_symlink = λ _. false;
  lstat = λ _ _. some (record {
    is_regular = true;
    uid = 0;
    gid = 0;
    group_writable = false;
    other_writable = false;
  });
  mkstemp = λ files target. free_name (files (b'~' ∷ target)) (b'~' ∷ target);
  write_ok = λ _ _. true;
  rename_ok = λ _ _ _. true;
  run_keygen = λ _ _. some (0, some []);
  chmod_ok = λ _ _. true;
}

abbrev is_temporary : Text → Bool
is_temporary [] = false
is_temporary (c ∷ _) = c == b'~'

naming : IsNaming disk is_temporary
naming = record {
  marked = λ files target temporary h.
      let (same, _) = free_name-eq-some (files (b'~' ∷ target)) (b'~' ∷ target) temporary h in
      subst (λ q. is_temporary q ≡ true) same refl;
  fresh = λ files target temporary h.
      let (same, absent) = free_name-eq-some (files (b'~' ∷ target)) (b'~' ∷ target) temporary h in
      subst (λ q. files q ≡ none) same absent;
}

abbrev no_files : Files
no_files _ = none

private-IsTarget : IsTarget disk is_temporary naming no_files (codes "/etc/ski/ca")
private-IsTarget = record { expanded = refl; target_name = refl }

public-IsTarget : IsTarget disk is_temporary naming no_files (codes "/etc/ski/ca.pub")
public-IsTarget = record { expanded = refl; target_name = refl }

krl-IsTarget : IsTarget disk is_temporary naming no_files (codes "/etc/ski/krl")
krl-IsTarget = record { expanded = refl; target_name = refl }

install-AllOrNothing_example :
    AllOrNothing disk is_temporary naming no_files
      (codes "/etc/ski/ca")
      (codes "/etc/ski/ca.pub")
      (codes "/etc/ski/krl")
      (install disk
        (some private_key)
        (codes "/etc/ski/ca")
        (codes "/etc/ski/ca.pub")
        (codes "/etc/ski/krl")
        no_files)
install-AllOrNothing_example =
    install-AllOrNothing disk is_temporary naming no_files (codes "/etc/ski/ca")
      (codes "/etc/ski/ca.pub") (codes "/etc/ski/krl") private-IsTarget public-IsTarget krl-IsTarget
      (some private_key)

initialize_ca-IsAllOrNothing_example :
    IsAllOrNothing import_public_key disk is_temporary naming
      (pos 500)
      (codes "r1")
      (codes "/etc/ski/ca")
      (codes "/etc/ski/ca.pub")
      (codes "/etc/ski/krl")
      no_files
      (tables_of empty_ledger)
      (initialize_ca import_public_key disk
        (pos 500)
        (codes "r1")
        (codes "/etc/ski/ca")
        (codes "/etc/ski/ca.pub")
        (codes "/etc/ski/krl")
        (some private_key)
        no_files
        (tables_of empty_ledger))
initialize_ca-IsAllOrNothing_example =
    initialize_ca-IsAllOrNothing import_public_key disk is_temporary naming (pos 500) (codes "r1")
      (codes "/etc/ski/ca") (codes "/etc/ski/ca.pub") (codes "/etc/ski/krl") no_files
      (tables_of empty_ledger) (some private_key) private-IsTarget public-IsTarget krl-IsTarget

abbrev files : Files
files _ = some []

abbrev pub validated : ValidatedCa
validated = record { record_ = ca; private_key = private_key; public_key = public_key }

abbrev import_private_key : Text → Option PrivateKey
import_private_key _ = some private_key

loaded :
    load_validated_active_ca import_private_key import_public_key disk
      (codes "/etc/ski/ca")
      (codes "/etc/ski/ca.pub")
      files
      (tables_of ledger)
    ≡ ok validated
unfolding load_validated_active_ca server_key_injection.Base.list_beq
    server_key_injection.Base.option_beq server_key_injection.Service.validate_secure_file
    server_key_injection.State.get_active_ca server_key_injection.Policy.Values.value_beq
    server_key_injection.State.Records.ca_record_from_row server_key_injection.Base.contains
loaded = refl

load_validated_active_ca-IsMatching_example :
    IsMatching import_private_key import_public_key disk
      (codes "/etc/ski/ca")
      (codes "/etc/ski/ca.pub")
      files
      (tables_of ledger)
      validated
load_validated_active_ca-IsMatching_example =
    load_validated_active_ca-IsMatching import_private_key import_public_key disk
      (codes "/etc/ski/ca") (codes "/etc/ski/ca.pub") files (tables_of ledger) validated loaded

-- A machine with one environment file.
abbrev pub places : Places
places = record {
  is_file = λ path. path == codes "/home/ski/etc/env";
  expanduser = λ path. path;
  parent_is_dir = λ _. true;
  parent_writable = λ _. true;
  is_ip_address = λ _. false;
  dotenv_values = λ _. (codes "SKI_CA_DATABASE", some (codes "/srv/ski/ca.db")) ∷ [];
}

abbrev pub request : Request
request = record {
  bind = codes "*";
  port = pos 2222;
  exported = (codes "HOME", codes "/home/ski") ∷ [];
  directory = codes "/";
  home_directory = none;
  home = codes "/root";
  system_file = codes "/home/ski/etc/env";
  allow_ephemeral_port = false;
  require_ordinary_ca = false;
}

abbrev configuration : RuntimeConfiguration
configuration = record {
  bind = codes "*";
  port = pos 2222;
  database = codes "/srv/ski/ca.db";
  ca_private_key = none;
  ca_public_key = none;
  ca_krl = none;
  ordinary_extensions = [];
  certificate_lifetime = server_key_injection.Policy.ordinary_certificate_lifetime;
  environment_file = some (codes "/home/ski/etc/env");
  values =
      (codes "SKI_CA_DATABASE", codes "/srv/ski/ca.db") ∷ (codes "HOME", codes "/home/ski") ∷ [];
}

configured : load_runtime_configuration places request ≡ ok configuration
unfolding load_runtime_configuration server_key_injection.Base.list_beq
    server_key_injection.Base.contains server_key_injection.Base.Dict.get_field
    server_key_injection.State.Records.path_name
configured = refl

load_runtime_configuration-IsUsable_example : IsUsable places request configuration
unfolding server_key_injection.Base.contains
load_runtime_configuration-IsUsable_example =
    load_runtime_configuration-IsUsable places request (refl, tt) configuration configured
