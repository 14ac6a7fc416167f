-- ===== src/Ca/Load.antt =====
-- `load_validated_active_ca` of src/ski/ca.py: the CA that the issuer signs with.
use mathlib.Core.Path.{subst}
use server_key_injection.Base.{
  equality_laws, ◌≡◌, refl, sym, ap, ◌∙◌, not, ◌||◌, Option, none, some, Result, ok, err,
  raise_if-eq-ok, map_err-eq-ok, ok-injective, ◌==◌, nat_eq, list_eq, option_eq, Ensures,
  Ensures->>=, ensured,
}
use server_key_injection.Base.Text.{Text, codes}
use server_key_injection.Service.{
  FileMetadata, validate_secure_file, validate_secure_file_iff, IsSecure,
}
use server_key_injection.State.Tables.{CaTables, ed25519}
use server_key_injection.State.Validation.{StateError, state_error}
use server_key_injection.State.Records.{CaKeyRecord, PublicKey}
use server_key_injection.State.{get_active_ca}
use server_key_injection.Ca.{
  Files, Disk, PrivateKey, ValidatedCa, check_keys, check_record, check_file, read_key,
  load_validated_active_ca,
}

read :
    {K : Type 0} (import : Text → Option K) (files : Files) (path : Text) (key : K)
    → read_key import files path ≡ ok key
    → (content : Text) × (files path ≡ some content) × (import content ≡ some key)
read {K = K} import files path key h = found (files path) refl h
  where
    imported :
        (content : Text) (o : Option K)
        → files path ≡ some content
        → import content ≡ o
        → elim o as (λ _. Result StateError K) [
          | none ↦ err (state_error (codes "active CA material is unavailable"))
          | some key ↦ ok key
        ]
          ≡ ok key
        → (content : Text) × (files path ≡ some content) × (import content ≡ some key)
    imported content none there same k = absurd (cc)
    imported content (some other) there same k = (content, there, same ∙ ap some (ok-injective k))

    found :
        (o : Option Text)
        → files path ≡ o
        → elim o as (λ _. Result StateError K) [
          | none ↦ err (state_error (codes "active CA material is unavailable"))
          | some content ↦ elim (import content) [
            | none ↦ err (state_error (codes "active CA material is unavailable"))
            | some key ↦ ok key
          ]
        ]
          ≡ ok key
        → (content : Text) × (files path ≡ some content) × (import content ≡ some key)
    found none same k = absurd (cc)
    found (some content) same k = imported content (import content) same refl k

-- The record of the database is the key that was read.
abbrev MatchesKeys : PrivateKey → PublicKey → Text → CaKeyRecord → Type 0
MatchesKeys private_key public_key private_path r =
    (r.public_key ≡ public_key.exported)
    × (r.fingerprint ≡ private_key.fingerprint)
    × (r.private_key_path ≡ private_path)

record_matches :
    (private_key : PrivateKey) (public_key : PublicKey) (private_path : Text)
    (o : Option CaKeyRecord) (ca : ValidatedCa)
    → check_record private_key public_key private_path o ≡ ok ca
    → (r : CaKeyRecord) × (o ≡ some r)
      × MatchesKeys private_key public_key private_path r
      × (ca ≡ record { record_ = r; private_key = private_key; public_key = public_key })
unfolding check_record
record_matches private_key public_key private_path none ca h = absurd (cc h)
record_matches private_key public_key private_path (some r) ca h =
    let (matches, made) =
      raise_if-eq-ok
        (not (r.algorithm == ed25519)
          || not (r.public_key == public_key.exported)
          || not (r.fingerprint == private_key.fingerprint)
          || not (r.private_key_path == private_path))
        _ _ h in
    (
      r,
      refl,
      (grind equality_laws, grind equality_laws, grind equality_laws),
      sym (ok-injective made),
    )

keys_match :
    (private_key : PrivateKey) (public_key : PublicKey)
    → check_keys private_key public_key ≡ ok tt
    → (private_key.algorithm ≡ ed25519)
      × (public_key.algorithm ≡ ed25519)
      × (private_key.public_bytes ≡ some public_key.exported)
unfolding check_keys
keys_match private_key public_key h =
    (grind equality_laws, grind equality_laws, grind equality_laws)

module _ (import_private_key : Text → Option PrivateKey)
    (import_public_key : Text → Option PublicKey) (disk : Disk) (private_path public_path : Text)
    (files : Files) (t : CaTables) where
  abbrev IsProtected : Text → Type 0
  IsProtected path =
      (m : FileMetadata) × (disk.lstat files path ≡ some m) × IsSecure disk.uid disk.gid m

  -- The files are protected, they hold the two halves of one Ed25519 key, and the database's active CA is
  -- that key, registered for the private file.
  pub record IsMatching (ca : ValidatedCa) : Type 0 where
    pub private_protected : IsProtected private_path
    pub public_protected : IsProtected public_path
    pub private_text : Text
    pub private_there : files private_path ≡ some private_text
    pub private_read : import_private_key private_text ≡ some ca.private_key
    pub public_text : Text
    pub public_there : files public_path ≡ some public_text
    pub public_read : import_public_key public_text ≡ some ca.public_key
    pub active : (get_active_ca import_public_key t).0 ≡ ok (some ca.record_)
    pub private_algorithm : ca.private_key.algorithm ≡ ed25519
    pub public_algorithm : ca.public_key.algorithm ≡ ed25519
    pub halves : ca.private_key.public_bytes ≡ some ca.record_.public_key
    pub record_key : ca.record_.public_key ≡ ca.public_key.exported
    pub record_fingerprint : ca.record_.fingerprint ≡ ca.private_key.fingerprint
    pub record_path : ca.record_.private_key_path ≡ private_path

  protected : (path : Text) → check_file disk files path ≡ ok tt → IsProtected path
  protected path h = (validate_secure_file_iff (disk.lstat files path) disk.uid disk.gid).0 (
      map_err-eq-ok (λ _. state_error (codes "active CA material is unsafe"))
        (validate_secure_file (disk.lstat files path) disk.uid disk.gid) h)

  matching :
      (private_key : PrivateKey) (public_key : PublicKey) (active : Option CaKeyRecord)
      → check_file disk files private_path ≡ ok tt
      → check_file disk files public_path ≡ ok tt
      → read_key import_private_key files private_path ≡ ok private_key
      → read_key import_public_key files public_path ≡ ok public_key
      → check_keys private_key public_key ≡ ok tt
      → (get_active_ca import_public_key t).0 ≡ ok active
      → (ca : ValidatedCa) → check_record private_key public_key private_path active ≡ ok ca
      → IsMatching ca
  matching private_key public_key active safe1 safe2 read1 read2 keys found ca h =
      let (private_text, private_there, private_read) =
        read import_private_key files private_path private_key read1 in
      let (public_text, public_there, public_read) =
        read import_public_key files public_path public_key read2 in
      let (private_algorithm, public_algorithm, halves) = keys_match private_key public_key keys in
      let (r, active_r, (key, fingerprint, path), made) =
        record_matches private_key public_key private_path active ca h in
      subst IsMatching (sym made) (record {
        private_protected = protected private_path safe1;
        public_protected = protected public_path safe2;
        private_text = private_text;
        private_there = private_there;
        private_read = private_read;
        public_text = public_text;
        public_there = public_there;
        public_read = public_read;
        active = found ∙ ap ok active_r;
        private_algorithm = private_algorithm;
        public_algorithm = public_algorithm;
        halves = halves ∙ ap some (sym key);
        record_key = key;
        record_fingerprint = fingerprint;
        record_path = path;
      })

  returned-IsMatching :
      (r : Result StateError ValidatedCa)
      → ((ca : ValidatedCa) → r ≡ ok ca → IsMatching ca)
      → Ensures IsMatching r
  unfolding Ensures
  returned-IsMatching (ok ca) h = h ca refl
  returned-IsMatching (err e) h = tt

  loaded-IsMatching : Ensures IsMatching (
      load_validated_active_ca import_private_key import_public_key disk private_path public_path
        files t)
  unfolding load_validated_active_ca
  loaded-IsMatching = Ensures->>= IsMatching (check_file disk files private_path) _ λ _ safe1.
      Ensures->>= IsMatching (check_file disk files public_path) _ λ _ safe2.
        Ensures->>= IsMatching (read_key import_private_key files private_path) _
          λ private_key read1.
            Ensures->>= IsMatching (read_key import_public_key files public_path) _
              λ public_key read2.
                Ensures->>= IsMatching (check_keys private_key public_key) _ λ _ keys.
                  Ensures->>= IsMatching (get_active_ca import_public_key t).0 _ λ active found.
                    returned-IsMatching (check_record private_key public_key private_path active)
                      (matching private_key public_key active safe1 safe2 read1 read2 keys found)

  -- The CA that is loaded is the active CA of the database: both files are protected, and hold the two
  -- halves of one Ed25519 key, whose public half, fingerprint and path the record gives.
  pub load_validated_active_ca-IsMatching :
      (ca : ValidatedCa)
      → load_validated_active_ca import_private_key import_public_key disk private_path public_path
          files t
        ≡ ok ca
      → IsMatching ca
  load_validated_active_ca-IsMatching ca h =
      ensured IsMatching
        (load_validated_active_ca import_private_key import_public_key disk private_path public_path
          files t)
        loaded-IsMatching h
