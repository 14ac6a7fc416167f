-- ===== src/Ca.antt =====
-- src/ski/ca.py: the files of the CA, on a disk whose operations may fail as the disk chooses.
pub mod Install
pub mod Staging
pub mod Placing
pub mod Writing
pub mod Contents
pub mod Laws
pub mod Initialize
pub mod Load
use server_key_injection.Base.{
  ℕ, Bool, true, false, not, ◌&&◌, ◌||◌, Option, none, some, List, [], ◌∷◌, ◌++◌, Result, ok, err,
  raise_if, map_err, ◌>>=◌, ◌>>◌, if◌then◌else◌, ◌==◌, nat_eq, list_eq, option_eq, contains,
}
use server_key_injection.Base.Text.{Text, codes}
use server_key_injection.Service.{FileMetadata, SecureFileError, validate_secure_file}
use server_key_injection.State.Tables.{CaTables, ed25519}
use server_key_injection.State.Validation.{StateError, state_error}
use server_key_injection.State.Records.{CaKeyRecord, PublicKey, path_name}
use server_key_injection.State.{get_active_ca}

-- The content of each file that is there.
abbrev pub Files : Type 0
Files = Text → Option Text

-- `path.exists()`, of what is at the path
abbrev pub is_there : Option Text → Bool
is_there none = false
is_there (some _) = true

abbrev pub put : Text → Option Text → Files → Files
put path content files q = if q == path then content else files q

-- What the disk, the process and `ssh-keygen` answer. A call that raises `OSError` is `none` or `false`.
pub record Disk : Type 0 where
  pub uid : ℕ
  pub gid : ℕ
  pub expanduser : Text → Text
  pub parent_is_dir : Text → Bool
  pub parent_writable : Text → Bool
  pub resolve : Text → Option Text
  pub is_symlink : Text → Bool
  pub lstat : Files → Text → Option FileMetadata
  pub mkstemp : Files → (target : Text) → Option Text
  pub write_ok : Files → Text → Bool
  pub rename_ok : Files → (temporary target : Text) → Bool
  pub run_keygen : Files → Text → Option (ℕ × Option Text)  -- return code, and the file made
  pub chmod_ok : Files → Text → Bool

-- `asyncssh.SSHKey`: what its methods give, `none` where an export raises.
pub record PrivateKey : Type 0 where
  pub algorithm : Text
  pub fingerprint : Text
  pub private_bytes : Option Text
  pub public_bytes : Option Text

-- `CAFileError`, and any other exception.
pub data CaError : Type 0 where
  file_error : Text → CaError
  other_error : CaError

-- `GeneratedCAMaterial`
pub record CaMaterial : Type 0 where
  pub private_bytes : Text
  pub public_bytes : Text
  pub fingerprint : Text

-- `ValidatedActiveCA`
pub record ValidatedCa : Type 0 where
  pub record_ : CaKeyRecord
  pub private_key : PrivateKey
  pub public_key : PublicKey

-- Reading a file and a key from it; what the key reader raises is `none`.
abbrev pub read_key : {K : Type 0} → (Text → Option K) → Files → Text → Result StateError K
read_key import files path = elim (files path) [
  | none ↦ err (state_error (codes "active CA material is unavailable"))
  | some content ↦ elim (import content) [
    | none ↦ err (state_error (codes "active CA material is unavailable"))
    | some key ↦ ok key
  ]
]

abbrev pub check_file : Disk → Files → Text → Result StateError (Unit {0})
check_file disk files path =
    map_err (λ _. state_error (codes "active CA material is unsafe"))
      (validate_secure_file (disk.lstat files path) disk.uid disk.gid)

-- The comparisons of `load_validated_active_ca`, of the two keys and with the record.
unfoldable pub check_keys : PrivateKey → PublicKey → Result StateError (Unit {0})
check_keys private_key public_key =
    raise_if
      (not (private_key.algorithm == ed25519)
        || not (public_key.algorithm == ed25519)
        || not (private_key.public_bytes == some public_key.exported))
      (state_error (codes "active CA material does not match"))

unfoldable pub check_record :
    PrivateKey → PublicKey → Text → Option CaKeyRecord → Result StateError ValidatedCa
check_record private_key public_key private_path none =
    err (state_error (codes "active CA record is unavailable"))
check_record private_key public_key private_path (some r) = do
  raise_if
      (not (r.algorithm == ed25519)
        || not (r.public_key == public_key.exported)
        || not (r.fingerprint == private_key.fingerprint)
        || not (r.private_key_path == private_path))
      (state_error (codes "active CA record does not match configured material"))
  ok (record { record_ = r; private_key = private_key; public_key = public_key })

module _ (import_private_key : Text → Option PrivateKey)
    (import_public_key : Text → Option PublicKey) (disk : Disk) where
  -- `load_validated_active_ca`
  unfoldable pub load_validated_active_ca :
      (private_path public_path : Text) → Files → CaTables → Result StateError ValidatedCa
  unfolding check_keys check_record
  load_validated_active_ca private_path public_path files t = do
    check_file disk files private_path
    check_file disk files public_path
    private_key ← read_key import_private_key files private_path
    public_key ← read_key import_public_key files public_path
    check_keys private_key public_key
    active ← (get_active_ca import_public_key t).0
    check_record private_key public_key private_path active
