-- ===== src/Ca/Install.antt =====
-- `CAFileWriter` of src/ski/ca.py: staging the files of a fresh CA, and putting them in place.
use server_key_injection.Base.{
  ℕ, not, ◌||◌, Option, none, some, List, [], ◌∷◌, ◌++◌, Result, ok, err, raise_if, map_err,
  if◌then◌else◌, ◌==◌, nat_eq, list_eq, contains, remove_first, ◌>>◌ as ◌>>ʳ◌,
}
use server_key_injection.Base.Text.{Text, codes}
use server_key_injection.Service.{validate_secure_file}
use server_key_injection.State.Exec.{Run, ◌>>=◌, ◌>>◌}
use server_key_injection.State.Tables.{ed25519}
use server_key_injection.State.Records.{path_name}
use server_key_injection.Ca.{
  Files, is_there, put, Disk, PrivateKey, CaError, file_error, other_error, CaMaterial,
}

-- The files, and the local variables of `install`.
pub record Progress : Type 0 where
  pub files : Files
  pub temporary : List Text
  pub installed : List Text

-- `_generate`, for what the key generator gives, `none` where it raises
unfoldable pub generate : Option PrivateKey → Result CaError CaMaterial
generate none = err (file_error (codes "CA key generation failed"))
generate (some key) =
    raise_if (not (key.algorithm == ed25519)) (file_error (codes "CA algorithm is unsupported"))
    >>ʳ elim key.private_bytes [
      | none ↦ err (file_error (codes "CA key generation failed"))
      | some private_bytes ↦ elim key.public_bytes [
        | none ↦ err (file_error (codes "CA key generation failed"))
        | some public_bytes ↦ ok (record {
          private_bytes = private_bytes;
          public_bytes = public_bytes;
          fingerprint = key.fingerprint;
        })
      ]
    ]

-- `path.unlink(missing_ok=True)` for each path
unfoldable pub unlink_all : List Text → Files → Files
unlink_all [] files = files
unlink_all (path ∷ paths) files = unlink_all paths (put path none files)

abbrev pub as_file_error : CaError → CaError
as_file_error (file_error m) = file_error m
as_file_error other_error = file_error (codes "CA material could not be installed")

-- The `except` of `install`.
unfoldable pub finish_install :
    CaMaterial → Result CaError (Unit {0}) × Progress → Result CaError CaMaterial × Files
unfolding unlink_all
finish_install material (ok _, p) = (ok material, p.files)
finish_install material (err e, p) =
    (err (as_file_error e), unlink_all p.installed (unlink_all p.temporary p.files))

module _ (disk : Disk) where
  -- A target that is resolved, or not; `rest` goes on with the paths seen.
  unfoldable pub check_resolved :
      Files
      → List Text
      → Text
      → Option Text
      → (List Text → Result CaError (Unit {0}))
      → Result CaError (Unit {0})
  check_resolved files seen target none rest =
      err (file_error (codes "CA output path is unavailable"))
  check_resolved files seen target (some resolved) rest =
      raise_if (contains seen resolved) (file_error (codes "CA output paths must be distinct"))
      >>ʳ (raise_if (disk.is_symlink target || is_there (files target))
            (file_error (codes "CA output already exists"))
          >>ʳ rest (resolved ∷ seen))

  -- `_validate_targets`, with the resolved paths seen so far
  unfoldable pub validate_targets : Files → List Text → List Text → Result CaError (Unit {0})
  unfolding check_resolved
  validate_targets files seen [] = ok tt
  validate_targets files seen (path ∷ paths) =
      let target = disk.expanduser path in
      raise_if
        (contains ([] ∷ codes "." ∷ codes ".." ∷ []) (path_name target)
          || not (disk.parent_is_dir target))
        (file_error (codes "CA output path is unavailable"))
      >>ʳ (raise_if (not (disk.parent_writable target))
            (file_error (codes "CA output directory is not writable"))
          >>ʳ check_resolved files seen target (disk.resolve target)
              (λ seen'. validate_targets files seen' paths))

  -- `_write_temp` of a temporary file that is there
  unfoldable pub fill_temp : Text → Text → Run Files CaError Text
  fill_temp payload temporary files =
      if disk.write_ok files temporary
      then (ok temporary, put temporary (some payload) files)
      else (err other_error, put temporary none files)

  unfoldable pub write_temp : (target payload : Text) → Run Files CaError Text
  unfolding fill_temp
  write_temp target payload files = elim (disk.mkstemp files target) [
    | none ↦ (err other_error, files)
    | some temporary ↦ fill_temp payload temporary (put temporary (some []) files)
  ]

  -- `_write_empty_krl` after the command, which left `made` at the temporary path
  unfoldable pub after_keygen : Text → Option (ℕ × Option Text) → Run Files CaError Text
  after_keygen temporary none files =
      (err (file_error (codes "empty KRL capability is unavailable")), files)
  after_keygen temporary (some (returncode, none)) files =
      (err (file_error (codes "empty KRL creation failed")), put temporary none files)
  after_keygen temporary (some (returncode, some made)) files =
      if not (returncode == 0)
      then (err (file_error (codes "empty KRL creation failed")), put temporary none files)
      else (
        if disk.chmod_ok (put temporary (some made) files) temporary
            then ok temporary
            else err other_error,
        put temporary (some made) files,
      )

  unfoldable pub write_empty_krl : (target : Text) → Run Files CaError Text
  unfolding after_keygen
  write_empty_krl target files = elim (disk.mkstemp files target) [
    | none ↦ (err other_error, files)
    | some temporary ↦
        let cleared = put temporary none files in
        after_keygen temporary (disk.run_keygen cleared temporary) cleared
  ]

  -- `temporary.append(...)` of what a step staged
  unfoldable pub staged : Run Files CaError Text → Run Progress CaError Text
  staged step p =
      let (r, files) = step p.files in
      elim r [
        | ok path ↦ (ok path, record p { files = files; temporary = p.temporary ++ path ∷ [] })
        | err e ↦ (err e, record p { files = files })
      ]

  -- `_validate_installed`
  unfoldable pub validate_installed : Text → Run Progress CaError (Unit {0})
  validate_installed target p = (
    map_err (λ _. file_error (codes "installed CA material is unsafe"))
        (validate_secure_file (disk.lstat p.files target) disk.uid disk.gid),
    p,
  )

  -- The rename of one turn of the loop of `install`, and its lists.
  unfoldable pub move_to : (temporary target : Text) → Run Progress CaError (Unit {0})
  move_to temporary target p = elim (p.files temporary) [
    | none ↦ (err other_error, p)
    | some content ↦
        if disk.rename_ok p.files temporary target
        then (
          ok tt,
          record {
            files = put target (some content) (put temporary none p.files);
            temporary = remove_first temporary p.temporary;
            installed = p.installed ++ target ∷ [];
          },
        )
        else (err other_error, p)
  ]

  unfoldable pub place : (temporary target : Text) → Run Progress CaError (Unit {0})
  unfolding move_to validate_installed
  place temporary target = move_to temporary target >> validate_installed target

  -- The `try` of `install`.
  abbrev pub place_all :
      (private_path public_path krl_path private_temp public_temp krl_temp : Text)
      → Run Progress CaError (Unit {0})
  place_all private_path public_path krl_path private_temp public_temp krl_temp =
      place private_temp private_path >> (place public_temp public_path >> place krl_temp krl_path)

  abbrev pub stage_krl :
      (private_path public_path krl_path private_temp public_temp : Text)
      → Run Progress CaError (Unit {0})
  stage_krl private_path public_path krl_path private_temp public_temp =
      staged (write_empty_krl krl_path)
      >>= place_all private_path public_path krl_path private_temp public_temp

  abbrev pub stage_public :
      (private_path public_path krl_path : Text)
      → CaMaterial
      → (private_temp : Text) → Run Progress CaError (Unit {0})
  stage_public private_path public_path krl_path material private_temp =
      staged (write_temp public_path material.public_bytes)
      >>= stage_krl private_path public_path krl_path private_temp

  unfoldable pub stage_and_place :
      (private_path public_path krl_path : Text) → CaMaterial → Run Progress CaError (Unit {0})
  unfolding staged write_temp write_empty_krl place
  stage_and_place private_path public_path krl_path material =
      staged (write_temp private_path material.private_bytes)
      >>= stage_public private_path public_path krl_path material

  unfoldable pub install_checked :
      (private_path public_path krl_path : Text)
      → Result CaError CaMaterial
      → Run Files CaError CaMaterial
  unfolding stage_and_place finish_install
  install_checked private_path public_path krl_path (err e) files = (err e, files)
  install_checked private_path public_path krl_path (ok material) files = finish_install material (
      stage_and_place private_path public_path krl_path material
        (record { files = files; temporary = []; installed = [] }))

  -- `install`, with what the key generator gives
  unfoldable pub install :
      Option PrivateKey → (private_path public_path krl_path : Text) → Run Files CaError CaMaterial
  unfolding validate_targets generate install_checked
  install key private_path public_path krl_path files =
      install_checked private_path public_path krl_path
        (validate_targets files [] (private_path ∷ public_path ∷ krl_path ∷ []) >>ʳ generate key)
        files
