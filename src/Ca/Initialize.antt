-- ===== src/Ca/Initialize.antt =====
-- `initialize_ca` of src/ski/ca_commands.py: the CA's files and its registration.
use server_key_injection.Base.{
  ◌≡◌, refl, sym, ◌∙◌, Bool, false, Option, none, some, [], ◌∷◌, Result, ok, err, contains,
  Bool-cases, inl, inr, nat_eq, list_eq,
}
use server_key_injection.Base.Int.{ℤ}
use server_key_injection.Base.Text.{Text, codes}
use server_key_injection.Policy.Values.{str_value, bytes_value}
use server_key_injection.State.Exec.{pure, lift, convert, ◌>>=◌, ◌>>◌}
use server_key_injection.State.Tables.{CaTables, CaValues, insert_ca_with_event}
use server_key_injection.State.Validation.{StateError, absent}
use server_key_injection.State.Records.{CaKeyRecord, PublicKey}
use server_key_injection.State.{
  get_active_ca, initialize_active_ca, check_initialization, already_registered, ca_record,
}
use server_key_injection.State.Initializing.{insert_ca_values, insert_initialized_event}
use server_key_injection.State.Atomic.{
  IsAtomic, transaction-IsAtomic, convert-IsAtomic, return-IsAtomic,
}
use server_key_injection.Ca.{Files, Disk, PrivateKey, CaError, file_error, CaMaterial}
use server_key_injection.Ca.Install.{install, unlink_all}
use server_key_injection.Ca.Staging.{IsNaming, IsPlaced}
use server_key_injection.Ca.Contents.{IsWritten}
use server_key_injection.Ca.Laws.{
  unlinked, untouched, among, IsInstalled, AllOrNothing, IsTarget, install-AllOrNothing,
}

-- What the command raises.
pub data CommandError : Type 0 where
  ca : CaError → CommandError
  state : StateError → CommandError

-- What the command works on: the files and the database.
abbrev pub Initialized : Type 0
Initialized = Result CommandError CaKeyRecord × (Files × CaTables)

module _ (import_public_key : Text → Option PublicKey) (disk : Disk) (now : ℤ) (request_id : Text)
    (private_path public_path krl_path : Text) where
  -- The inner `try`: where the registration fails, the fresh files are removed.
  unfoldable pub after_registration : Files → Result StateError CaKeyRecord × CaTables → Initialized
  after_registration files (ok r, t) = (ok r, (files, t))
  after_registration files (err e, t) =
      (err (state e), (unlink_all (private_path ∷ public_path ∷ krl_path ∷ []) files, t))

  unfoldable pub after_install : Result CaError CaMaterial × Files → CaTables → Initialized
  unfolding after_registration
  after_install (err e, files) t = (err (ca e), (files, t))
  after_install (ok material, files) t = after_registration files (
      initialize_active_ca import_public_key now (bytes_value material.public_bytes)
        (str_value material.fingerprint) private_path (str_value request_id) absent t)

  unfoldable pub after_lookup :
      Option PrivateKey → Result StateError (Option CaKeyRecord) → Files → CaTables → Initialized
  unfolding after_install
  after_lookup key (err e) files t = (err (state e), (files, t))
  after_lookup key (ok (some active)) files t =
      (err (ca (file_error (codes "an active CA is already registered"))), (files, t))
  after_lookup key (ok none) files t =
      after_install (install disk key private_path public_path krl_path files) t

  -- `initialize_ca` on the opened database, with what the key generator gives
  unfoldable pub initialize_ca : Option PrivateKey → Files → CaTables → Initialized
  unfolding after_lookup
  initialize_ca key files t = after_lookup key (get_active_ca import_public_key t).0 files t

checked-IsAtomic :
    (r : Result StateError (CaValues × Text)) (t : CaTables)
    → IsAtomic t (
        (lift r >>= λ (v, request_id).
        convert already_registered (insert_ca_with_event v request_id) >>= λ ca_id.
        pure (ca_record ca_id v))
          t)
unfolding insert_ca_with_event
checked-IsAtomic (err e) t = refl
checked-IsAtomic (ok (v, request_id)) t =
    return-IsAtomic (convert already_registered (insert_ca_with_event v request_id))
      (λ ca_id. ca_record ca_id v) t
      (convert-IsAtomic already_registered (insert_ca_with_event v request_id) t (
        transaction-IsAtomic
          (insert_ca_values v >>= λ ca_id.
            insert_initialized_event v request_id ca_id >> pure ca_id)
          t))

initialize_active_ca-IsAtomic :
    (import_public_key : Text → Option PublicKey) (now : ℤ) (material : CaMaterial)
    (path request_id : Text) (t : CaTables)
    → IsAtomic t (
        initialize_active_ca import_public_key now
          (bytes_value material.public_bytes)
          (str_value material.fingerprint)
          path
          (str_value request_id)
          absent
          t)
unfolding initialize_active_ca
initialize_active_ca-IsAtomic imports now material path request_id t =
    checked-IsAtomic
      (check_initialization imports now (bytes_value material.public_bytes)
        (str_value material.fingerprint) path (str_value request_id) absent)
      t

module _ (import_public_key : Text → Option PublicKey) (disk : Disk) (is_temporary : Text → Bool)
    (naming : IsNaming disk is_temporary) (now : ℤ) (request_id : Text)
    (private_path public_path krl_path : Text) (files : Files) (t : CaTables) where
  -- The files are in place and the database has the CA with its event, or both are as they were.
  abbrev pub IsAllOrNothing : Initialized → Type 0
  IsAllOrNothing (ok r, (files', t')) =
      IsInstalled disk is_temporary naming files private_path public_path krl_path files'
      × ((material : CaMaterial) × IsWritten private_path public_path material files'
          × (initialize_active_ca import_public_key now (bytes_value material.public_bytes)
                (str_value material.fingerprint) private_path (str_value request_id) absent t
              ≡ (ok r, t')))
  IsAllOrNothing (err _, (files', t')) =
      ((q : Text) → is_temporary q ≡ false → files' q ≡ files q) × (t' ≡ t)

  withdrawn :
      (files' : Files)
      → IsInstalled disk is_temporary naming files private_path public_path krl_path files'
      → (q : Text) → is_temporary q ≡ false
      → unlink_all (private_path ∷ public_path ∷ krl_path ∷ []) files' q ≡ files q
  withdrawn files' h q name =
      elim (Bool-cases (contains (private_path ∷ public_path ∷ krl_path ∷ []) q)) [
        | inl was ↦
            unlinked (private_path ∷ public_path ∷ krl_path ∷ []) files' q was
            ∙ sym
                (among (IsPlaced disk is_temporary naming files files')
                  (private_path ∷ public_path ∷ krl_path ∷ []) q
                  (h.private_placed, (h.public_placed, (h.krl_placed, tt))) was).was_free
        | inr was_not ↦
            untouched (private_path ∷ public_path ∷ krl_path ∷ []) files' q was_not
            ∙ h.others q name was_not
      ]

  registered :
      (files' : Files) (material : CaMaterial) (x : Result StateError CaKeyRecord × CaTables)
      → IsInstalled disk is_temporary naming files private_path public_path krl_path files'
        × IsWritten private_path public_path material files'
      → initialize_active_ca import_public_key now
          (bytes_value material.public_bytes)
          (str_value material.fingerprint)
          private_path
          (str_value request_id)
          absent
          t
        ≡ x
      → IsAtomic t x
      → IsAllOrNothing (
          after_registration import_public_key disk now request_id private_path public_path krl_path
            files' x)
  unfolding after_registration
  registered files' material (ok r, t') (h, written) same atomic = (h, (material, written, same))
  registered files' material (err e, t') (h, _) same atomic = (withdrawn files' h, atomic)

  installed :
      (x : Result CaError CaMaterial × Files)
      → AllOrNothing disk is_temporary naming files private_path public_path krl_path x
      → IsAllOrNothing (
          after_install import_public_key disk now request_id private_path public_path krl_path x t)
  unfolding after_install
  installed (err e, files') h = (h, refl)
  installed (ok material, files') h =
      registered files' material _ h refl
        (initialize_active_ca-IsAtomic import_public_key now material private_path request_id t)

  -- Whatever fails on the disk, but unlinking, or in the database: the command that succeeds has put the three files in
  -- place, where there was none, with the two halves of a key, and registered that key as the CA with its
  -- event; the command that fails has left every file as it was, but for names that only temporary files
  -- have, and the database as it was.
  pub initialize_ca-IsAllOrNothing :
      (key : Option PrivateKey)
      → IsTarget disk is_temporary naming files private_path
      → IsTarget disk is_temporary naming files public_path
      → IsTarget disk is_temporary naming files krl_path
      → IsAllOrNothing (
          initialize_ca import_public_key disk now request_id private_path public_path krl_path key
            files t)
  unfolding initialize_ca after_lookup
  initialize_ca-IsAllOrNothing key private_target public_target krl_target =
      go (get_active_ca import_public_key t).0
    where
      go :
          (r : Result StateError (Option CaKeyRecord))
          → IsAllOrNothing (
              after_lookup import_public_key disk now request_id private_path public_path krl_path
                key r files t)
      go (err e) = (λ q name. refl, refl)
      go (ok (some active)) = (λ q name. refl, refl)
      go (ok none) = installed (install disk key private_path public_path krl_path files) (
          install-AllOrNothing disk is_temporary naming files private_path public_path krl_path
            private_target public_target krl_target key)
