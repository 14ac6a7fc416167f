-- ===== src/Service.antt =====
-- src/ski/notify.py and src/ski/secure_files.py: the notification of the local service after a change,
-- and the policy for the issuer's files.
use mathlib.Core.Path.{subst}
use server_key_injection.Base.{
  sym, ◌⊎◌, inl, inr, Bool-cases, ℕ, ◌≡◌, ◌↔◌, refl, Bool, true, false, not, ◌||◌, Option, none,
  some, List, [], ◌∷◌, Result, ok, err, ◌>>◌, raise_if, if◌then◌else◌, ◌==◌, nat_eq, arith, ap, ◌∙◌,
}
use server_key_injection.Base.Int.{ℤ, pos, int_eq}
use server_key_injection.Base.Text.{Text, codes}

-- `ServiceManagerError`, by its error code
pub data ServiceManagerError : Type 0 where
  query_failed reload_failed : ServiceManagerError

-- `NotificationResult`
pub data NotificationResult : Type 0 where
  inactive reloaded : NotificationResult
  failed : ServiceManagerError → NotificationResult

-- `NotificationResult.succeeded`
abbrev pub succeeded : NotificationResult → Bool
succeeded (failed _) = false
succeeded _ = true

abbrev unit : Text
unit = codes "ski.service"

-- The commands, and what running one gives: its return code, or nothing where it raises `OSError`.
abbrev pub is_active_command : List Text
is_active_command = codes "systemctl" ∷ codes "is-active" ∷ codes "--quiet" ∷ unit ∷ []

abbrev pub reload_command : List Text
reload_command = codes "systemctl" ∷ codes "reload" ∷ unit ∷ []

module _ {W : Type 0} (run : List Text → W → Option ℤ × W) where
  abbrev activity_of : Option ℤ → Result ServiceManagerError Bool
  activity_of none = err query_failed
  activity_of (some code) =
      if code == pos 0 then ok true else (if code == pos 3 then ok false else err query_failed)

  -- `is_active`
  unfoldable pub is_active : W → Result ServiceManagerError Bool × W
  is_active w = let (code, w') = run is_active_command w in (activity_of code, w')

  abbrev reload_of : Option ℤ → Result ServiceManagerError (Unit {0})
  reload_of none = err reload_failed
  reload_of (some code) = raise_if (not (code == pos 0)) reload_failed

  -- `reload`
  unfoldable pub reload : W → Result ServiceManagerError (Unit {0}) × W
  reload w = let (code, w') = run reload_command w in (reload_of code, w')

  unfoldable pub after_reload : Result ServiceManagerError (Unit {0}) × W → NotificationResult × W
  after_reload (err e, w) = (failed e, w)
  after_reload (ok _, w) = (reloaded, w)

  unfoldable pub after_query : Result ServiceManagerError Bool × W → NotificationResult × W
  unfolding reload after_reload
  after_query (err e, w) = (failed e, w)
  after_query (ok false, w) = (inactive, w)
  after_query (ok true, w) = after_reload (reload w)

  -- `notify_after_mutation`
  unfoldable pub notify_after_mutation : W → NotificationResult × W
  unfolding is_active after_query
  notify_after_mutation w = after_query (is_active w)

-- What `lstat` gives of a file.
pub record FileMetadata : Type 0 where
  pub is_regular : Bool
  pub uid : ℕ
  pub gid : ℕ
  pub group_writable : Bool
  pub other_writable : Bool

-- `SecureFileError`, one constructor for each message.
pub data SecureFileError : Type 0 where
  file_unavailable not_regular ownership_unsafe permissions_unsafe : SecureFileError

-- `validate_secure_file`; a path whose `lstat` raises `OSError` is `none`.
unfoldable pub validate_secure_file :
    Option FileMetadata → ℕ → ℕ → Result SecureFileError (Unit {0})
validate_secure_file none owner_uid group_gid = err file_unavailable
validate_secure_file (some m) owner_uid group_gid = do
  raise_if (not m.is_regular) not_regular
  raise_if (not (m.uid == owner_uid) || not (m.gid == group_gid)) ownership_unsafe
  raise_if (m.group_writable || m.other_writable) permissions_unsafe
  ok tt

pub record IsSecure (owner_uid group_gid : ℕ) (m : FileMetadata) : Type 0 where
  pub regular : m.is_regular ≡ true
  pub owner : m.uid ≡ owner_uid
  pub group : m.gid ≡ group_gid
  pub group_safe : m.group_writable ≡ false
  pub others_safe : m.other_writable ≡ false

secure_passes :
    (owner_uid group_gid : ℕ) (m : FileMetadata)
    → IsSecure owner_uid group_gid m
    → validate_secure_file (some m) owner_uid group_gid ≡ ok tt
unfolding validate_secure_file
secure_passes owner_uid group_gid m h =
    ground (arith, h.regular, h.owner, h.group, h.group_safe, h.others_safe)

passes-IsSecure :
    (owner_uid group_gid : ℕ) (m : FileMetadata)
    → validate_secure_file (some m) owner_uid group_gid ≡ ok tt
    → IsSecure owner_uid group_gid m
unfolding validate_secure_file
passes-IsSecure owner_uid group_gid m h = record {
  regular = ground arith;
  owner = ground arith;
  group = ground arith;
  group_safe = ground arith;
  others_safe = ground arith;
}

missing : (owner_uid group_gid : ℕ) → validate_secure_file none owner_uid group_gid ≡ ok tt → ⊥
unfolding validate_secure_file
missing owner_uid group_gid h = absurd (cc)

-- A file passes exactly when it is there, regular, owned as asked, and writable by its owner alone.
pub validate_secure_file_iff :
    (file : Option FileMetadata) (owner_uid group_gid : ℕ)
    → (validate_secure_file file owner_uid group_gid ≡ ok tt)
      ↔ ((m : FileMetadata) × (file ≡ some m) × IsSecure owner_uid group_gid m)
validate_secure_file_iff none owner_uid group_gid =
    (λ h. absurd (missing owner_uid group_gid h), λ (m, e, _). absurd (cc e))
validate_secure_file_iff (some m) owner_uid group_gid = (
  λ h. (m, refl, passes-IsSecure owner_uid group_gid m h),
  λ (n, e, secure).
      ap (λ file. validate_secure_file file owner_uid group_gid) e
      ∙ secure_passes owner_uid group_gid n secure,
)

abbrev code_in : Option ℤ → ℤ
code_in none = pos 0
code_in (some code) = code

code_of : {a b : ℤ} → Path (Option ℤ) (some a) (some b) → a ≡ b
code_of h = ap code_in h

module _ {W : Type 0} (run : List Text → W → Option ℤ × W) where
  abbrev Answers : Option ℤ → Bool → Type 0
  Answers answered b = (b ≡ true) ↔ (answered ≡ some (pos 0))

  reload_reported :
      (answered : Option ℤ) (w : W)
      → Answers answered (succeeded (after_reload run (reload_of run answered, w)).0)
  unfolding after_reload
  reload_reported none w = (λ h. absurd (cc), λ h. absurd (cc))
  reload_reported (some code) w = elim (Bool-cases (code == pos 0)) [
    | inl done ↦ rw done (λ _. ap some ((int_eq.beq_iff code (pos 0)).0 done), λ _. refl)
    | inr other ↦
        rw other
          (λ h. absurd (cc), λ h. absurd (ground (arith, code_of h, int_eq.beq_iff code (pos 0))))
  ]

  abbrev Reported : Option ℤ → W → Type 0
  Reported asked w = (succeeded (after_query run (activity_of run asked, w)).0 ≡ true) ↔ (
      (asked ≡ some (pos 3)) ⊎ ((asked ≡ some (pos 0)) × ((run reload_command w).0 ≡ some (pos 0))))

  active-Reported : (w : W) → Reported (some (pos 0)) w
  unfolding after_query reload
  active-Reported w = (
    λ h. inr (refl, (reload_reported (run reload_command w).0 (run reload_command w).1).0 h),
    λ h. elim h [
      | inl other ↦ absurd (ground arith)
      | inr (_, answered) ↦
          (reload_reported (run reload_command w).0 (run reload_command w).1).1 answered
    ],
  )

  inactive-Reported : (w : W) → Reported (some (pos 3)) w
  unfolding after_query
  inactive-Reported w = (λ _. inl refl, λ _. refl)

  asked-Reported : (asked : Option ℤ) (w : W) → Reported asked w
  unfolding after_query
  asked-Reported none w =
      (λ h. absurd (cc), λ h. elim h [ inl e ↦ absurd (cc e) | inr (e, _) ↦ absurd (cc e) ])
  asked-Reported (some code) w = elim (Bool-cases (code == pos 0)) [
    | inl zero_ ↦
        subst (λ c. Reported (some c) w) (sym ((int_eq.beq_iff code (pos 0)).0 zero_))
          (active-Reported w)
    | inr nonzero ↦ elim (Bool-cases (code == pos 3)) [
      | inl three ↦
          subst (λ c. Reported (some c) w) (sym ((int_eq.beq_iff code (pos 3)).0 three))
            (inactive-Reported w)
      | inr other ↦
          rw (nonzero, other)
            (
              λ h. absurd (cc),
              λ h. elim h [
                | inl e ↦ absurd (ground (arith, code_of e, int_eq.beq_iff code (pos 3)))
                | inr (e, _) ↦ absurd (ground (arith, code_of e, int_eq.beq_iff code (pos 0)))
              ],
            )
    ]
  ]

  -- A notification succeeds exactly when the unit is reported stopped, by the return code 3 of the
  -- query, or when the query returns 0 and the reload after it returns 0.
  pub notify_after_mutation_iff :
      (w : W)
      → let (asked, w1) = run is_active_command w in
        (succeeded (notify_after_mutation run w).0 ≡ true) ↔ (
          (asked ≡ some (pos 3))
          ⊎ ((asked ≡ some (pos 0)) × ((run reload_command w1).0 ≡ some (pos 0))))
  unfolding notify_after_mutation
  notify_after_mutation_iff w =
      asked-Reported (run is_active_command w).0 (run is_active_command w).1
