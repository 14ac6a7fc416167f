-- ===== src/State/Rows.antt =====
-- The rows that the inserts of src/ski/state.py write for a record, and their reading back.
use server_key_injection.Base.{
  ℕ, zero, suc, ◌≤◌, ◌<◌, ◌≡◌, refl, Bool, true, false, ◌||◌, ◌⊎◌, inl, inr, Option, none, some,
  List, [], ◌∷◌, map, arith, ok, contains, all, All, le→leb, list_beq, ◌==◌, nat_eq, list_eq,
  beq_refl,
}
use server_key_injection.Base.Int.{ℤ, pos, ◌-ℤ◌, int_eq}
use server_key_injection.Base.Text.{Text, codes}
use server_key_injection.Base.Decimal.{print_ℕ, read_int-print_ℕ}
use server_key_injection.Base.Pattern.{full_match, is_lower, is_account_char, is_name_char}
use server_key_injection.Policy
use server_key_injection.Policy.{
  username_pattern, group_pattern, group_principal, ordinary_certificate_lifetime,
}
use server_key_injection.Policy.Values.{int_value, bytes_value, value_beq}
use server_key_injection.Policy.Shape.{ArePrincipals}
use server_key_injection.Policy.Laws.{accept_tuple}
use server_key_injection.State.Json.{dumps, loads-dumps, IsPlain, is_plain}
use server_key_injection.State.Tables.{CaRow, CertificateRow, EventRow, text, ed25519}
use server_key_injection.State.Validation.{
  validate_text, validate_positive_id, validate_serial, validate_identity, validate_principals,
  validate_outcome, serial_max,
}
use server_key_injection.State.Records.{
  CaKeyRecord, CertificateRecord, EventRecord, PublicKey, read_serial, read_principals,
  read_interval, certificate_record_from_row, event_record_from_row, ca_record_from_row,
  unless_null, check_ca_public_key, validate_ca_public_key, validate_private_key_path,
}
use server_key_injection.State.Events.{optional}

abbrev pub certificate_row : CertificateRecord → CertificateRow
certificate_row c = record {
  certificate_id = c.certificate_id;
  ca_id = int_value (pos c.ca_id);
  serial = text (print_ℕ c.serial);
  identity = text c.identity;
  public_key_fingerprint = text c.public_key_fingerprint;
  principals = text (dumps c.principals);
  valid_after = int_value c.valid_after;
  valid_before = int_value c.valid_before;
  request_id = text c.request_id;
  outcome = text c.outcome;
}

abbrev pub event_row : EventRecord → EventRow
event_row e = record {
  event_id = e.event_id;
  occurred_at = int_value e.occurred_at;
  kind = text e.kind;
  decision = text e.decision;
  request_id = text e.request_id;
  identity = optional text e.identity;
  ca_id = optional (λ n. int_value (pos n)) e.ca_id;
  serial = optional (λ n. text (print_ℕ n)) e.serial;
}

-- A text that `_validate_text` passes.
abbrev pub IsText : Text → Type 0
IsText s = ((s == []) || contains s 0) ≡ false

pub record IsCertificate (c : CertificateRecord) : Type 0 where
  pub certificate_id : 0 < c.certificate_id
  pub ca_id : 0 < c.ca_id
  pub serial : c.serial ≤ serial_max
  pub identity : username_pattern c.identity ≡ true
  pub fingerprint : IsText c.public_key_fingerprint
  pub user : Text
  pub groups : List Text
  pub principals : ArePrincipals c.principals user groups
  pub interval : (c.valid_before -ℤ c.valid_after) ≡ pos ordinary_certificate_lifetime
  pub request_id : IsText c.request_id
  pub outcome : (c.outcome ≡ codes "success") ⊎ (c.outcome ≡ codes "failed")

pub record IsEvent (e : EventRecord) : Type 0 where
  pub event_id : 0 < e.event_id
  pub occurred_at : (n : ℕ) × (e.occurred_at ≡ pos n)
  pub kind : IsText e.kind
  pub decision : IsText e.decision
  pub request_id : IsText e.request_id
  pub identity :
      (e.identity ≡ none) ⊎ ((s : Text) × (e.identity ≡ some s) × (username_pattern s ≡ true))
  pub ca_id : (e.ca_id ≡ none) ⊎ ((n : ℕ) × (e.ca_id ≡ some n) × (0 < n))
  pub serial : (e.serial ≡ none) ⊎ ((n : ℕ) × (e.serial ≡ some n) × (n ≤ serial_max))

-- Canonical names hold only characters that JSON writes as themselves.
all-IsPlain :
    (p : ℕ → Bool) (s : Text)
    → ((c : ℕ) → p c ≡ true → is_plain c ≡ true)
    → all p s ≡ true
    → IsPlain s
unfolding all
all-IsPlain p [] h k = refl
all-IsPlain p (c ∷ s) h k = ground (arith, h c, all-IsPlain p s h)

lower_plain : (c : ℕ) → is_lower c ≡ true → is_plain c ≡ true
unfolding is_lower is_plain
lower_plain c h = ground arith

account_plain : (c : ℕ) → is_account_char c ≡ true → is_plain c ≡ true
unfolding is_account_char is_plain
account_plain c h = ground arith

name_plain : (c : ℕ) → is_name_char c ≡ true → is_plain c ≡ true
unfolding is_name_char is_plain
name_plain c h = ground arith

match-IsPlain :
    (first rest : ℕ → Bool) (max : ℕ) (s : Text)
    → ((c : ℕ) → first c ≡ true → is_plain c ≡ true)
    → ((c : ℕ) → rest c ≡ true → is_plain c ≡ true)
    → full_match first rest max s ≡ true
    → IsPlain s
unfolding full_match all
match-IsPlain first rest max [] f r h = refl
match-IsPlain first rest max (c ∷ s) f r h = ground (arith, f c, all-IsPlain rest s r)

group-IsPlain : (g : Text) → group_pattern g ≡ true → IsPlain (group_principal g)
unfolding group_pattern all is_plain
group-IsPlain g h = match-IsPlain is_lower is_name_char 62 g lower_plain name_plain h

groups-IsPlain :
    (gs : List Text) → All (λ g. group_pattern g ≡ true) gs → All IsPlain (map group_principal gs)
groups-IsPlain [] h = tt
groups-IsPlain (g ∷ gs) h = (group-IsPlain g h.0, groups-IsPlain gs h.1)

principals-IsPlain :
    {ps : List Text} (user : Text) (groups : List Text)
    → ArePrincipals ps user groups
    → All IsPlain ps
unfolding username_pattern
principals-IsPlain user groups h = rw h.shape (
  match-IsPlain is_lower is_account_char 31 user lower_plain account_plain h.canonical_user,
  groups-IsPlain groups h.canonical_groups,
)

pub read_principals-dumps :
    {ps : List Text} (user : Text) (groups : List Text)
    → ArePrincipals ps user groups
    → read_principals (text (dumps ps)) ≡ ok ps
unfolding read_principals validate_principals
read_principals-dumps {ps} user groups h =
    rw (loads-dumps ps (principals-IsPlain user groups h), read_principals)
      (rw (accept_tuple user groups h))

pub read_serial-print_ℕ :
    (n : ℕ) (error : Text) → n ≤ serial_max → read_serial (text (print_ℕ n)) error ≡ ok n
unfolding read_serial validate_serial
read_serial-print_ℕ n error h = rw (read_int-print_ℕ n, read_serial) (rw (le→leb n serial_max h))

pub validate_positive_id-pos : (n : ℕ) → 0 < n → validate_positive_id (int_value (pos n)) ≡ ok n
unfolding validate_positive_id
validate_positive_id-pos zero h = absurd (omega arith)
validate_positive_id-pos (suc n) h = refl

pub validate_text-IsText : (s error : Text) → IsText s → validate_text (text s) error ≡ ok s
unfolding validate_text
validate_text-IsText s error h = rw h

pub validate_identity-canonical :
    (s : Text) → username_pattern s ≡ true → validate_identity (text s) ≡ ok s
unfolding validate_identity Policy.validate_username
validate_identity-canonical s h = rw h

read_interval-fixed :
    (after before : ℤ)
    → (before -ℤ after) ≡ pos ordinary_certificate_lifetime
    → read_interval (int_value after) (int_value before) ≡ ok (after, before)
unfolding read_interval
read_interval-fixed after before h = rw h

validate_outcome-known :
    (s : Text) → (s ≡ codes "success") ⊎ (s ≡ codes "failed") → validate_outcome (text s) ≡ ok s
unfolding validate_outcome list_beq
validate_outcome-known s (inl e) = rw e
validate_outcome-known s (inr e) = rw e

pub nonzero : (n : ℕ) → 0 < n → (n == 0) ≡ false
nonzero n h = ground arith

-- The row of a certificate whose fields are valid reads back as that certificate, principals and
-- serial included.
pub certificate_record_from_row-certificate_row :
    (c : CertificateRecord)
    → IsCertificate c
    → certificate_record_from_row (certificate_row c) ≡ ok c
unfolding certificate_record_from_row
certificate_record_from_row-certificate_row c h = rw (
  nonzero c.certificate_id h.certificate_id,
  validate_positive_id-pos c.ca_id h.ca_id,
  read_serial-print_ℕ c.serial (codes "certificate serial is malformed") h.serial,
  validate_identity-canonical c.identity h.identity,
  validate_text-IsText c.public_key_fingerprint (codes "public key fingerprint is malformed")
      h.fingerprint,
  read_principals-dumps h.user h.groups h.principals,
  read_interval-fixed c.valid_after c.valid_before h.interval,
  validate_text-IsText c.request_id (codes "request id is malformed") h.request_id,
  validate_outcome-known c.outcome h.outcome,
)

identity_column :
    (o : Option Text)
    → (o ≡ none) ⊎ ((s : Text) × (o ≡ some s) × (username_pattern s ≡ true))
    → unless_null (optional text o) validate_identity ≡ ok o
identity_column o (inl e) = rw e
identity_column o (inr (s, e, h)) = rw (e, validate_identity-canonical s h)

ca_id_column :
    (o : Option ℕ)
    → (o ≡ none) ⊎ ((n : ℕ) × (o ≡ some n) × (0 < n))
    → unless_null (optional (λ n. int_value (pos n)) o) validate_positive_id ≡ ok o
ca_id_column o (inl e) = rw e
ca_id_column o (inr (n, e, h)) = rw (e, validate_positive_id-pos n h)

serial_column :
    (o : Option ℕ) (error : Text)
    → (o ≡ none) ⊎ ((n : ℕ) × (o ≡ some n) × (n ≤ serial_max))
    → unless_null (optional (λ n. text (print_ℕ n)) o) (λ v. read_serial v error) ≡ ok o
serial_column o error (inl e) = rw e
serial_column o error (inr (n, e, h)) = rw (e, read_serial-print_ℕ n error h)

-- The row of an event whose fields are valid, at a time since 1970, reads back as that event,
-- whichever of its identity, CA and serial are left out.
pub event_record_from_row-event_row :
    (e : EventRecord) → IsEvent e → event_record_from_row (event_row e) ≡ ok e
unfolding event_record_from_row
event_record_from_row-event_row e h =
    let (n, at) = h.occurred_at in
    rw (
      nonzero e.event_id h.event_id,
      at,
      validate_text-IsText e.kind (codes "event kind is malformed") h.kind,
      validate_text-IsText e.decision (codes "event decision is malformed") h.decision,
      validate_text-IsText e.request_id (codes "request id is malformed") h.request_id,
      identity_column e.identity h.identity,
      ca_id_column e.ca_id h.ca_id,
      serial_column e.serial (codes "event serial is malformed") h.serial,
    )

abbrev pub ca_row : CaKeyRecord → CaRow
ca_row c = record {
  ca_id = c.ca_id;
  algorithm = text c.algorithm;
  public_key = bytes_value c.public_key;
  fingerprint = text c.fingerprint;
  private_key_path = text c.private_key_path;
  activated_at = int_value c.activated_at;
  status = text c.status;
}

module _ (import_public_key : Text → Option PublicKey) where
  -- An active CA whose public key asyncssh reads back as it is stored.
  pub record IsCa (c : CaKeyRecord) : Type 0 where
    pub ca_id : 0 < c.ca_id
    pub algorithm : c.algorithm ≡ ed25519
    pub some_key : (c.public_key == []) ≡ false
    pub some_fingerprint : (c.fingerprint == []) ≡ false
    pub imported :
        import_public_key c.public_key
        ≡ some
            (record { algorithm = ed25519; fingerprint = c.fingerprint; exported = c.public_key })
    pub path : validate_private_key_path c.private_key_path ≡ ok c.private_key_path
    pub activated_at : (n : ℕ) × (c.activated_at ≡ pos n)
    pub status : c.status ≡ codes "active"

  key_accepted :
      (public_key fingerprint : Text)
      → import_public_key public_key
        ≡ some (record { algorithm = ed25519; fingerprint = fingerprint; exported = public_key })
      → check_ca_public_key import_public_key public_key fingerprint
        ≡ ok (record { algorithm = ed25519; fingerprint = fingerprint; exported = public_key })
  unfolding check_ca_public_key
  key_accepted public_key fingerprint h =
      rw (h, check_ca_public_key) (rw (beq_refl ed25519, beq_refl fingerprint))

  -- The row of an active CA whose fields are valid reads back as that CA, where asyncssh reads
  -- the stored key as an Ed25519 key with the stored fingerprint.
  pub ca_record_from_row-ca_row :
      (c : CaKeyRecord) → IsCa c → ca_record_from_row import_public_key (ca_row c) ≡ ok c
  unfolding ca_record_from_row validate_ca_public_key value_beq list_beq
  ca_record_from_row-ca_row c h =
      let (n, at) = h.activated_at in
      rw (
        nonzero c.ca_id h.ca_id,
        h.algorithm,
        at,
        h.status,
        h.some_key,
        h.some_fingerprint,
        key_accepted c.public_key c.fingerprint h.imported,
        h.path,
      )
