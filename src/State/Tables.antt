-- ===== src/State/Tables.antt =====
-- src/ski/migrations.py: the tables of the CA and their constraints; and the statements on them of
-- src/ski/ca_persistence.py. A column holds any value, as SQLite's columns do.
use server_key_injection.Base.{
  ℕ, ◌+◌, Bool, true, false, not, ◌&&◌, ◌||◌, List, [], ◌∷◌, ◌++◌, map, all, contains,
  if◌then◌else◌, ◌==◌, nat_eq, list_eq, ltb,
}
use server_key_injection.Base.Int.{ℤ, pos}
use server_key_injection.Base.Text.{Text, codes}
use server_key_injection.Base.Decimal.{print_ℕ}
use server_key_injection.Policy.Values.{
  Value, none_value, int_value, str_value, bytes_value, value_eq,
}
use server_key_injection.State.Exec.{Run, pure, modify, demand, transaction, ◌>>=◌, ◌>>◌}

-- ca_keys
pub record CaRow : Type 0 where
  pub ca_id : ℕ
  pub algorithm : Value
  pub public_key : Value
  pub fingerprint : Value
  pub private_key_path : Value
  pub activated_at : Value
  pub status : Value

-- certificates
pub record CertificateRow : Type 0 where
  pub certificate_id : ℕ
  pub ca_id : Value
  pub serial : Value
  pub identity : Value
  pub public_key_fingerprint : Value
  pub principals : Value
  pub valid_after : Value
  pub valid_before : Value
  pub request_id : Value
  pub outcome : Value

-- events
pub record EventRow : Type 0 where
  pub event_id : ℕ
  pub occurred_at : Value
  pub kind : Value
  pub decision : Value
  pub request_id : Value
  pub identity : Value
  pub ca_id : Value
  pub serial : Value

pub record CaTables : Type 0 where
  pub ca_keys : List CaRow
  pub certificates : List CertificateRow
  pub events : List EventRow

abbrev pub empty_tables : CaTables
empty_tables = record { ca_keys = []; certificates = []; events = [] }

-- sqlite3.IntegrityError
pub data SqlError : Type 0 where
  integrity : SqlError

abbrev pub Sql : Type 0 → Type 0
Sql = Run CaTables SqlError

abbrev pub text : Text → Value
text = str_value

abbrev given : Value → Bool
given none_value = false
given _ = true

-- The next rowid of an INTEGER PRIMARY KEY: one above the largest.
unfoldable pub largest : List ℕ → ℕ
largest [] = 0
largest (n ∷ ns) = let m = largest ns in if ltb m n then n else m

unfoldable pub next_rowid : List ℕ → ℕ
unfolding largest
next_rowid ns = largest ns + 1

abbrev pub active : Value
active = str_value (codes "active")

abbrev pub ed25519 : Text
ed25519 = codes "ssh-ed25519"

unfoldable pub ca_ids : List CaRow → List Value
ca_ids [] = []
ca_ids (row ∷ rows) = int_value (pos row.ca_id) ∷ ca_ids rows

-- The constraints of `ca_keys`: the columns are NOT NULL, the CHECKs, UNIQUE (fingerprint), and the
-- index `ca_keys_one_active`.
unfoldable pub ca_allowed : List CaRow → CaRow → Bool
ca_allowed rows row =
    row.algorithm == text ed25519
    && given row.public_key
    && given row.fingerprint
    && given row.private_key_path
    && given row.activated_at
    && (row.status == active || row.status == text (codes "retired"))
    && not (contains (map (λ (r : CaRow). r.fingerprint) rows) row.fingerprint)
    && (not (row.status == active) || not (contains (map (λ (r : CaRow). r.status) rows) active))

-- The constraints of `certificates`: NOT NULL, the CHECK, UNIQUE (ca_id, serial), and the foreign key.
unfoldable pub certificate_allowed : CaTables → CertificateRow → Bool
unfolding ca_ids
certificate_allowed tables row =
    given row.ca_id
    && given row.serial
    && given row.identity
    && given row.public_key_fingerprint
    && given row.principals
    && given row.valid_after
    && given row.valid_before
    && given row.request_id
    && (row.outcome == text (codes "success") || row.outcome == text (codes "failed"))
    && contains (ca_ids tables.ca_keys) row.ca_id
    && all (λ (r : CertificateRow). not (r.ca_id == row.ca_id && r.serial == row.serial))
        tables.certificates

-- The constraints of `events`: NOT NULL, and the foreign key, which NULL passes.
unfoldable pub event_allowed : CaTables → EventRow → Bool
unfolding ca_ids
event_allowed tables row =
    given row.occurred_at
    && given row.kind
    && given row.decision
    && given row.request_id
    && (row.ca_id == none_value || contains (ca_ids tables.ca_keys) row.ca_id)

abbrev add_ca : CaRow → CaTables → CaTables
add_ca row t = record t { ca_keys = t.ca_keys ++ row ∷ [] }

abbrev add_certificate : CertificateRow → CaTables → CaTables
add_certificate row t = record t { certificates = t.certificates ++ row ∷ [] }

abbrev add_event : EventRow → CaTables → CaTables
add_event row t = record t { events = t.events ++ row ∷ [] }

-- INSERT statements: the new row, and its rowid.
unfoldable pub insert_ca_row : (algorithm public_key fingerprint path activated_at : Value) → Sql ℕ
insert_ca_row algorithm public_key fingerprint path activated_at t =
    let row : CaRow = record {
      ca_id = next_rowid (map (λ (r : CaRow). r.ca_id) t.ca_keys);
      algorithm = algorithm;
      public_key = public_key;
      fingerprint = fingerprint;
      private_key_path = path;
      activated_at = activated_at;
      status = active;
    } in
    (do demand (ca_allowed t.ca_keys row) integrity; modify (add_ca row); pure row.ca_id) t

unfoldable pub insert_certificate_row :
    (ca_id serial identity public_key_fingerprint principals : Value)
    → (valid_after valid_before request_id outcome : Value) → Sql ℕ
insert_certificate_row ca_id serial identity fingerprint principals after before request_id outcome
      t =
    let row : CertificateRow = record {
      certificate_id = next_rowid (map (λ (r : CertificateRow). r.certificate_id) t.certificates);
      ca_id = ca_id;
      serial = serial;
      identity = identity;
      public_key_fingerprint = fingerprint;
      principals = principals;
      valid_after = after;
      valid_before = before;
      request_id = request_id;
      outcome = outcome;
    } in
    (do
      demand (certificate_allowed t row) integrity
      modify (add_certificate row)
      pure row.certificate_id)
      t

unfoldable pub insert_event_row :
    (occurred_at kind decision request_id identity ca_id serial : Value) → Sql ℕ
insert_event_row occurred_at kind decision request_id identity ca_id serial t =
    let row : EventRow = record {
      event_id = next_rowid (map (λ (r : EventRow). r.event_id) t.events);
      occurred_at = occurred_at;
      kind = kind;
      decision = decision;
      request_id = request_id;
      identity = identity;
      ca_id = ca_id;
      serial = serial;
    } in
    (do demand (event_allowed t row) integrity; modify (add_event row); pure row.event_id) t

-- What `insert_ca`, `insert_ca_with_event` and `insert_certificate` are given.
pub record CaValues : Type 0 where
  pub algorithm : Text
  pub public_key : Text
  pub fingerprint : Text
  pub private_key_path : Text
  pub activated_at : ℤ

pub record CertificateValues : Type 0 where
  pub ca_id : ℕ
  pub serial : ℕ
  pub identity : Text
  pub public_key_fingerprint : Text
  pub encoded_principals : Text
  pub valid_after : ℤ
  pub valid_before : ℤ
  pub request_id : Text
  pub outcome : Text

unfoldable pub insert_ca : CaValues → Sql ℕ
insert_ca v = transaction (
    insert_ca_row (text v.algorithm) (bytes_value v.public_key) (text v.fingerprint)
      (text v.private_key_path) (int_value v.activated_at))

unfoldable pub insert_ca_with_event : CaValues → Text → Sql ℕ
insert_ca_with_event v request_id = transaction (do
  ca_id ←
      insert_ca_row (text v.algorithm) (bytes_value v.public_key) (text v.fingerprint)
        (text v.private_key_path) (int_value v.activated_at)
  insert_event_row (int_value v.activated_at) (text (codes "ca_initialized")) (text (codes "allow"))
      (text request_id) none_value (int_value (pos ca_id)) none_value
  pure ca_id)

-- The event of `insert_certificate`, where `record_event` is set.
unfoldable pub insert_issued_event : Bool → CertificateValues → Sql ℕ
insert_issued_event false v = pure 0
insert_issued_event true v =
    insert_event_row (int_value v.valid_after) (text (codes "certificate_issued"))
      (text (codes "allow")) (text v.request_id) (text v.identity) (int_value (pos v.ca_id))
      (text (print_ℕ v.serial))

unfoldable pub insert_certificate : Bool → CertificateValues → Sql ℕ
insert_certificate record_event v = transaction (do
  certificate_id ←
      insert_certificate_row (int_value (pos v.ca_id)) (text (print_ℕ v.serial)) (text v.identity)
        (text v.public_key_fingerprint) (text v.encoded_principals) (int_value v.valid_after)
        (int_value v.valid_before) (text v.request_id) (text v.outcome)
  insert_issued_event record_event v
  pure certificate_id)

-- `insert_event` of ca_persistence.py
unfoldable pub insert_event :
    (occurred_at kind decision request_id identity ca_id serial : Value) → Sql ℕ
insert_event occurred_at kind decision request_id identity ca_id serial =
    transaction (insert_event_row occurred_at kind decision request_id identity ca_id serial)
