-- ===== src/State/Refinement.antt =====
-- The operations of src/ski/state.py on the tables do what the ledger says.
use server_key_injection.Base.{
  ℕ, ◌≡◌, refl, ap, ◌∙◌, true, false, not, ◌&&◌, Option, none, some, List, [], ◌∷◌, ◌++◌, map,
  Result, ok, err, contains, all, arith, ◌==◌, nat_eq, list_eq, pair_eq, pair_beq, list_beq,
  Bool-cases, inl, inr, ◌⊎◌, Ensures, Ensures->>=,
}
use server_key_injection.Base.Int.{pos}
use server_key_injection.Base.Text.{Text, codes}
use server_key_injection.Base.Decimal.{print_ℕ, print_ℕ_injective}
use server_key_injection.Policy.Values.{int_value, str_value, value_beq, value_beq_iff, value_eq}
use server_key_injection.State.Exec.{
  ◌>>=◌, bind_ok, bind_err, transaction_ok, transaction_err, convert_ok, convert_err, convert, lift,
  Run, pure, ◌>>◌,
}
use server_key_injection.State.Tables.{
  CaTables, CertificateRow, EventRow, CertificateValues, SqlError, text, integrity, ca_ids,
  certificate_allowed, event_allowed, insert_certificate, insert_certificate_row, insert_event_row,
  insert_issued_event,
}
use server_key_injection.State.Json.{dumps}
use server_key_injection.State.Validation.{
  StateError, CertificateFields, validate_positive_id, validate_serial, validate_identity,
  validate_text, validate_principals, validate_interval, validate_outcome,
  validated_certificate_fields,
}
use server_key_injection.State.Records.{CaKeyRecord, CertificateRecord, EventRecord}
use server_key_injection.State.{
  already_recorded, record_certificate_with_event, insert_validated, certificate_record,
}
use server_key_injection.State.Verify.{certificate_key}
use server_key_injection.State.Rows.{ca_row, certificate_row, event_row}
use server_key_injection.State.Ledger.{
  Ledger, listed, tables_of, is_ca, next_certificate_id, next_event_id, issued_event, issue,
  is_issuable, issue_certificate, issue_validated,
}

-- The foreign key of a column that holds a number.
foreign_key :
    (ca : Option CaKeyRecord) (n : ℕ)
    → contains (ca_ids (map ca_row (listed ca))) (int_value (pos n)) ≡ is_ca ca n
unfolding ca_ids contains value_beq
foreign_key none n = refl
foreign_key (some c) n = ground arith

same_number : (m n : ℕ) → value_beq (int_value (pos m)) (int_value (pos n)) ≡ (m == n)
unfolding value_beq
same_number m n = ground arith

same_serial : (m n : ℕ) → value_beq (text (print_ℕ m)) (text (print_ℕ n)) ≡ (m == n)
same_serial m n = ground (
  arith,
  value_beq_iff (text (print_ℕ m)) (text (print_ℕ n)),
  print_ℕ_injective m n,
  ap (λ k. text (print_ℕ k)) {x = m} {y = n},
)

-- The columns UNIQUE (ca_id, serial) against a new key.
unique_key :
    (cs : List CertificateRecord) (ca serial : ℕ)
    → all
        (λ (r : CertificateRow).
          not (r.ca_id == int_value (pos ca) && r.serial == text (print_ℕ serial)))
        (map certificate_row cs)
      ≡ not (contains (map certificate_key cs) (ca, serial))
unfolding all contains pair_beq
unique_key [] ca serial = refl
unique_key (c ∷ cs) ca serial =
    ground (arith, same_number c.ca_id ca, same_serial c.serial serial, unique_key cs ca serial)

abbrev new_row : Ledger → List Text → CertificateValues → CertificateRow
new_row l principals v = certificate_row (certificate_record (next_certificate_id l) principals v)

map_certificate_id :
    (cs : List CertificateRecord)
    → map (λ (r : CertificateRow). r.certificate_id) (map certificate_row cs)
      ≡ map (λ (c : CertificateRecord). c.certificate_id) cs
map_certificate_id [] = refl
map_certificate_id (c ∷ cs) = ap (λ ns. c.certificate_id ∷ ns) (map_certificate_id cs)

pub map_event_id :
    (es : List EventRecord)
    → map (λ (r : EventRow). r.event_id) (map event_row es)
      ≡ map (λ (e : EventRecord). e.event_id) es
map_event_id [] = refl
map_event_id (e ∷ es) = ap (λ ns. e.event_id ∷ ns) (map_event_id es)

succeeded :
    (v : CertificateValues)
    → v.outcome ≡ codes "success"
    → value_beq (text v.outcome) (text (codes "success")) ≡ true
unfolding value_beq list_beq
succeeded v success = rw success

-- The constraints let exactly the issuable certificates in.
certificate_allowed-issuable :
    (l : Ledger) (id : ℕ) (principals : List Text) (v : CertificateValues)
    → v.outcome ≡ codes "success"
    → certificate_allowed
        (tables_of l)
        (record (certificate_row (certificate_record id principals v)) {
          principals = text v.encoded_principals;
        })
      ≡ is_issuable l v
unfolding certificate_allowed
certificate_allowed-issuable l id principals v success = ground (
  arith,
  foreign_key l.ca v.ca_id,
  unique_key l.certificates v.ca_id v.serial,
  succeeded v success,
)

-- The event of a known CA passes its constraints.
event_allowed-known :
    (l : Ledger) (certificates : List CertificateRow) (id : ℕ) (v : CertificateValues)
    → is_ca l.ca v.ca_id ≡ true
    → event_allowed
        (record (tables_of l) { certificates = certificates })
        (event_row (issued_event id v))
      ≡ true
unfolding event_allowed
event_allowed-known l certificates id v known = ground (arith, foreign_key l.ca v.ca_id)

abbrev pub insert_values : CertificateValues → Run CaTables SqlError ℕ
insert_values v =
    insert_certificate_row (int_value (pos v.ca_id)) (text (print_ℕ v.serial)) (text v.identity)
      (text v.public_key_fingerprint) (text v.encoded_principals) (int_value v.valid_after)
      (int_value v.valid_before) (text v.request_id) (text v.outcome)

-- The INSERT of a certificate, against the ledger.
module _ (l : Ledger) (principals : List Text) (v : CertificateValues)
    (success : v.outcome ≡ codes "success")
    (encoded : v.encoded_principals ≡ dumps principals) where
  insert_values-issuable :
      is_issuable l v ≡ true
      → insert_values v (tables_of l) ≡ (
        ok (next_certificate_id l),
        record (tables_of l) {
          certificates = map certificate_row l.certificates ++ new_row l principals v ∷ [];
        },
      )
  unfolding insert_certificate_row
  insert_values-issuable issuable =
      rw
        (
          map_certificate_id l.certificates,
          certificate_allowed-issuable l (next_certificate_id l) principals v success,
          encoded,
          issuable,
        )
        refl

  insert_values-refused :
      is_issuable l v ≡ false → insert_values v (tables_of l) ≡ (err integrity, tables_of l)
  unfolding insert_certificate_row
  insert_values-refused refused =
      rw
        (
          map_certificate_id l.certificates,
          certificate_allowed-issuable l (next_certificate_id l) principals v success,
          refused,
        )
        refl

pub map_snoc :
    {A B : Type 0} (f : A → B) (xs : List A) (x : A) → map f (xs ++ x ∷ []) ≡ map f xs ++ f x ∷ []
map_snoc f [] x = refl
map_snoc f (y ∷ xs) x = ap (λ ys. f y ∷ ys) (map_snoc f xs x)

-- The INSERT of the event of a certificate of a known CA.
insert_issued_event-known :
    (l : Ledger) (certificates : List CertificateRow) (v : CertificateValues)
    → is_ca l.ca v.ca_id ≡ true
    → insert_issued_event true v (record (tables_of l) { certificates = certificates }) ≡ (
      ok (next_event_id l),
      record (tables_of l) {
        certificates = certificates;
        events = map event_row l.events ++ event_row (issued_event (next_event_id l) v) ∷ [];
      },
    )
unfolding insert_issued_event insert_event_row
insert_issued_event-known l certificates v known =
    rw (map_event_id l.events, event_allowed-known l certificates (next_event_id l) v known) refl

known_of_issuable :
    (l : Ledger) (v : CertificateValues) → is_issuable l v ≡ true → is_ca l.ca v.ca_id ≡ true
known_of_issuable l v h = ground arith

-- The transaction of both, where the certificate is issuable.
insert_certificate-issuable :
    (l : Ledger) (principals : List Text) (v : CertificateValues)
    → v.outcome ≡ codes "success"
    → v.encoded_principals ≡ dumps principals
    → is_issuable l v ≡ true
    → insert_certificate true v (tables_of l)
      ≡ (ok (next_certificate_id l), tables_of (issue l principals v))
unfolding insert_certificate
insert_certificate-issuable l principals v success encoded issuable =
    transaction_ok (insert_values v >>= λ id. insert_issued_event true v >> pure id) (tables_of l) (
      bind_ok (insert_values v) (λ id. insert_issued_event true v >> pure id) (tables_of l)
        (insert_values-issuable l principals v success encoded issuable)
      ∙ bind_ok (insert_issued_event true v) (λ _. pure (next_certificate_id l)) _
          (insert_issued_event-known l
            (map certificate_row l.certificates ++ new_row l principals v ∷ []) v
            (known_of_issuable l v issuable)))
    ∙ rw
        (
          map_snoc certificate_row l.certificates
              (certificate_record (next_certificate_id l) principals v),
          map_snoc event_row l.events (issued_event (next_event_id l) v),
        )
        refl

-- The transaction where it is not.
insert_certificate-refused :
    (l : Ledger) (principals : List Text) (v : CertificateValues)
    → v.outcome ≡ codes "success"
    → v.encoded_principals ≡ dumps principals
    → is_issuable l v ≡ false
    → insert_certificate true v (tables_of l) ≡ (err integrity, tables_of l)
unfolding insert_certificate
insert_certificate-refused l principals v success encoded refused =
    transaction_err (insert_values v >>= λ id. insert_issued_event true v >> pure id) (tables_of l)
      (bind_err (insert_values v) (λ id. insert_issued_event true v >> pure id) (tables_of l)
        (insert_values-refused l principals v success encoded refused))

abbrev IsSuccess : List Text × CertificateValues → Type 0
IsSuccess (principals, v) =
    (v.outcome ≡ codes "success") × (v.encoded_principals ≡ dumps principals)

-- What validation lets through.
validated-IsSuccess :
    (f : CertificateFields)
    → Ensures IsSuccess (validated_certificate_fields f (str_value (codes "success")))
unfolding validated_certificate_fields validate_outcome Ensures list_beq
validated-IsSuccess f = Ensures->>= IsSuccess (validate_positive_id f.ca_id) _ λ _ _.
    Ensures->>= IsSuccess (validate_serial f.serial) _ λ _ _.
      Ensures->>= IsSuccess (validate_identity f.identity) _ λ _ _.
        Ensures->>= IsSuccess (validate_text f.public_key_fingerprint _) _ λ _ _.
          Ensures->>= IsSuccess (validate_principals f.principals) _ λ _ _.
            Ensures->>= IsSuccess (validate_interval f.valid_after f.valid_before) _
              λ _ _. Ensures->>= IsSuccess (validate_text f.request_id _) _ λ _ _. (refl, refl)

-- The operation after validation, against the ledger.
insert-issue :
    (l : Ledger) (principals : List Text) (v : CertificateValues)
    → IsSuccess (principals, v)
    → (is_issuable l v ≡ true) ⊎ (is_issuable l v ≡ false)
    → let (r, l') = issue_validated (ok (principals, v)) l in
      (convert already_recorded (insert_certificate true v) >>= λ id.
      pure (certificate_record id principals v))
        (tables_of l)
      ≡ (r, tables_of l')
insert-issue l principals v (success, encoded) (inl issuable) =
    bind_ok (convert already_recorded (insert_certificate true v))
      (λ id. pure (certificate_record id principals v)) (tables_of l)
      (convert_ok already_recorded (insert_certificate true v) (tables_of l)
        (insert_certificate-issuable l principals v success encoded issuable))
    ∙ rw issuable refl
insert-issue l principals v (success, encoded) (inr refused) =
    bind_err (convert already_recorded (insert_certificate true v))
      (λ id. pure (certificate_record id principals v)) (tables_of l)
      (convert_err already_recorded (insert_certificate true v) (tables_of l)
        (insert_certificate-refused l principals v success encoded refused))
    ∙ rw refused refl

insert-issue_validated :
    (r : Result StateError (List Text × CertificateValues)) (l : Ledger)
    → Ensures IsSuccess r
    → let (x, l') = issue_validated r l in
      (lift r >>= λ (principals, v). convert already_recorded (insert_certificate true v) >>= λ id.
      pure (certificate_record id principals v))
        (tables_of l)
      ≡ (x, tables_of l')
unfolding Ensures
insert-issue_validated (ok (principals, v)) l success =
    insert-issue l principals v success (Bool-cases (is_issuable l v))
insert-issue_validated (err e) l success = refl

-- Recording a certificate with its event on the rows of a ledger returns what issuing on the ledger
-- returns, and leaves the rows of the ledger that issuing leaves, on every branch: a refused
-- argument, an unknown CA or a used serial changes nothing.
pub record_certificate_with_event-refines :
    (f : CertificateFields) (l : Ledger)
    → let (r, l') = issue_certificate f l in
      record_certificate_with_event f (tables_of l) ≡ (r, tables_of l')
unfolding record_certificate_with_event insert_validated
record_certificate_with_event-refines f l =
    insert-issue_validated (validated_certificate_fields f (str_value (codes "success"))) l
      (validated-IsSuccess f)
