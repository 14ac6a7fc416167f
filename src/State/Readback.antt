-- ===== src/State/Readback.antt =====
-- What src/ski/state.py recorded is what its listings read back: certificates.
use mathlib.Core.Path.{subst}
use server_key_injection.Base.{
  ℕ, ◌<◌, ◌≡◌, refl, sym, ap, ◌∙◌, true, List, [], ◌∷◌, ◌++◌, map, ok, traverse, ok-injective,
  Ensures, Ensures->>=, ensured, inl,
}
use server_key_injection.Base.Int.{pos}
use server_key_injection.Base.Text.{Text, codes}
use server_key_injection.Policy.Values.{Value, int_value, str_value}
use server_key_injection.State.Exec.{Run, pure, lift, convert, ◌>>=◌, ◌>>◌, >>=-eq-ok}
use server_key_injection.State.Tables.{
  CaTables, CertificateRow, CertificateValues, SqlError, insert_certificate, insert_certificate_row,
  insert_issued_event, integrity, next_rowid, certificate_allowed,
}
use server_key_injection.Base.Decimal.{print_ℕ}
use server_key_injection.State.Json.{dumps}
use server_key_injection.State.Validation.{
  StateError, CertificateFields, validated_certificate_fields, validate_positive_id,
  validate_serial, validate_identity, validate_text, validate_principals, validate_interval,
  validate_outcome,
}
use server_key_injection.State.Records.{CertificateRecord, certificate_record_from_row}
use server_key_injection.State.{
  already_recorded, certificate_record, insert_validated, record_certificate_with_event,
  list_certificates,
}
use server_key_injection.State.Rows.{
  IsCertificate, certificate_row, certificate_record_from_row-certificate_row,
}
use server_key_injection.State.Issuing.{positive_rowid}
use server_key_injection.State.Validated.{IsValid, AreValid, validated-IsValid}
use server_key_injection.State.Inserted.{
  transaction-eq-ok, convert-eq-ok, demanded, traverse_snoc, event_inserted,
}

-- Recording a certificate that succeeded added the row of its record.
encoded :
    (f : CertificateFields) (o : Value)
    → Ensures {E = StateError} {A = List Text × CertificateValues}
        (λ (ps, v). v.encoded_principals ≡ dumps ps)
        (validated_certificate_fields f o)
unfolding validated_certificate_fields Ensures
encoded f o = Ensures->>= _ (validate_positive_id f.ca_id) _ λ _ _.
    Ensures->>= _ (validate_serial f.serial) _ λ _ _.
      Ensures->>= _ (validate_identity f.identity) _ λ _ _.
        Ensures->>= _ (validate_text f.public_key_fingerprint _) _ λ _ _.
          Ensures->>= _ (validate_principals f.principals) _ λ _ _.
            Ensures->>= _ (validate_interval f.valid_after f.valid_before) _ λ _ _.
              Ensures->>= _ (validate_text f.request_id _) _
                λ _ _. Ensures->>= _ (validate_outcome o) _ λ _ _. refl

abbrev issued_row : ℕ → CertificateValues → CertificateRow
issued_row id v = record (certificate_row (certificate_record id [] v)) {
  principals = str_value v.encoded_principals;
}

abbrev insert_row : CertificateValues → Run CaTables SqlError ℕ
insert_row v =
    insert_certificate_row (int_value (pos v.ca_id)) (str_value (print_ℕ v.serial))
      (str_value v.identity) (str_value v.public_key_fingerprint) (str_value v.encoded_principals)
      (int_value v.valid_after) (int_value v.valid_before) (str_value v.request_id)
      (str_value v.outcome)

row_inserted :
    (v : CertificateValues) (t : CaTables) (n : ℕ) (t' : CaTables)
    → insert_row v t ≡ (ok n, t')
    → (0 < n) × (t'.certificates ≡ t.certificates ++ issued_row n v ∷ [])
unfolding insert_certificate_row
row_inserted v t n t' h =
    let ids = map (λ (r : CertificateRow). r.certificate_id) t.certificates in
    let row = issued_row (next_rowid ids) v in
    let (_, same, added) =
      demanded (certificate_allowed t row) integrity
        (λ (u : CaTables). record u { certificates = u.certificates ++ row ∷ [] }) (next_rowid ids)
        t h in
    (
      subst (λ k. 0 < k) same (positive_rowid ids),
      ap (λ (u : CaTables). u.certificates) (sym added)
          ∙ ap (λ k. t.certificates ++ issued_row k v ∷ []) same,
    )

event_kept :
    (v : CertificateValues) (t : CaTables) (m : ℕ) (t' : CaTables)
    → insert_issued_event true v t ≡ (ok m, t')
    → t'.certificates ≡ t.certificates
unfolding insert_issued_event
event_kept v t m t' h =
    let (_, added) =
      event_inserted (int_value v.valid_after) (str_value (codes "certificate_issued"))
        (str_value (codes "allow")) (str_value v.request_id) (str_value v.identity)
        (int_value (pos v.ca_id)) (str_value (print_ℕ v.serial)) t m t' h in
    ap (λ (u : CaTables). u.certificates) (sym added)

inserted :
    (v : CertificateValues) (t : CaTables) (id : ℕ) (t' : CaTables)
    → insert_certificate true v t ≡ (ok id, t')
    → (0 < id) × (t'.certificates ≡ t.certificates ++ issued_row id v ∷ [])
unfolding insert_certificate
inserted v t id t' h =
    let rest = λ (n : ℕ). insert_issued_event true v >> pure {E = SqlError} n in
    let (n, t1, first, h1) =
      >>=-eq-ok (insert_row v) rest t id t' (transaction-eq-ok (insert_row v >>= rest) t h) in
    let (m, t2, second, h2) =
      >>=-eq-ok (insert_issued_event true v) (λ _. pure {E = SqlError} n) t1 id t' h1 in
    let (positive, added) = row_inserted v t n t1 first in
    let same : n ≡ id = ok-injective (ap (λ p. p.0) h2) in
    (
      subst (λ k. 0 < k) same positive,
      ap (λ (u : CaTables). u.certificates) (sym (ap (λ p. p.1) h2))
          ∙ event_kept v t1 m t2 second
          ∙ added
          ∙ ap (λ k. t.certificates ++ issued_row k v ∷ []) same,
    )

recorded-IsCertificate :
    (ps : List Text) (v : CertificateValues) (id : ℕ)
    → IsValid ps v
    → 0 < id
    → IsCertificate (certificate_record id ps v)
recorded-IsCertificate ps v id h first = record {
  certificate_id = first;
  ca_id = h.ca_id;
  serial = h.serial;
  identity = h.identity;
  fingerprint = h.fingerprint;
  user = h.user;
  groups = h.groups;
  principals = h.principals;
  interval = h.interval;
  request_id = h.request_id;
  outcome = inl h.outcome;
}

-- A certificate that is recorded with its event at a time since 1970 is listed as the record that
-- recording it returned, behind the certificates that were listed before.
pub list_certificates-record_certificate_with_event :
    (f : CertificateFields) (n : ℕ) (t t' : CaTables) (r : CertificateRecord)
    (rs : List CertificateRecord)
    → f.valid_after ≡ int_value (pos n)
    → list_certificates t ≡ (ok rs, t)
    → record_certificate_with_event f t ≡ (ok r, t')
    → list_certificates t' ≡ (ok (rs ++ r ∷ []), t')
unfolding list_certificates record_certificate_with_event insert_validated
list_certificates-record_certificate_with_event f n t t' r rs since listed h =
    let write = λ (ps : List Text) (v : CertificateValues).
      convert already_recorded (insert_certificate true v) >>= λ id.
      pure (certificate_record id ps v) in
    let ((ps, v), t1, checked, h1) =
      >>=-eq-ok (lift (validated_certificate_fields f (str_value (codes "success"))))
        (λ (ps, v). write ps v) t r t' h in
    let valid_h = ap (λ p. p.0) checked in
    let (id, t2, stored, h2) =
      >>=-eq-ok (convert already_recorded (insert_certificate true v))
        (λ id. pure (certificate_record id ps v)) t1 r t' h1 in
    let (first, added) =
      inserted v t1 id t2 (convert-eq-ok already_recorded (insert_certificate true v) t1 stored) in
    let valid : IsValid ps v =
      ensured AreValid (validated_certificate_fields f (str_value (codes "success")))
        (validated-IsValid f n since) valid_h in
    let same_row : issued_row id v ≡ certificate_row (certificate_record id ps v) =
      ap (λ s. record (certificate_row (certificate_record id ps v)) { principals = str_value s })
        (ensured (λ (ps, v). v.encoded_principals ≡ dumps ps)
          (validated_certificate_fields f (str_value (codes "success")))
          (encoded f (str_value (codes "success"))) valid_h) in
    let returned : certificate_record id ps v ≡ r = ok-injective (ap (λ p. p.0) h2) in
    let rows : t'.certificates ≡ t.certificates ++ issued_row id v ∷ [] =
      ap (λ (u : CaTables). u.certificates) (sym (ap (λ p. p.1) h2))
      ∙ added
      ∙ ap (λ (u : CaTables). u.certificates ++ issued_row id v ∷ [])
          (sym (ap (λ p. p.1) checked)) in
    let reads : certificate_record_from_row (issued_row id v) ≡ ok r =
      ap certificate_record_from_row same_row
      ∙ certificate_record_from_row-certificate_row (certificate_record id ps v)
          (recorded-IsCertificate ps v id valid first)
      ∙ ap ok returned in
    ap (λ xs. (traverse certificate_record_from_row xs, t')) rows
    ∙ ap (λ x. (x, t'))
        (traverse_snoc certificate_record_from_row t.certificates rs (issued_row id v) r
          (ap (λ p. p.0) listed) reads)
