-- ===== src/State/Atomic.antt =====
-- Errors of the CA operations of src/ski/state.py: they leave the database as it was.
use server_key_injection.Base.{◌≡◌, refl, true, List, Result, ok, err}
use server_key_injection.Base.Text.{Text, codes}
use server_key_injection.Policy.Values.{str_value}
use server_key_injection.State.Exec.{Run, pure, lift, transaction, convert, ◌>>=◌, ◌>>◌}
use server_key_injection.State.Tables.{
  CaTables, CertificateValues, insert_certificate, insert_issued_event,
}
use server_key_injection.State.Refinement.{insert_values}
use server_key_injection.State.Validation.{
  StateError, CertificateFields, validated_certificate_fields,
}
use server_key_injection.State.{
  insert_validated, record_certificate_with_event, certificate_record, already_recorded,
}

-- What a call gives, where an error changes nothing.
abbrev pub IsAtomic : {S E A : Type 0} → S → Result E A × S → Type 0
IsAtomic s (ok _, _) = Unit
IsAtomic s (err _, s') = s' ≡ s

module _ {S E A : Type 0} where
  pub transaction-IsAtomic : (m : Run S E A) (s : S) → IsAtomic s (transaction m s)
  transaction-IsAtomic m s = go (m s)
    where
      go :
          (p : Result E A × S)
          → IsAtomic s
              (elim p.0 as (λ _. Result E A × S) [ ok a ↦ (ok a, p.1) | err e ↦ (err e, s) ])
      go (ok a, s') = tt
      go (err e, s') = refl

  pub convert-IsAtomic :
      {F : Type 0} (f : E → F) (m : Run S E A) (s : S)
      → IsAtomic s (m s)
      → IsAtomic s (convert f m s)
  convert-IsAtomic {F = F} f m s = go (m s)
    where
      go :
          (p : Result E A × S)
          → IsAtomic s p
          → IsAtomic s
              (elim p.0 as (λ _. Result F A × S) [ ok a ↦ (ok a, p.1) | err e ↦ (err (f e), p.1) ])
      go (ok a, s') h = tt
      go (err e, s') h = h

  pub return-IsAtomic :
      {B : Type 0} (m : Run S E A) (f : A → B) (s : S)
      → IsAtomic s (m s)
      → IsAtomic s ((m >>= λ a. pure (f a)) s)
  return-IsAtomic {B = B} m f s = go (m s)
    where
      go :
          (p : Result E A × S)
          → IsAtomic s p
          → IsAtomic s
              (elim p.0 as (λ _. Result E B × S) [ ok a ↦ pure (f a) p.1 | err e ↦ (err e, p.1) ])
      go (ok a, s') h = tt
      go (err e, s') h = h

insert_certificate-IsAtomic :
    (v : CertificateValues) (t : CaTables) → IsAtomic t (insert_certificate true v t)
unfolding insert_certificate
insert_certificate-IsAtomic v t =
    transaction-IsAtomic (insert_values v >>= λ id. insert_issued_event true v >> pure id) t

validated-IsAtomic :
    (r : Result StateError (List Text × CertificateValues)) (t : CaTables)
    → IsAtomic t (
        (lift r >>= λ (principals, v).
        convert already_recorded (insert_certificate true v) >>= λ id.
        pure (certificate_record id principals v))
          t)
validated-IsAtomic (err e) t = refl
validated-IsAtomic (ok (principals, v)) t =
    return-IsAtomic (convert already_recorded (insert_certificate true v))
      (λ id. certificate_record id principals v) t
      (convert-IsAtomic already_recorded (insert_certificate true v) t
        (insert_certificate-IsAtomic v t))

-- Recording a certificate with its event, on any tables, changes nothing where it raises.
pub record_certificate_with_event-IsAtomic :
    (f : CertificateFields) (t : CaTables) → IsAtomic t (record_certificate_with_event f t)
unfolding record_certificate_with_event insert_validated
record_certificate_with_event-IsAtomic f t =
    validated-IsAtomic (validated_certificate_fields f (str_value (codes "success"))) t
