-- ===== src/State/Validated.antt =====
-- What the validation of `record_certificate_with_event` in src/ski/state.py ensures of its values.
use server_key_injection.Base.{
  ℕ, zero, suc, ◌<◌, ◌≤◌, ◌≡◌, sym, ap, ◌∙◌, true, List, ok, err, arith, if◌then◌else◌, ◌==◌,
  nat_eq, list_eq, option_eq, pair_eq, list_beq, Bool-cases, inl, inr, Ensures, Ensures->>=, leb→le,
  map_err-eq-ok, ok-injective,
}
use mathlib.Core.Path.{subst}
use server_key_injection.Base.Int.{ℤ, pos, ◌-ℤ◌, int_eq}
use server_key_injection.Base.Text.{Text, codes}
use server_key_injection.Policy.{username_pattern, ordinary_certificate_lifetime}
use server_key_injection.Policy
use server_key_injection.Policy.Laws.{validate_principals_iff}
use server_key_injection.Policy.Shape.{ArePrincipals}
use server_key_injection.Policy.Values.{Value, Object, int_value, str_value}
use server_key_injection.State.Tables.{CertificateValues}
use server_key_injection.State.Validation.{
  malformed, CertificateFields, validated_certificate_fields, validate_positive_id, validate_serial,
  validate_identity, validate_text, validate_principals, validate_interval, validate_outcome,
  serial_max,
}
use server_key_injection.State.Rows.{IsText}

-- What validation ensures of the values that are inserted.
pub record IsValid (ps : List Text) (v : CertificateValues) : Type 0 where
  pub ca_id : 0 < v.ca_id
  pub serial : v.serial ≤ serial_max
  pub identity : username_pattern v.identity ≡ true
  pub fingerprint : IsText v.public_key_fingerprint
  pub user : Text
  pub groups : List Text
  pub principals : ArePrincipals ps user groups
  pub interval : (v.valid_before -ℤ v.valid_after) ≡ pos ordinary_certificate_lifetime
  pub valid_after : (n : ℕ) × (v.valid_after ≡ pos n)
  pub request_id : IsText v.request_id
  pub outcome : v.outcome ≡ codes "success"

pub positive : (v : Value) (n : ℕ) → validate_positive_id v ≡ ok n → 0 < n
unfolding validate_positive_id
positive (int_value (pos zero)) n h = absurd (cc)
positive (int_value (pos (suc m))) n h = ground arith
positive _ n h = absurd (cc)

pub bounded : (v : Value) (n : ℕ) → validate_serial v ≡ ok n → n ≤ serial_max
unfolding validate_serial
bounded (int_value (pos m)) n h = ground (arith, leb→le m serial_max)
bounded _ n h = absurd (cc)

pub texted : (v : Value) (error s : Text) → validate_text v error ≡ ok s → IsText s
unfolding validate_text
texted (str_value t) error s h = ground arith
texted _ error s h = absurd (cc)

pub canonical : (v : Value) (s : Text) → validate_identity v ≡ ok s → username_pattern s ≡ true
unfolding validate_identity Policy.validate_username
canonical (str_value t) s h = ground arith
canonical _ s h = absurd (cc)

abbrev HavePrincipals : List Text → Type 0
HavePrincipals ps = (user : Text) × (groups : List Text) × ArePrincipals ps user groups

shaped : (value : Object) (ps : List Text) → validate_principals value ≡ ok ps → HavePrincipals ps
unfolding validate_principals
shaped value ps h =
    let accepted =
      map_err-eq-ok (λ e. malformed (Policy.message e)) (Policy.validate_principals value) h in
    ((validate_principals_iff value ps).0 accepted).1

timed :
    (n : ℕ) (before : Value) (a b : ℤ)
    → validate_interval (int_value (pos n)) before ≡ ok (a, b)
    → (a ≡ pos n) × ((b -ℤ a) ≡ pos ordinary_certificate_lifetime)
unfolding validate_interval
timed n (int_value m) a b h =
    elim (Bool-cases ((m -ℤ pos n) == pos ordinary_certificate_lifetime)) [
      | inl fits ↦
          let same : (pos n, m) ≡ (a, b) = ok-injective (
            sym (
              ap
                (λ t.
                  if t
                  then ok (pos n, m)
                  else err (malformed (codes "certificate validity interval is not 25 hours")))
                fits)
            ∙ h) in
          (
            sym (ap (λ p. p.0) same),
            ap (λ p. p -ℤ a) (sym (ap (λ p. p.1) same))
                ∙ ap (λ p. m -ℤ p) (sym (ap (λ p. p.0) same))
                ∙ (int_eq.beq_iff (m -ℤ pos n) (pos ordinary_certificate_lifetime)).0 fits,
          )
      | inr other ↦ absurd (ground arith)
    ]
timed n _ a b h = absurd (cc)

succeeds : (o : Text) → validate_outcome (str_value (codes "success")) ≡ ok o → o ≡ codes "success"
unfolding validate_outcome list_beq
succeeds o h = sym (ok-injective h)

abbrev pub AreValid : List Text × CertificateValues → Type 0
AreValid (ps, v) = IsValid ps v

pub validated-IsValid :
    (f : CertificateFields) (n : ℕ)
    → f.valid_after ≡ int_value (pos n)
    → Ensures AreValid (validated_certificate_fields f (str_value (codes "success")))
unfolding validated_certificate_fields Ensures
validated-IsValid f n start = Ensures->>= AreValid (validate_positive_id f.ca_id) _ λ ca_id ca_h.
    Ensures->>= AreValid (validate_serial f.serial) _ λ serial serial_h.
      Ensures->>= AreValid (validate_identity f.identity) _ λ identity identity_h.
        Ensures->>= AreValid (validate_text f.public_key_fingerprint _) _
          λ fingerprint fingerprint_h.
            Ensures->>= AreValid (validate_principals f.principals) _ λ ps ps_h.
              Ensures->>= AreValid (validate_interval f.valid_after f.valid_before) _
                λ interval interval_h.
                  Ensures->>= AreValid (validate_text f.request_id _) _ λ request_id request_h.
                    Ensures->>= AreValid (validate_outcome (str_value (codes "success"))) _
                      λ outcome outcome_h.
                        let (user, groups, are) = shaped f.principals ps ps_h in
                        let (start_h, length_h) = timed n f.valid_before interval.0 interval.1 (
                          subst (λ v. validate_interval v f.valid_before ≡ ok interval) start
                            interval_h) in
                        record {
                          ca_id = positive f.ca_id ca_id ca_h;
                          serial = bounded f.serial serial serial_h;
                          identity = canonical f.identity identity identity_h;
                          fingerprint = texted f.public_key_fingerprint _ fingerprint fingerprint_h;
                          user = user;
                          groups = groups;
                          principals = are;
                          interval = length_h;
                          valid_after = (n, start_h);
                          request_id = texted f.request_id _ request_id request_h;
                          outcome = succeeds outcome outcome_h;
                        }
