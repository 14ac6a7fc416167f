-- ===== src/Host/Certificate/Termination.antt =====
-- The loop over the principals of certificate.py ends by its own test.
use server_key_injection.Base.{
  ℕ, zero, suc, ◌+◌, ◌≤◌, ◌≡◌, ◌≢◌, Result, ok, err, ◌>>=◌, raise_if, length, arith, Bool-cases,
  ltb, inl, inr, Bool, true, false, >>=-ne-err,
}
use server_key_injection.Host.Certificate.Base64.{Bytes}
use server_key_injection.Host.Certificate.{
  CertificateError, no_fuel, parse_public_data, read_string, read_number, read_text,
  read_principals,
}

read_string_ends : (bytes : Bytes) (offset : ℕ) → read_string bytes offset ≡ err no_fuel → ⊥
unfolding read_string
read_string_ends bytes offset h = ground arith

read_number_ends :
    (bytes : Bytes) (offset size : ℕ) → read_number bytes offset size ≡ err no_fuel → ⊥
unfolding read_number
read_number_ends bytes offset size h = ground arith

read_text_ends : (value : Bytes) → read_text value ≡ err no_fuel → ⊥
unfolding read_text
read_text_ends value h = ground arith

-- Every string that is read moves the offset by its length field at least.
read_string_advances :
    (bytes : Bytes) (offset : ℕ) {s : Bytes} {next : ℕ}
    → read_string bytes offset ≡ ok (s, next)
    → offset + 4 ≤ next
unfolding read_string
read_string_advances bytes offset h = ground arith

-- From any offset, with one more round of fuel than there are bytes left, the loop ends by its own
-- test or by an error of the program, never for lack of fuel.
pub read_principals_ends :
    (fuel : ℕ) (bytes : Bytes) (offset : ℕ)
    → length bytes ≤ offset + fuel
    → read_principals (suc fuel) bytes offset ≢ err no_fuel
unfolding read_principals
read_principals_ends zero bytes offset h = ground arith
read_principals_ends (suc fuel) bytes offset h = elim (Bool-cases (ltb offset (length bytes))) [
  | inr done ↦ λ e. ground arith
  | inl more ↦ rw more (
      >>=-ne-err (read_string bytes offset) _ no_fuel (read_string_ends bytes offset)
        λ (s, next) read. >>=-ne-err (read_text s) _ no_fuel (read_text_ends s) λ p decoded.
          >>=-ne-err (read_principals (suc fuel) bytes next) _ no_fuel
            (read_principals_ends fuel bytes next
              (omega (arith, read_string_advances bytes offset {s = s} {next = next} read)))
            λ rest got e. cc)
]

-- A call that does not end for lack of fuel.
record Ends {A : Type 0} (r : Result CertificateError A) : Type 0 where
  by_program : r ≡ err no_fuel → ⊥

module _ {A B : Type 0} where
  Ends-bind :
      (m : Result CertificateError A) (f : A → Result CertificateError B)
      → Ends m
      → ((a : A) → Ends (f a))
      → Ends (m >>= f)
  Ends-bind m f n k = record {
    by_program = >>=-ne-err m f no_fuel n.by_program (λ a _. (k a).by_program);
  }

Ends-ok : {A : Type 0} (a : A) → Ends (ok a)
Ends-ok a = record { by_program = λ e. cc }

Ends-string : (bytes : Bytes) (offset : ℕ) → Ends (read_string bytes offset)
Ends-string bytes offset = record { by_program = read_string_ends bytes offset }

Ends-number : (bytes : Bytes) (offset size : ℕ) → Ends (read_number bytes offset size)
Ends-number bytes offset size = record { by_program = read_number_ends bytes offset size }

Ends-text : (value : Bytes) → Ends (read_text value)
Ends-text value = record { by_program = read_text_ends value }

Ends-principals : (bytes : Bytes) → Ends (read_principals (suc (length bytes)) bytes 0)
Ends-principals bytes = record {
  by_program = read_principals_ends (length bytes) bytes 0 (omega arith);
}

Ends-raise_if : (b : Bool) (e : CertificateError) → (e ≡ no_fuel → ⊥) → Ends (raise_if b e)
Ends-raise_if true e n = record { by_program = λ h. n (cc) }
Ends-raise_if false e n = record { by_program = λ h. cc }

-- Reading a certificate never runs out of the loop's fuel: it returns, or raises an error of the
-- program.
pub parse_public_data_ends : (bytes : Bytes) → parse_public_data bytes ≢ err no_fuel
unfolding parse_public_data
parse_public_data_ends bytes = all_parts.by_program
  where
    all_parts : Ends (parse_public_data bytes)
    all_parts = Ends-bind _ _ (Ends-string _ _) λ r1. Ends-bind _ _ (Ends-text _) λ algorithm.
        Ends-bind _ _ (Ends-raise_if _ _ (λ h. cc)) λ _. Ends-bind _ _ (Ends-string _ _) λ r2.
          Ends-bind _ _ (Ends-string _ _) λ r3. Ends-bind _ _ (Ends-number _ _ _) λ r4.
            Ends-bind _ _ (Ends-number _ _ _) λ r5. Ends-bind _ _ (Ends-raise_if _ _ (λ h. cc)) λ _.
              Ends-bind _ _ (Ends-string _ _) λ r6. Ends-bind _ _ (Ends-text _) λ key_id.
                Ends-bind _ _ (Ends-string _ _) λ r7.
                  Ends-bind _ _ (Ends-principals _) λ principals.
                    Ends-bind _ _ (Ends-raise_if _ _ (λ h. cc)) λ _.
                      Ends-bind _ _ (Ends-number _ _ _) λ r8.
                        Ends-bind _ _ (Ends-number _ _ _) λ r9.
                          Ends-bind _ _ (Ends-string _ _) λ r10.
                            Ends-bind _ _ (Ends-string _ _) λ r11.
                              Ends-bind _ _ (Ends-string _ _) λ r12.
                                Ends-bind _ _ (Ends-string _ _) λ r13.
                                  Ends-bind _ _ (Ends-string _ _) λ r14.
                                    Ends-bind _ _ (Ends-raise_if _ _ (λ h. cc)) λ _. Ends-ok _
