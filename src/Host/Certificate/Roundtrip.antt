-- ===== src/Host/Certificate/Roundtrip.antt =====
-- Reading back what a certificate writer wrote, and the end of the loop over the principals.
use server_key_injection.Base.{
  ℕ, suc, ◌<◌, ◌≡◌, refl, true, List, [], ◌++◌, ok, length, all, All, nat_beq_iff, arith, beq_refl,
  nat_eq, list_eq, ◌==◌,
}
use server_key_injection.Base.Text.{Text}
use server_key_injection.Host.Certificate.Base64.{Bytes}
use server_key_injection.Host.Certificate.{
  PublicData, certificate_algorithm, parse_public_data, read_text,
}
use server_key_injection.Host.Certificate.Wire.{
  bytes_of_4, bytes_of_8, wire_string, wire_strings, At, IsAscii, read_number_4, read_number_8,
  read_string-At, read_text-ascii, read_principals-At, length-le-wire_strings,
}

-- The fields of an Ed25519 user certificate, in the order of OpenSSH's PROTOCOL.certkeys.
pub record WireCertificate : Type 0 where
  pub nonce : Bytes
  pub public_key : Bytes
  pub serial : ℕ
  pub key_id : Text
  pub principals : List Text
  pub valid_after : ℕ
  pub valid_before : ℕ
  pub critical_options : Bytes
  pub extensions : Bytes
  pub reserved : Bytes
  pub signature_key : Bytes
  pub signature : Bytes

abbrev after_principals : WireCertificate → Bytes
after_principals c =
    bytes_of_8 c.valid_after
    ++ (bytes_of_8 c.valid_before
        ++ (wire_string c.critical_options
            ++ (wire_string c.extensions
                ++ (wire_string c.reserved
                    ++ (wire_string c.signature_key ++ (wire_string c.signature ++ []))))))

abbrev pub encode : WireCertificate → Bytes
encode c =
    wire_string certificate_algorithm
    ++ (wire_string c.nonce
        ++ (wire_string c.public_key
            ++ (bytes_of_8 c.serial
                ++ (bytes_of_4 1
                    ++ (wire_string c.key_id
                        ++ (wire_string (wire_strings c.principals) ++ after_principals c))))))

-- Texts are ASCII, and lengths and numbers fit their fields.
pub record IsEncodable (c : WireCertificate) : Type 0 where
  pub nonce : length c.nonce < 0x100000000
  pub public_key : length c.public_key < 0x100000000
  pub serial : c.serial < 0x10000000000000000
  pub key_id_ascii : IsAscii c.key_id
  pub key_id : length c.key_id < 0x100000000
  pub principals : All (λ p. IsAscii p × (length p < 0x100000000)) c.principals
  pub principal_data : length (wire_strings c.principals) < 0x100000000
  pub valid_after : c.valid_after < 0x10000000000000000
  pub valid_before : c.valid_before < 0x10000000000000000
  pub critical_options : length c.critical_options < 0x100000000
  pub extensions : length c.extensions < 0x100000000
  pub reserved : length c.reserved < 0x100000000
  pub signature_key : length c.signature_key < 0x100000000
  pub signature : length c.signature < 0x100000000

At-start : (bytes : Bytes) → At bytes 0 bytes
At-start bytes = record { size = omega arith; view = refl }

At-end : {bytes : Bytes} {offset : ℕ} → At bytes offset [] → (offset == length bytes) ≡ true
At-end {bytes} {offset} at = (nat_beq_iff offset (length bytes)).1 (omega (arith, at.size))

abbrev pub public_data : WireCertificate → PublicData
public_data c = record {
  algorithm = certificate_algorithm;
  key_id = c.key_id;
  serial = c.serial;
  principals = c.principals;
  valid_after = c.valid_after;
  valid_before = c.valid_before;
}

algorithm_text : read_text certificate_algorithm ≡ ok certificate_algorithm
unfolding all
algorithm_text = read_text-ascii certificate_algorithm refl

-- Reading an encoded certificate gives back its algorithm, key id, serial number, principals and
-- validity, for every certificate whose texts are ASCII and whose parts fit their fields.
pub parse_public_data-encode :
    (c : WireCertificate) → IsEncodable c → parse_public_data (encode c) ≡ ok (public_data c)
unfolding parse_public_data
parse_public_data-encode c h =
    let (r1, a1) = read_string-At 0 certificate_algorithm _ (omega arith) (At-start (encode c)) in
    let (r2, a2) = read_string-At _ c.nonce _ h.nonce a1 in
    let (r3, a3) = read_string-At _ c.public_key _ h.public_key a2 in
    let (r4, a4) = read_number_8 _ c.serial _ h.serial a3 in
    let (r5, a5) = read_number_4 _ 1 _ (omega arith) a4 in
    let (r6, a6) = read_string-At _ c.key_id _ h.key_id a5 in
    let (r7, a7) = read_string-At _ (wire_strings c.principals) _ h.principal_data a6 in
    let (r8, a8) = read_number_8 _ c.valid_after _ h.valid_after a7 in
    let (r9, a9) = read_number_8 _ c.valid_before _ h.valid_before a8 in
    let (r10, a10) = read_string-At _ c.critical_options _ h.critical_options a9 in
    let (r11, a11) = read_string-At _ c.extensions _ h.extensions a10 in
    let (r12, a12) = read_string-At _ c.reserved _ h.reserved a11 in
    let (r13, a13) = read_string-At _ c.signature_key _ h.signature_key a12 in
    let (r14, a14) = read_string-At _ c.signature [] h.signature a13 in
    let names =
      read_principals-At (suc (length (wire_strings c.principals))) 0 c.principals
        (At-start (wire_strings c.principals)) h.principals
        (omega (arith, length-le-wire_strings c.principals)) in
    rw (
      r1,
      algorithm_text,
      beq_refl certificate_algorithm,
      r2,
      r3,
      r4,
      r5,
      r6,
      read_text-ascii c.key_id h.key_id_ascii,
      r7,
      names,
      beq_refl (length (wire_strings c.principals)),
      r8,
      r9,
      r10,
      r11,
      r12,
      r13,
      r14,
      At-end a14,
    )
