-- ===== src/Host/Certificate.antt =====
-- packages/ski-authorize/src/ski_authorize/certificate.py: the wire format of a user certificate,
-- read by offsets. `asyncssh.import_certificate` is a parameter.
pub mod Utf8
pub mod Base64
pub mod Wire
pub mod Roundtrip
pub mod Termination
use server_key_injection.Base.{
  ℕ, zero, suc, ◌+◌, ◌*◌, ◌^◌, Bool, true, false, not, ◌&&◌, ◌||◌, Option, none, some, List, [],
  ◌∷◌, ◌++◌, Result, ok, err, ◌>>=◌, ◌>>◌, raise_if, map_err, all, length, take, drop, ltb, leb,
  if◌then◌else◌, Eq, ◌==◌, nat_eq, list_eq,
}
use server_key_injection.Base.Int.{ℤ, pos, ltb_ℤ, leb_ℤ}
use server_key_injection.Base.Text.{Text, codes}
use Utf8.{decode_utf8}
use Base64.{Bytes, decode_base64}

-- CertificateError, one constructor for each message. `no_fuel` is not raised by the program: it
-- would mean that the model's loop over the principals was cut short.
pub data CertificateError : Type 0 where
  truncated not_text algorithm_unsupported not_user principals_malformed : CertificateError
  trailing_bytes type_unsupported body_malformed not_certificate attributes_malformed :
      CertificateError
  ca_algorithm_unsupported not_time_valid no_fuel : CertificateError

pub record CertificateAttributes : Type 0 where
  pub algorithm : Text
  pub ca_algorithm : Text
  pub ca_fingerprint : Text
  pub key_id : Text
  pub principals : List Text
  pub serial : ℕ
  pub valid_after : ℕ
  pub valid_before : ℕ

-- A big-endian number, as `struct.unpack_from` reads it.
unfoldable pub big_endian : ℕ → Bytes → ℕ
big_endian acc [] = acc
big_endian acc (b ∷ bs) = big_endian (acc * 256 + b) bs

-- `_string`
unfoldable pub read_string : Bytes → ℕ → Result CertificateError (Bytes × ℕ)
unfolding big_endian
read_string bytes offset = do
  raise_if (ltb (length bytes) (offset + 4)) truncated
  let size = big_endian 0 (take 4 (drop offset bytes))
  raise_if (ltb (length bytes) (offset + 4 + size)) truncated
  ok (take size (drop (offset + 4) bytes), offset + 4 + size)

-- `_number`, at the sizes 4 and 8
unfoldable pub read_number : Bytes → ℕ → ℕ → Result CertificateError (ℕ × ℕ)
unfolding big_endian
read_number bytes offset size = do
  raise_if (ltb (length bytes) (offset + size)) truncated
  ok (big_endian 0 (take size (drop offset bytes)), offset + size)

-- `_text`
unfoldable pub read_text : Bytes → Result CertificateError Text
unfolding decode_utf8
read_text value = elim (decode_utf8 value) [ none ↦ err not_text | some s ↦ ok s ]

-- `while principal_offset < len(principal_data)`
unfoldable pub read_principals : ℕ → Bytes → ℕ → Result CertificateError (List Text × ℕ)
read_principals zero bytes offset = err no_fuel
read_principals (suc fuel) bytes offset =
    let more = do
      (principal_bytes, next) ← read_string bytes offset
      principal ← read_text principal_bytes
      (principals, last) ← read_principals fuel bytes next
      ok (principal ∷ principals, last)
    in if ltb offset (length bytes) then more else ok ([], offset)

abbrev pub certificate_algorithm : Text
certificate_algorithm = codes "ssh-ed25519-cert-v01@openssh.com"

-- The six values that `_parse_public_data` returns.
pub record PublicData : Type 0 where
  pub algorithm : Text
  pub key_id : Text
  pub serial : ℕ
  pub principals : List Text
  pub valid_after : ℕ
  pub valid_before : ℕ

-- `_parse_public_data`
unfoldable pub parse_public_data : Bytes → Result CertificateError PublicData
parse_public_data bytes = do
  (algorithm_bytes, o1) ← read_string bytes 0
  algorithm ← read_text algorithm_bytes
  raise_if (not (algorithm == certificate_algorithm)) algorithm_unsupported
  (nonce, o2) ← read_string bytes o1
  (user_public_key, o3) ← read_string bytes o2
  (serial, o4) ← read_number bytes o3 8
  (certificate_type, o5) ← read_number bytes o4 4
  raise_if (not (certificate_type == 1)) not_user
  (key_id_bytes, o6) ← read_string bytes o5
  key_id ← read_text key_id_bytes
  (principal_data, o7) ← read_string bytes o6
  (principals, principal_offset) ← read_principals (suc (length principal_data)) principal_data 0
  raise_if (not (principal_offset == length principal_data)) principals_malformed
  (valid_after, o8) ← read_number bytes o7 8
  (valid_before, o9) ← read_number bytes o8 8
  (critical_options, o10) ← read_string bytes o9
  (extensions, o11) ← read_string bytes o10
  (reserved, o12) ← read_string bytes o11
  (signature_key, o13) ← read_string bytes o12
  (signature, o14) ← read_string bytes o13
  raise_if (not (o14 == length bytes)) trailing_bytes
  ok (record {
    algorithm = algorithm;
    key_id = key_id;
    serial = serial;
    principals = principals;
    valid_after = valid_after;
    valid_before = valid_before;
  })

-- What `asyncssh.import_certificate` gives: an object that is an `SSHCertificate` or not, and its
-- signing key's algorithm and fingerprint, if it has one.
pub record ImportedCertificate : Type 0 where
  pub is_ssh_certificate : Bool
  pub signing_key : Option (Text × Text)

-- `str.isspace` of one character
unfoldable pub is_space : ℕ → Bool
is_space c =
    (leb 0x9 c && leb c 0xd)
    || (leb 0x1c c && leb c 0x20)
    || c == 0x85
    || c == 0xa0
    || c == 0x1680
    || (leb 0x2000 c && leb c 0x200a)
    || c == 0x2028
    || c == 0x2029
    || c == 0x202f
    || c == 0x205f
    || c == 0x3000

-- The second `try` block: the attributes that the policy reads, and the CA key's two.
unfoldable pub read_attributes :
    Bytes → ImportedCertificate → Result CertificateError (PublicData × Text × Text)
read_attributes public_data certificate =
    map_err (λ _. attributes_malformed)
      (do
        parsed ← parse_public_data public_data
        elim certificate.signing_key [
          | none ↦ err attributes_malformed
          | some (ca_algorithm, ca_fingerprint) ↦ ok (parsed, ca_algorithm, ca_fingerprint)
        ])

unfoldable pub or_body_malformed : {A : Type 0} → Option A → Result CertificateError A
or_body_malformed none = err body_malformed
or_body_malformed (some a) = ok a

module _ (import_certificate : Text → Option ImportedCertificate) where
  -- `clock` is read once; `now` is `int(clock())`.
  unfoldable pub parse_certificate : Text → Text → ℤ → Result CertificateError CertificateAttributes
  unfolding is_space or_body_malformed decode_base64
  parse_certificate certificate_type certificate_base64 now = do
    raise_if (not (certificate_type == certificate_algorithm)) type_unsupported
    raise_if (certificate_base64 == []) body_malformed
    raise_if (not (all (λ c. not (is_space c)) certificate_base64)) body_malformed
    public_data ← or_body_malformed (decode_base64 certificate_base64)
    certificate ←
        or_body_malformed
          (import_certificate (certificate_type ++ (codes " " ++ certificate_base64)))
    raise_if (not certificate.is_ssh_certificate) not_certificate
    (parsed, ca_algorithm, ca_fingerprint) ← read_attributes public_data certificate
    raise_if (not (ca_algorithm == codes "ssh-ed25519")) ca_algorithm_unsupported
    raise_if (ltb_ℤ now (pos parsed.valid_after) || leb_ℤ (pos parsed.valid_before) now)
        not_time_valid
    ok (record {
      algorithm = parsed.algorithm;
      ca_algorithm = ca_algorithm;
      ca_fingerprint = ca_fingerprint;
      key_id = parsed.key_id;
      principals = parsed.principals;
      serial = parsed.serial;
      valid_after = parsed.valid_after;
      valid_before = parsed.valid_before;
    })
