-- ===== src/Host/Issued.antt =====
-- The two packages together: the principals that the issuer builds, in a certificate that reaches
-- the host in its wire format, against the host's policy.
use server_key_injection.Base.{
  ℕ, ◌+◌, ◌*◌, ◌/◌, ◌%◌, ◌<◌, ◌≡◌, refl, ◌∙◌, true, false, not, ◌||◌, Option, some, List, [], ◌∷◌,
  ◌++◌, map, ok, all, All, contains, arith, beq_refl, ◌==◌, list_eq, nat_eq, list_beq,
}
use server_key_injection.Base.Int.{ℤ, pos, negsuc, ltb_ℤ, leb_ℤ}
use server_key_injection.Base.Text.{Text, codes}
use server_key_injection.Policy.{username_pattern, group_pattern, group_principal}
use server_key_injection.Policy.Shape.{
  ArePrincipals, contains-map, contains-map_user, IsDistinct-map,
}
use server_key_injection.Host.Policy.{
  HostPolicy, FileStatus, Toml, load_policy, group_principal_pattern,
}
use server_key_injection.Host.Policy.Laws.{load_policy-IsStrict}
use server_key_injection.Host.Certificate.Base64.{Bytes, digit, encode_base64, decode_base64-encode}
use server_key_injection.Host.Certificate.{
  ImportedCertificate, CertificateAttributes, certificate_algorithm, is_space, parse_certificate,
  read_attributes,
}
use server_key_injection.Host.Certificate.Roundtrip.{
  WireCertificate, IsEncodable, encode, parse_public_data-encode,
}
use server_key_injection.Host.Authorization.{account_pattern}
use server_key_injection.Host.Authorization.Laws.{
  IsFirstAllowed, authorize_certificate_of, some_first,
}
use server_key_injection.Host.{authorize, root_uid}

digit_no_space : (v : ℕ) → v < 64 → is_space (digit v) ≡ false
unfolding is_space digit
digit_no_space v h = ground arith

encoded_no_space :
    (bs : Bytes) → All (λ b. b < 256) bs → all (λ c. not (is_space c)) (encode_base64 bs) ≡ true
unfolding all encode_base64
encoded_no_space [] h = refl
encoded_no_space (x ∷ []) h =
    rw (digit_no_space (x / 4) (omega arith), digit_no_space (x % 4 * 16) (omega arith))
      (unfold is_space in refl)
encoded_no_space (x ∷ y ∷ []) h =
    rw
      (
        digit_no_space (x / 4) (omega arith),
        digit_no_space (x % 4 * 16 + y / 16) (omega arith),
        digit_no_space (y % 16 * 4) (omega arith),
      )
      (unfold is_space in refl)
encoded_no_space (x ∷ y ∷ z ∷ rest) h = rw (
  digit_no_space (x / 4) (omega arith),
  digit_no_space (x % 4 * 16 + y / 16) (omega arith),
  digit_no_space (y % 16 * 4 + z / 64) (omega arith),
  digit_no_space (z % 64) (omega arith),
  encoded_no_space rest h.1.1.1,
)

canonical_principals :
    (names : List Text)
    → All (λ g. group_pattern g ≡ true) names
    → all group_principal_pattern (map group_principal names) ≡ true
unfolding all group_principal_pattern group_pattern
canonical_principals [] h = refl
canonical_principals (g ∷ names) h = ground (arith, h.0, canonical_principals names h.1)

encode_base64-ne-nil : (x : ℕ) (rest : Bytes) → (encode_base64 (x ∷ rest) == []) ≡ false
unfolding encode_base64 list_beq
encode_base64-ne-nil x [] = refl
encode_base64-ne-nil x (y ∷ []) = refl
encode_base64-ne-nil x (y ∷ z ∷ rest) = refl

in_time :
    (now : ℤ) (after before : ℕ)
    → leb_ℤ (pos after) now ≡ true
    → ltb_ℤ now (pos before) ≡ true
    → (ltb_ℤ now (pos after) || leb_ℤ (pos before) now) ≡ false
in_time (pos n) after before h k = ground arith
in_time (negsuc n) after before h k = ground arith

abbrev pub attributes : WireCertificate → Text → CertificateAttributes
attributes c fingerprint = record {
  algorithm = certificate_algorithm;
  ca_algorithm = codes "ssh-ed25519";
  ca_fingerprint = fingerprint;
  key_id = c.key_id;
  principals = c.principals;
  serial = c.serial;
  valid_after = c.valid_after;
  valid_before = c.valid_before;
}

module _ (loads : Text → Option Toml) (import_certificate : Text → Option ImportedCertificate)
    (now : ℤ) where
  -- asyncssh reads the certificate that was written, and its CA key has this fingerprint.
  abbrev pub Imports : WireCertificate → Text → Type 0
  Imports c fingerprint =
      import_certificate (certificate_algorithm ++ (codes " " ++ encode_base64 (encode c)))
      ≡ some (record {
        is_ssh_certificate = true;
        signing_key = some (codes "ssh-ed25519", fingerprint);
      })

  pub parse_certificate-encode :
      (c : WireCertificate) (fingerprint : Text)
      → IsEncodable c
      → All (λ b. b < 256) (encode c)
      → Imports c fingerprint
      → leb_ℤ (pos c.valid_after) now ≡ true
      → ltb_ℤ now (pos c.valid_before) ≡ true
      → parse_certificate import_certificate certificate_algorithm (encode_base64 (encode c)) now
        ≡ ok (attributes c fingerprint)
  unfolding parse_certificate read_attributes
  parse_certificate-encode c fingerprint fits bytes imports after before = rw (
    beq_refl certificate_algorithm,
    encode_base64-ne-nil _ _,
    encoded_no_space (encode c) bytes,
    decode_base64-encode (encode c) bytes,
    imports,
    parse_public_data-encode c fits,
    beq_refl (codes "ssh-ed25519"),
    in_time now c.valid_after c.valid_before after before,
  )

  -- What is assumed of one issued certificate, and of the host that it is shown to.
  pub record IsPresented (policy : HostPolicy) (config : Text)
      (open_file : Text → Option FileStatus) (c : WireCertificate) (names : List Text)
      : Type 0 where
    pub loaded : load_policy loads (open_file config) root_uid ≡ ok policy
    pub principals : ArePrincipals c.principals c.key_id names
    pub encodable : IsEncodable c
    pub bytes : All (λ b. b < 256) (encode c)
    pub imports : Imports c policy.trusted_ca_fingerprint
    pub not_before : leb_ℤ (pos c.valid_after) now ≡ true
    pub not_after : ltb_ℤ now (pos c.valid_before) ≡ true

  -- A certificate with the principals that the issuer builds for a user and its groups is accepted
  -- for that user's account by every host that loads a policy, trusts the CA that signed it and
  -- allows one of the groups, while it is valid; the answer is the first of the user's groups, in
  -- string order, that the host allows.
  pub issued_certificate_authorizes :
      (policy : HostPolicy) (config : Text) (open_file : Text → Option FileStatus)
      (c : WireCertificate) (names : List Text) (name : Text)
      → IsPresented policy config open_file c names
      → contains names name ≡ true
      → contains policy.allowed_groups (group_principal name) ≡ true
      → (g : Text) × IsFirstAllowed g (map group_principal names) policy.allowed_groups
        × (authorize loads import_certificate open_file now config policy.trusted_ca_fingerprint
              c.key_id certificate_algorithm
              (encode_base64 (encode c))
            ≡ ok g)
  unfolding authorize account_pattern username_pattern
  issued_certificate_authorizes policy config open_file c names name h carried allowed =
      let (g, first) =
        some_first (map group_principal names) policy.allowed_groups (group_principal name)
          (contains-map names name ∙ carried) allowed in
      let (strict, _) = load_policy-IsStrict loads (open_file config) root_uid policy h.loaded in
      (
        g,
        first,
        rw (
          h.loaded,
          parse_certificate-encode c policy.trusted_ca_fingerprint h.encodable h.bytes h.imports
              h.not_before h.not_after,
          authorize_certificate_of policy (attributes c policy.trusted_ca_fingerprint)
              policy.trusted_ca_fingerprint c.key_id (map group_principal names) g
              (record {
                self_login = strict.self_login;
                supplied = refl;
                signed = refl;
                account = h.principals.canonical_user;
                key_id = refl;
                principals = h.principals.shape;
                distinct_principals = (
                  contains-map_user names c.key_id h.principals.canonical_user,
                  (IsDistinct-map names).0 h.principals.distinct_groups,
                );
                group_shape = canonical_principals names h.principals.canonical_groups;
                first = first;
              }),
        ),
      )
