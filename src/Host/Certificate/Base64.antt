-- ===== src/Host/Certificate/Base64.antt =====
-- `base64.b64decode(text, validate=True)`: groups of four digits, the last one padded by `=`.
use server_key_injection.Base.{
  ℕ, ◌+◌, ◌*◌, ◌-◌, ◌/◌, ◌%◌, ◌<◌, ◌≡◌, refl, false, ◌&&◌, Option, none, some, List, [], ◌∷◌, arith,
  ltb, leb, nat_beq, All, if◌then◌else◌,
}
use server_key_injection.Base.Text.{Text}

abbrev pub Bytes : Type 0
Bytes = List ℕ

-- The six bits of a digit.
unfoldable pub digit_value : ℕ → Option ℕ
digit_value c =
    if leb b'A' c && leb c b'Z'
    then some (c - b'A')
    else if leb b'a' c && leb c b'z'
    then some (c - b'a' + 26)
    else if leb b'0' c && leb c b'9'
    then some (c - b'0' + 52)
    else if nat_beq c b'+'
    then some 62
    else if nat_beq c b'/'
    then some 63
    else none

-- Three bytes of four digits, two of three, and one of two.
abbrev three : Option ℕ → Option ℕ → Option ℕ → Option ℕ → Option Bytes → Option Bytes
three (some a) (some b) (some c) (some d) (some rest) =
    some ((a * 4 + b / 16) ∷ (b % 16 * 16 + c / 4) ∷ (c % 4 * 64 + d) ∷ rest)
three _ _ _ _ _ = none

abbrev two : Option ℕ → Option ℕ → Option ℕ → Option Bytes
two (some a) (some b) (some c) = some ((a * 4 + b / 16) ∷ (b % 16 * 16 + c / 4) ∷ [])
two _ _ _ = none

abbrev one : Option ℕ → Option ℕ → Option Bytes
one (some a) (some b) = some ((a * 4 + b / 16) ∷ [])
one _ _ = none

unfoldable pub decode_base64 : Text → Option Bytes
unfolding digit_value
decode_base64 [] = some []
decode_base64 (a ∷ b ∷ c ∷ d ∷ []) =
    if nat_beq d b'='
    then (if nat_beq c b'='
        then one (digit_value a) (digit_value b)
        else two (digit_value a) (digit_value b) (digit_value c))
    else three (digit_value a) (digit_value b) (digit_value c) (digit_value d) (some [])
decode_base64 (a ∷ b ∷ c ∷ d ∷ e ∷ rest) =
    three (digit_value a) (digit_value b) (digit_value c) (digit_value d) (decode_base64 (e ∷ rest))
decode_base64 _ = none

-- The digit of six bits.
unfoldable pub digit : ℕ → ℕ
digit v =
    if ltb v 26
    then b'A' + v
    else if ltb v 52
    then b'a' + (v - 26)
    else if ltb v 62
    then b'0' + (v - 52)
    else if nat_beq v 62
    then b'+'
    else b'/'

-- `base64.b64encode`, by which sshd's `%k` shows a certificate.
unfoldable pub encode_base64 : Bytes → Text
encode_base64 [] = []
encode_base64 (x ∷ []) = digit (x / 4) ∷ digit (x % 4 * 16) ∷ b'=' ∷ b'=' ∷ []
encode_base64 (x ∷ y ∷ []) =
    digit (x / 4) ∷ digit (x % 4 * 16 + y / 16) ∷ digit (y % 16 * 4) ∷ b'=' ∷ []
encode_base64 (x ∷ y ∷ z ∷ rest) =
    digit (x / 4)
    ∷ digit (x % 4 * 16 + y / 16)
    ∷ digit (y % 16 * 4 + z / 64)
    ∷ digit (z % 64)
    ∷ encode_base64 rest

sextet : (v : ℕ) → v < 64 → (digit_value (digit v) ≡ some v) × (nat_beq (digit v) b'=' ≡ false)
unfolding digit_value digit
sextet v h = ground arith

encode-cons : (x : ℕ) (rest : Bytes) → (c : ℕ) × (cs : Text) × (encode_base64 (x ∷ rest) ≡ c ∷ cs)
unfolding encode_base64
encode-cons x [] = (_, _, refl)
encode-cons x (y ∷ []) = (_, _, refl)
encode-cons x (y ∷ z ∷ rest) = (_, _, refl)

-- A group of four digits before further digits.
decode-cons :
    (a b c d : ℕ) (rest : Text) (e : ℕ) (es : Text)
    → rest ≡ e ∷ es
    → decode_base64 (a ∷ b ∷ c ∷ d ∷ rest)
      ≡ three (digit_value a) (digit_value b) (digit_value c) (digit_value d) (decode_base64 rest)
unfolding decode_base64
decode-cons a b c d rest e es h = rw h

-- Decoding what was encoded gives the bytes back.
pub decode_base64-encode :
    (bs : Bytes) → All (λ b. b < 256) bs → decode_base64 (encode_base64 bs) ≡ some bs
unfolding decode_base64 encode_base64
decode_base64-encode [] h = refl
decode_base64-encode (x ∷ []) h =
    rw ((sextet (x / 4) (omega arith)).0, (sextet (x % 4 * 16) (omega arith)).0) (ground arith)
decode_base64-encode (x ∷ y ∷ []) h =
    rw
      (
        (sextet (y % 16 * 4) (omega arith)).1,
        (sextet (x / 4) (omega arith)).0,
        (sextet (x % 4 * 16 + y / 16) (omega arith)).0,
        (sextet (y % 16 * 4) (omega arith)).0,
      )
      (ground arith)
decode_base64-encode (x ∷ y ∷ z ∷ []) h =
    rw
      (
        (sextet (z % 64) (omega arith)).1,
        (sextet (x / 4) (omega arith)).0,
        (sextet (x % 4 * 16 + y / 16) (omega arith)).0,
        (sextet (y % 16 * 4 + z / 64) (omega arith)).0,
        (sextet (z % 64) (omega arith)).0,
      )
      (ground arith)
decode_base64-encode (x ∷ y ∷ z ∷ w ∷ rest) h =
    let (c, cs, more) = encode-cons w rest in
    rw
      (
        decode-cons _ _ _ _ (encode_base64 (w ∷ rest)) c cs more,
        decode_base64-encode (w ∷ rest) h.1.1.1,
        (sextet (x / 4) (omega arith)).0,
        (sextet (x % 4 * 16 + y / 16) (omega arith)).0,
        (sextet (y % 16 * 4 + z / 64) (omega arith)).0,
        (sextet (z % 64) (omega arith)).0,
      )
      (ground arith)
