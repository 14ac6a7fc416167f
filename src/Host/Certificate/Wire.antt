-- ===== src/Host/Certificate/Wire.antt =====
-- The wire format of a certificate as a writer, and the reads of certificate.py at its parts.
use server_key_injection.Base.{
  ℕ, zero, suc, ◌+◌, ◌/◌, ◌%◌, ◌<◌, ◌≤◌, ◌≡◌, refl, ap, ◌∙◌, true, List, [], ◌∷◌, ◌++◌, ok, length,
  take, drop, all, All, ltb, lt→ltb, arith, length-append, take-append, drop-append,
}
use server_key_injection.Base.Text.{Text}
use server_key_injection.Host.Certificate.Base64.{Bytes}
use server_key_injection.Host.Certificate.Utf8.{decode_utf8-ascii}
use server_key_injection.Host.Certificate.{
  big_endian, read_string, read_number, read_text, read_principals,
}

-- A number as four and as eight bytes.
abbrev pub bytes_of_4 : ℕ → Bytes
bytes_of_4 n = (n / 0x1000000 % 256) ∷ (n / 0x10000 % 256) ∷ (n / 0x100 % 256) ∷ (n % 256) ∷ []

abbrev pub bytes_of_8 : ℕ → Bytes
bytes_of_8 n =
    (n / 0x100000000000000 % 256)
    ∷ (n / 0x1000000000000 % 256)
    ∷ (n / 0x10000000000 % 256)
    ∷ (n / 0x100000000 % 256)
    ∷ bytes_of_4 (n % 0x100000000)

abbrev pub wire_string : Bytes → Bytes
wire_string s = bytes_of_4 (length s) ++ s

abbrev pub wire_strings : List Bytes → Bytes
wire_strings [] = []
wire_strings (s ∷ ss) = wire_string s ++ wire_strings ss

-- The bytes from an offset on.
pub record At (bytes : Bytes) (offset : ℕ) (rest : Bytes) : Type 0 where
  pub size : length bytes ≡ offset + length rest
  pub view : drop offset bytes ≡ rest

pub drop-nil : (n : ℕ) → drop {A = ℕ} n [] ≡ []
drop-nil zero = refl
drop-nil (suc n) = refl

drop-add : (n m : ℕ) (xs : Bytes) → drop (n + m) xs ≡ drop m (drop n xs)
drop-add zero m xs = ground arith
drop-add (suc n) m [] = ground (arith, drop-nil m, drop-nil (suc n + m))
drop-add (suc n) m (x ∷ xs) =
    let e : suc n + m ≡ suc (n + m) = omega arith in rw e (drop-add n m xs)

At-advance :
    {bytes : Bytes} (offset : ℕ) (s rest : Bytes)
    → At bytes offset (s ++ rest)
    → At bytes (offset + length s) rest
At-advance {bytes} offset s rest at = record {
  size = omega (arith, at.size, length-append s rest);
  view = drop-add offset (length s) bytes ∙ ap (drop (length s)) at.view ∙ drop-append s rest;
}

big_endian_4 : (n : ℕ) → n < 0x100000000 → big_endian 0 (bytes_of_4 n) ≡ n
unfolding big_endian
big_endian_4 n h = omega arith

big_endian_8 : (n : ℕ) → n < 0x10000000000000000 → big_endian 0 (bytes_of_8 n) ≡ n
unfolding big_endian
big_endian_8 n h = omega arith

pub read_number_4 :
    {bytes : Bytes} (offset n : ℕ) (rest : Bytes)
    → n < 0x100000000
    → At bytes offset (bytes_of_4 n ++ rest)
    → (read_number bytes offset 4 ≡ ok (n, offset + 4)) × At bytes (offset + 4) rest
unfolding read_number
read_number_4 {bytes} offset n rest h at = (
  ground (arith, at.size, ap (take 4) at.view, big_endian_4 n h),
  At-advance offset (bytes_of_4 n) rest at,
)

pub read_number_8 :
    {bytes : Bytes} (offset n : ℕ) (rest : Bytes)
    → n < 0x10000000000000000
    → At bytes offset (bytes_of_8 n ++ rest)
    → (read_number bytes offset 8 ≡ ok (n, offset + 8)) × At bytes (offset + 8) rest
unfolding read_number
read_number_8 {bytes} offset n rest h at = (
  ground (arith, at.size, ap (take 8) at.view, big_endian_8 n h),
  At-advance offset (bytes_of_8 n) rest at,
)

pub read_string-At :
    {bytes : Bytes} (offset : ℕ) (s rest : Bytes)
    → length s < 0x100000000
    → At bytes offset (wire_string s ++ rest)
    → (read_string bytes offset ≡ ok (s, offset + 4 + length s))
      × At bytes (offset + 4 + length s) rest
unfolding read_string
read_string-At {bytes} offset s rest h at =
    let behind : At bytes (offset + 4) (s ++ rest) =
      At-advance offset (bytes_of_4 (length s)) (s ++ rest) at in
    (
      ground (
        arith,
        at.size,
        ap (take 4) at.view,
        ap (take (length s)) behind.view,
        take-append s rest,
        length-append s rest,
        big_endian_4 (length s) h,
      ),
      At-advance (offset + 4) s rest behind,
    )

abbrev pub IsAscii : Text → Type 0
IsAscii s = all (λ c. ltb c 0x80) s ≡ true

pub read_text-ascii : (s : Text) → IsAscii s → read_text s ≡ ok s
unfolding read_text
read_text-ascii s h = rw (decode_utf8-ascii s h, read_text)

-- The loop over the principals, from where `ps` are still to come.
pub read_principals-At :
    {bytes : Bytes} (fuel offset : ℕ) (ps : List Text)
    → At bytes offset (wire_strings ps)
    → All (λ p. IsAscii p × (length p < 0x100000000)) ps
    → length ps < fuel
    → read_principals fuel bytes offset ≡ ok (ps, length bytes)
unfolding read_principals
read_principals-At zero offset ps at h enough = absurd (omega arith)
read_principals-At {bytes} (suc fuel) offset [] at h enough = ground (arith, at.size)
read_principals-At {bytes} (suc fuel) offset (p ∷ ps) at h enough =
    let (read, next) = read_string-At offset p (wire_strings ps) h.0.1 at in
    rw (
      read,
      read_text-ascii p h.0.0,
      read_principals-At fuel (offset + 4 + length p) ps next h.1 (omega arith),
      lt→ltb offset (length bytes) (omega (arith, at.size)),
    )

pub length-le-wire_strings : (ss : List Bytes) → length ss ≤ length (wire_strings ss)
length-le-wire_strings [] = omega arith
length-le-wire_strings (s ∷ ss) =
    omega (arith, length-le-wire_strings ss, length-append s (wire_strings ss))
