-- ===== src/Base/Decimal.antt =====
-- Python's `str(n)` of a natural number, and `int(text)` of ASCII text.
use Prim.Native.Nat.{ℕ, zero, suc, ◌+◌, ◌-◌, ◌*◌, ◌/◌, ◌%◌, ◌<◌}
use mathlib.Core.Path.{◌≡◌, refl, ap, ◌∙◌}
use mathlib.Core.Logic.{inl, inr}
use mathlib.Core.Bool.{Bool, true, ◌&&◌, ◌||◌}
use mathlib.Core.Option.{Option, none, some}
use mathlib.Core.List.{[], ◌∷◌, ◌++◌, reverse, reverse-append, reverse-reverse}
use native.Mathlib.Omega.{arith}
use server_key_injection.Base.Tests.{nat_beq, ltb, leb, if◌then◌else◌, Bool-cases}
use server_key_injection.Base.Lists.{all}
use server_key_injection.Base.Text.{Text}
use server_key_injection.Base.Pattern.{is_digit}
use server_key_injection.Base.Int.{ℤ, pos, negsuc}

-- The digits of `n` in front of `acc`; `fuel` bounds their number.
digits_onto : ℕ → ℕ → Text → Text
digits_onto zero n acc = acc
digits_onto (suc fuel) n acc =
    let more = digits_onto fuel (n / 10) ((48 + n % 10) ∷ acc) in
    if ltb n 10 then (48 + n) ∷ acc else more

unfoldable pub print_ℕ : ℕ → Text
unfolding digits_onto
print_ℕ n = digits_onto (suc n) n []

-- Digits, with single underscores between them.
read_digits : ℕ → Text → Option ℕ
unfolding is_digit
read_digits acc [] = some acc
read_digits acc (c ∷ []) = if is_digit c then some (acc * 10 + (c - 48)) else none
read_digits acc (c ∷ d ∷ s) =
    let on = read_digits (acc * 10 + (c - 48)) (d ∷ s) in
    let over = read_digits (acc * 10 + (c - 48)) s in
    if is_digit c
    then (if nat_beq d b'_' then (elim s [ [] ↦ none | _ ∷ _ ↦ over ]) else on)
    else none

unfoldable pub read_ℕ : Text → Option ℕ
unfolding read_digits
read_ℕ [] = none
read_ℕ (c ∷ s) = read_digits 0 (c ∷ s)

-- ASCII white space.
abbrev is_blank : ℕ → Bool
is_blank c = (leb 0x9 c && leb c 0xd) || (leb 0x1c c && leb c 0x20)

strip_left : Text → Text
strip_left [] = []
strip_left (c ∷ s) = let rest = strip_left s in if is_blank c then rest else c ∷ s

abbrev negate : Option ℕ → Option ℤ
negate none = none
negate (some zero) = some (pos 0)
negate (some (suc n)) = some (negsuc n)

abbrev positive : Option ℕ → Option ℤ
positive none = none
positive (some n) = some (pos n)

read_signed : Text → Option ℤ
unfolding read_ℕ
read_signed [] = none
read_signed (c ∷ s) =
    if nat_beq c b'-'
    then negate (read_ℕ s)
    else if nat_beq c b'+'
    then positive (read_ℕ s)
    else positive (read_ℕ (c ∷ s))

-- `str(n)` of an int
unfoldable pub print_ℤ : ℤ → Text
print_ℤ (pos n) = print_ℕ n
print_ℤ (negsuc n) = b'-' ∷ print_ℕ (suc n)

-- `int(text)`, `none` where it raises ValueError
unfoldable pub read_int : Text → Option ℤ
unfolding strip_left read_signed
read_int s = read_signed (reverse (strip_left (reverse (strip_left s))))

value : ℕ → Text → ℕ
value acc [] = acc
value acc (c ∷ s) = value (acc * 10 + (c - 48)) s

abbrev Digits : Text → Type 0
Digits s = all is_digit s ≡ true

read_digits-value :
    (acc c : ℕ) (s : Text) → Digits (c ∷ s) → read_digits acc (c ∷ s) ≡ some (value acc (c ∷ s))
unfolding read_digits value all is_digit
read_digits-value acc c [] h = ground arith
read_digits-value acc c (d ∷ s) h = ground (arith, read_digits-value (acc * 10 + (c - 48)) d s)

value-digits_onto :
    (fuel n : ℕ) (rest : Text) → n < fuel → value 0 (digits_onto fuel n rest) ≡ value n rest
unfolding value digits_onto
value-digits_onto zero n rest h = absurd (omega arith)
value-digits_onto (suc fuel) n rest h = elim (Bool-cases (ltb n 10)) [
  | inl small ↦ rw small (ap (λ k. value k rest) (omega arith))
  | inr large ↦ rw large (
      value-digits_onto fuel (n / 10) ((48 + n % 10) ∷ rest) (ground arith)
      ∙ ap (λ k. value k rest) (omega arith))
]

Digits-digits_onto :
    (fuel n : ℕ) (rest : Text) → n < fuel → Digits rest → Digits (digits_onto fuel n rest)
unfolding digits_onto all is_digit
Digits-digits_onto zero n rest h d = absurd (omega arith)
Digits-digits_onto (suc fuel) n rest h d =
    ground (arith, Digits-digits_onto fuel (n / 10) ((48 + n % 10) ∷ rest))

pub Digits-print_ℕ : (n : ℕ) → Digits (print_ℕ n)
unfolding print_ℕ all
Digits-print_ℕ n = Digits-digits_onto (suc n) n [] (omega arith) refl

-- A printed number is not the empty text.
digits_onto-cons :
    (fuel n : ℕ) (rest : Text) → n < fuel → (c : ℕ) × (s : Text) × (digits_onto fuel n rest ≡ c ∷ s)
unfolding digits_onto
digits_onto-cons zero n rest h = absurd (omega arith)
digits_onto-cons (suc fuel) n rest h = elim (Bool-cases (ltb n 10)) [
  | inl small ↦ (48 + n, rest, rw small)
  | inr large ↦ rw large (digits_onto-cons fuel (n / 10) ((48 + n % 10) ∷ rest) (ground arith))
]

strip-Digits : (s : Text) → Digits s → strip_left s ≡ s
unfolding strip_left all is_digit
strip-Digits [] h = refl
strip-Digits (c ∷ s) h = ground arith

all-append : (p : ℕ → Bool) (s t : Text) → all p s ≡ true → all p t ≡ true → all p (s ++ t) ≡ true
unfolding all
all-append p [] t h k = k
all-append p (c ∷ s) t h k = ground (arith, all-append p s t)

Digits-reverse : (s : Text) → Digits s → Digits (reverse s)
unfolding all is_digit
Digits-reverse [] h = refl
Digits-reverse (c ∷ s) h =
    rw (reverse-append (c ∷ []) s)
      (all-append is_digit (reverse s) (c ∷ []) (Digits-reverse s (ground arith)) (ground arith))

read_signed-Digits :
    (c : ℕ) (s : Text) → Digits (c ∷ s) → read_signed (c ∷ s) ≡ some (pos (value 0 (c ∷ s)))
unfolding read_signed read_ℕ all is_digit
read_signed-Digits c s h = ground (arith, read_digits-value 0 c s h)

read_int-Digits :
    (t : Text) (c : ℕ) (s : Text) → t ≡ c ∷ s → Digits t → read_int t ≡ some (pos (value 0 t))
unfolding read_int
read_int-Digits t c s e d = rw (
  strip-Digits t d,
  strip-Digits (reverse t) (Digits-reverse t d),
  reverse-reverse t,
  e,
  read_signed-Digits c s (rw e at d),
)

-- Reading a printed number gives it back.
pub read_int-print_ℕ : (n : ℕ) → read_int (print_ℕ n) ≡ some (pos n)
unfolding print_ℕ value
read_int-print_ℕ n =
    let (c, s, e) = digits_onto-cons (suc n) n [] (omega arith) in
    read_int-Digits (digits_onto (suc n) n []) c s e (Digits-print_ℕ n)
    ∙ ap (λ k. some (pos k)) (value-digits_onto (suc n) n [] (omega arith))

pub print_ℕ_injective : (m n : ℕ) → print_ℕ m ≡ print_ℕ n → m ≡ n
print_ℕ_injective m n e = ground (arith, read_int-print_ℕ m, read_int-print_ℕ n, ap read_int e)
