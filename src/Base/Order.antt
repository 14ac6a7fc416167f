-- ===== src/Base/Order.antt =====
-- Python's order on sequences of numbers (its strings compare by code point), and `sorted`.
use Prim.Native.Nat.{ℕ}
use mathlib.Core.Path.{◌≡◌, refl, ◌∙◌}
use mathlib.Core.Logic.{◌⊎◌, inl, inr}
use mathlib.Core.Bool.{Bool, true, false, ◌&&◌, ◌||◌}
use mathlib.Core.List.{List, [], ◌∷◌}
use native.Mathlib.Omega.{arith}
use server_key_injection.Base.Equality.{◌==◌, beq_refl, list_beq_iff, list_eq, nat_eq}
use server_key_injection.Base.Lists.{contains, IsDistinct}
use server_key_injection.Base.Tests.{ltb, nat_beq, if◌then◌else◌, Bool-cases}

-- `a <= b` on strings
unfoldable pub lex_le : List ℕ → List ℕ → Bool
lex_le [] ys = true
lex_le (x ∷ xs) [] = false
lex_le (x ∷ xs) (y ∷ ys) = ltb x y || (nat_beq x y && lex_le xs ys)

pub lex_le_refl : (xs : List ℕ) → lex_le xs xs ≡ true
unfolding lex_le
lex_le_refl [] = refl
lex_le_refl (x ∷ xs) = ground (arith, lex_le_refl xs)

pub lex_le_total : (xs ys : List ℕ) → lex_le xs ys ≡ false → lex_le ys xs ≡ true
unfolding lex_le
lex_le_total [] ys h = cc
lex_le_total (x ∷ xs) [] h = refl
lex_le_total (x ∷ xs) (y ∷ ys) h = ground (arith, lex_le_total xs ys)

pub lex_le_trans :
    (xs ys zs : List ℕ) → lex_le xs ys ≡ true → lex_le ys zs ≡ true → lex_le xs zs ≡ true
unfolding lex_le
lex_le_trans [] ys zs h k = refl
lex_le_trans (x ∷ xs) [] zs h k = cc
lex_le_trans (x ∷ xs) (y ∷ ys) [] h k = cc
lex_le_trans (x ∷ xs) (y ∷ ys) (z ∷ zs) h k = ground (arith, lex_le_trans xs ys zs)

insert_sorted : List ℕ → List (List ℕ) → List (List ℕ)
insert_sorted x [] = x ∷ []
insert_sorted x (y ∷ ys) = if lex_le x y then x ∷ y ∷ ys else y ∷ insert_sorted x ys

-- `sorted(xs)` of strings
unfoldable pub sorted : List (List ℕ) → List (List ℕ)
unfolding insert_sorted
sorted [] = []
sorted (x ∷ xs) = insert_sorted x (sorted xs)

pub lex_le_antisymm : (xs ys : List ℕ) → lex_le xs ys ≡ true → lex_le ys xs ≡ true → xs ≡ ys
unfolding lex_le
lex_le_antisymm [] [] h k = refl
lex_le_antisymm [] (y ∷ ys) h k = cc
lex_le_antisymm (x ∷ xs) [] h k = cc
lex_le_antisymm (x ∷ xs) (y ∷ ys) h k = ground (arith, lex_le_antisymm xs ys)

-- A member that is below all members.
pub record IsLeast (g : List ℕ) (xs : List (List ℕ)) : Type 0 where
  pub member : contains xs g ≡ true
  pub below : (k : List ℕ) → contains xs k ≡ true → lex_le g k ≡ true

pub IsLeast-unique : (g h : List ℕ) (xs : List (List ℕ)) → IsLeast g xs → IsLeast h xs → g ≡ h
IsLeast-unique g h xs a b = lex_le_antisymm g h (a.below h b.member) (b.below g a.member)

IsLeast-cons :
    (x g : List ℕ) (xs : List (List ℕ))
    → IsLeast g xs
    → IsLeast (if lex_le x g then x else g) (x ∷ xs)
unfolding contains
IsLeast-cons x g xs least = elim (Bool-cases (lex_le x g)) [
  | inl first ↦ rw first (record {
    member = ground (arith, beq_refl x);
    below =
        λ k h. ground (arith, list_beq_iff k x, lex_le_refl x, least.below k, lex_le_trans x g k);
  })
  | inr later ↦ rw later (record {
    member = ground (arith, least.member);
    below = λ k h. ground (arith, list_beq_iff k x, lex_le_total x g, least.below k);
  })
]

IsLeast-one : (x : List ℕ) → IsLeast x (x ∷ [])
unfolding contains
IsLeast-one x = record {
  member = ground (arith, beq_refl x);
  below = λ k h. ground (arith, list_beq_iff k x, lex_le_refl x);
}

-- The first of the sorted elements is the least one.
pub sorted_first :
    (xs : List (List ℕ))
    → ((xs ≡ []) × (sorted xs ≡ []))
      ⊎ ((g : List ℕ) × (rest : List (List ℕ)) × (sorted xs ≡ g ∷ rest) × IsLeast g xs)
unfolding sorted
sorted_first [] = inl (refl, refl)
sorted_first (x ∷ xs) = elim (sorted_first xs) [
  | inl (empty, none_sorted) ↦ inr (x, [], ground arith, rw empty (IsLeast-one x))
  | inr (g, rest, e, least) ↦ inr (
    (if lex_le x g then x else g),
    (if lex_le x g then g ∷ rest else insert_sorted x rest),
    ground arith,
    IsLeast-cons x g xs least,
  )
]

contains-insert_sorted :
    (x k : List ℕ) (xs : List (List ℕ))
    → contains (insert_sorted x xs) k ≡ (k == x || contains xs k)
unfolding insert_sorted contains
contains-insert_sorted x k [] = refl
contains-insert_sorted x k (y ∷ ys) = ground (arith, contains-insert_sorted x k ys)

-- Sorting keeps the elements.
pub contains-sorted : (xs : List (List ℕ)) (k : List ℕ) → contains (sorted xs) k ≡ contains xs k
unfolding sorted contains
contains-sorted [] k = refl
contains-sorted (x ∷ xs) k = rw (contains-insert_sorted x k (sorted xs), contains-sorted xs k)

-- Each element is below all that follow it.
abbrev pub IsSorted : List (List ℕ) → Type 0
IsSorted [] = Unit
IsSorted (x ∷ xs) = ((k : List ℕ) → contains xs k ≡ true → lex_le x k ≡ true) × IsSorted xs

insert_sorted-IsSorted :
    (x : List ℕ) (xs : List (List ℕ)) → IsSorted xs → IsSorted (insert_sorted x xs)
unfolding insert_sorted contains
insert_sorted-IsSorted x [] h = (λ k e. cc, tt)
insert_sorted-IsSorted x (y ∷ ys) h = elim (Bool-cases (lex_le x y)) [
  | inl first ↦ rw first ((λ k e. ground (arith, list_beq_iff k y, h.0 k, lex_le_trans x y k), h))
  | inr later ↦ rw later (
      (
        λ k e.
            ground
              (arith, contains-insert_sorted x k ys, list_beq_iff k x, h.0 k, lex_le_total x y),
        insert_sorted-IsSorted x ys h.1,
      ))
]

pub sorted-IsSorted : (xs : List (List ℕ)) → IsSorted (sorted xs)
unfolding sorted
sorted-IsSorted [] = tt
sorted-IsSorted (x ∷ xs) = insert_sorted-IsSorted x (sorted xs) (sorted-IsSorted xs)

insert_sorted-IsDistinct :
    (x : List ℕ) (xs : List (List ℕ))
    → contains xs x ≡ false
    → IsDistinct xs
    → IsDistinct (insert_sorted x xs)
unfolding insert_sorted contains
insert_sorted-IsDistinct x [] n h = (refl, tt)
insert_sorted-IsDistinct x (y ∷ ys) n h = elim (Bool-cases (lex_le x y)) [
  | inl first ↦ rw first (n, h)
  | inr later ↦ rw later (
      (
        ground (arith, contains-insert_sorted x y ys, list_beq_iff x y, list_beq_iff y x, h.0),
        insert_sorted-IsDistinct x ys (ground arith) h.1,
      ))
]

pub sorted-IsDistinct : (xs : List (List ℕ)) → IsDistinct xs → IsDistinct (sorted xs)
unfolding sorted
sorted-IsDistinct [] h = tt
sorted-IsDistinct (x ∷ xs) h =
    insert_sorted-IsDistinct x (sorted xs) (contains-sorted xs x ∙ h.0) (sorted-IsDistinct xs h.1)
