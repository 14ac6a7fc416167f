-- ===== src/Base/Lists.antt =====
-- Lists measured by native numbers, Python's `in`, `set` and `len`, and the predicates on lists.
use Prim.Native.Nat.{ℕ, zero, suc, ◌+◌, ◌≤◌}
use mathlib.Core.Path.{◌≡◌, refl, ap}
use mathlib.Core.Logic.{◌⊎◌, inl, inr}
use mathlib.Core.Bool.{Bool, true, false, ◌&&◌, ◌||◌}
use mathlib.Core.List.{List, [], ◌∷◌, ◌++◌}
use native.Mathlib.Omega.{arith}
use server_key_injection.Base.Tests.{nat_beq, if◌then◌else◌, Bool-cases}
use server_key_injection.Base.Equality.{Eq, ◌==◌, nat_eq, equality_laws}

module _ {ℓ} {A : Type ℓ} where
  abbrev pub length : List A → ℕ
  length [] = 0
  length (x ∷ xs) = suc (length xs)

  abbrev pub take : ℕ → List A → List A
  take zero xs = []
  take (suc n) [] = []
  take (suc n) (x ∷ xs) = x ∷ take n xs

  abbrev pub drop : ℕ → List A → List A
  drop zero xs = xs
  drop (suc n) [] = []
  drop (suc n) (x ∷ xs) = drop n xs

  -- `all(p(x) for x in xs)`
  unfoldable pub all : (A → Bool) → List A → Bool
  all p [] = true
  all p (x ∷ xs) = p x && all p xs

  -- `[x for x in xs if p(x)]`
  unfoldable pub filter : (A → Bool) → List A → List A
  filter p [] = []
  filter p (x ∷ xs) = let rest = filter p xs in if p x then x ∷ rest else rest

  pub length-append : (xs ys : List A) → length (xs ++ ys) ≡ length xs + length ys
  length-append [] ys = omega arith
  length-append (x ∷ xs) ys = omega (arith, length-append xs ys)

  pub take-append : (xs ys : List A) → take (length xs) (xs ++ ys) ≡ xs
  take-append [] ys = refl
  take-append (x ∷ xs) ys = λ i. x ∷ take-append xs ys i

  pub drop-append : (xs ys : List A) → drop (length xs) (xs ++ ys) ≡ ys
  drop-append [] ys = refl
  drop-append (x ∷ xs) ys = drop-append xs ys

module _ {ℓ κ} {A : Type ℓ} where
  -- A predicate on every element computes to a tuple.
  abbrev pub All : (A → Type κ) → List A → Type κ
  All P [] = Unit
  All P (x ∷ xs) = P x × All P xs

-- A value is among the elements.
abbrev pub Elem : {A : Type 0} → A → List A → Type 0
Elem a [] = ⊥
Elem a (x ∷ xs) = (a ≡ x) ⊎ Elem a xs

module _ {A : Type 0} ⦃e : Eq A⦄ where
  -- `a in xs`
  unfoldable pub contains : List A → A → Bool
  contains [] a = false
  contains (x ∷ xs) a = a == x || contains xs a

  -- `xs.remove(a)`, where `a` is in `xs`
  abbrev pub remove_first : A → List A → List A
  remove_first a [] = []
  remove_first a (x ∷ xs) = let rest = x ∷ remove_first a xs in if x == a then xs else rest

  -- `set(xs)`, as the list of its elements
  unfoldable pub to_set : List A → List A
  unfolding contains
  to_set [] = []
  to_set (x ∷ xs) = let rest = to_set xs in if contains rest x then rest else x ∷ rest

  -- `len(set(xs)) == len(xs)`
  unfoldable pub distinct : List A → Bool
  unfolding to_set
  distinct xs = nat_beq (length (to_set xs)) (length xs)

  -- No element occurs twice.
  abbrev pub IsDistinct : List A → Type 0
  IsDistinct [] = Unit
  IsDistinct (x ∷ xs) = (contains xs x ≡ false) × IsDistinct xs

  pub contains-to_set : (xs : List A) (a : A) → contains (to_set xs) a ≡ contains xs a
  unfolding to_set
  contains-to_set [] a = refl
  contains-to_set (x ∷ xs) a =
      ground (arith, contains-to_set xs a, contains-to_set xs x, e.beq_iff a x)

  length-to_set-le : (xs : List A) → length (to_set xs) ≤ length xs
  unfolding to_set
  length-to_set-le [] = omega arith
  length-to_set-le (x ∷ xs) = ground (arith, length-to_set-le xs)

  pub IsDistinct_of_distinct : (xs : List A) → distinct xs ≡ true → IsDistinct xs
  unfolding distinct
  IsDistinct_of_distinct [] h = tt
  IsDistinct_of_distinct (x ∷ xs) h =
      ground (arith, length-to_set-le xs, contains-to_set xs x, IsDistinct_of_distinct xs)

  pub distinct_of_IsDistinct : (xs : List A) → IsDistinct xs → distinct xs ≡ true
  unfolding distinct
  distinct_of_IsDistinct [] h = refl
  distinct_of_IsDistinct (x ∷ xs) h =
      ground (arith, contains-to_set xs x, distinct_of_IsDistinct xs h.1)

  pub Elem-of_contains : (xs : List A) (a : A) → contains xs a ≡ true → Elem a xs
  unfolding contains
  Elem-of_contains [] a h = absurd (cc)
  Elem-of_contains (x ∷ xs) a h = ground (arith, e.beq_iff a x, Elem-of_contains xs a)

  pub contains_of_Elem : (xs : List A) (a : A) → Elem a xs → contains xs a ≡ true
  unfolding contains
  contains_of_Elem [] a h = absurd h
  contains_of_Elem (x ∷ xs) a (inl h) = ground (arith, e.beq_iff a x)
  contains_of_Elem (x ∷ xs) a (inr h) = ground (arith, contains_of_Elem xs a h)

  pub contains-append :
      (xs ys : List A) (a : A) → contains (xs ++ ys) a ≡ (contains xs a || contains ys a)
  unfolding contains
  contains-append [] ys a = refl
  contains-append (x ∷ xs) ys a = ground (arith, contains-append xs ys a)

  pub contains-filter :
      (p : A → Bool) (xs : List A) (a : A) → contains (filter p xs) a ≡ (p a && contains xs a)
  unfolding contains filter
  contains-filter p [] a = ground arith
  contains-filter p (x ∷ xs) a = elim (Bool-cases (a == x)) [
    | inl same ↦
        let q : a ≡ x = (e.beq_iff a x).0 same in ground (arith, contains-filter p xs a, ap p q)
    | inr other ↦ ground (arith, contains-filter p xs a)
  ]

-- What holds of `in` on lists that are put together, filtered or made into sets.
pub ruleset membership_laws =
    (equality_laws, nat_eq, contains-append, contains-filter, contains-to_set)
