-- ===== src/Base/Outcome.antt =====
-- A call that returns or raises, with the errors that it can raise as the parameter `E`.
use mathlib.Core.Path.{◌≡◌, refl, ap, subst}
use mathlib.Core.Bool.{Bool, true, false, not}
use mathlib.Core.List.{List, [], ◌∷◌}

pub data Result (E A : Type 0) : Type 0 where
  ok : A → Result E A
  err : E → Result E A

infixl 5 ◌>>=◌ ◌>>◌
abbrev pub ◌>>=◌ : {E A B : Type 0} → Result E A → (A → Result E B) → Result E B
ok returned >>= next = next returned
err raised >>= next = err raised

abbrev pub ◌>>◌ : {E A B : Type 0} → Result E A → Result E B → Result E B
first >> second = first >>= λ _. second

-- `if c: raise e`
abbrev pub raise_if : {E : Type 0} → Bool → E → Result E (Unit {0})
raise_if true e = err e
raise_if false e = ok tt

-- `except X as exc: raise Y from exc`
abbrev pub map_err : {E F A : Type 0} → (E → F) → Result E A → Result F A
map_err f (ok a) = ok a
map_err f (err e) = err (f e)

abbrev pub is_ok : {E A : Type 0} → Result E A → Bool
is_ok (ok _) = true
is_ok (err _) = false

-- `tuple(f(x) for x in xs)`, which stops at the first element that raises
unfoldable pub traverse : {E A B : Type 0} → (A → Result E B) → List A → Result E (List B)
traverse f [] = ok []
traverse f (x ∷ xs) = do y ← f x; ys ← traverse f xs; ok (y ∷ ys)

pub >>=-eq-ok :
    {E A B : Type 0} (first : Result E A) (next : A → Result E B) {b : B}
    → (first >>= next) ≡ ok b
    → (returned : A) × (first ≡ ok returned) × (next returned ≡ ok b)
>>=-eq-ok (ok returned) next h = (returned, refl, h)
>>=-eq-ok (err raised) next h = cc

-- A bind raises an error only if its first part does, or its second part on what the first returns.
pub >>=-ne-err :
    {E A B : Type 0} (m : Result E A) (f : A → Result E B) (e : E)
    → (m ≡ err e → ⊥)
    → ((a : A) → m ≡ ok a → f a ≡ err e → ⊥)
    → (m >>= f) ≡ err e
    → ⊥
>>=-ne-err (ok a) f e n k h = k a refl h
>>=-ne-err (err e') f e n k h = n (cc)

-- What a guard that let a call succeed has tested.
pub raise_if-eq-ok :
    {E A : Type 0} (b : Bool) (e : E) (k : Result E A) {a : A}
    → (raise_if b e >> k) ≡ ok a
    → (b ≡ false) × (k ≡ ok a)
raise_if-eq-ok true e k h = absurd (cc)
raise_if-eq-ok false e k h = (refl, h)

-- The same of a guard that demands its test.
pub require-eq-ok :
    {E A : Type 0} (b : Bool) (e : E) (k : Result E A) {a : A}
    → (raise_if (not b) e >> k) ≡ ok a
    → (b ≡ true) × (k ≡ ok a)
require-eq-ok true e k h = (refl, h)
require-eq-ok false e k h = absurd (cc)

-- A condition on what a call returns, where it returns.
unfoldable pub Ensures : {E A : Type 0} → (A → Type 0) → Result E A → Type 0
Ensures P (ok a) = P a
Ensures P (err e) = Unit

pub Ensures->>= :
    {E A B : Type 0} (P : B → Type 0) (m : Result E A) (f : A → Result E B)
    → ((a : A) → m ≡ ok a → Ensures P (f a))
    → Ensures P (m >>= f)
unfolding Ensures
Ensures->>= P (ok a) f h = h a refl
Ensures->>= P (err e) f h = tt

pub ensured :
    {E A : Type 0} (P : A → Type 0) (r : Result E A) {a : A} → Ensures P r → r ≡ ok a → P a
unfolding Ensures
ensured P (ok b) h e = subst P (ap (λ (r : Result _ _). elim r [ ok x ↦ x | err _ ↦ b ]) e) h
ensured P (err e') h e = absurd (cc)

ok_value : {E A : Type 0} → A → Result E A → A
ok_value b (ok a) = a
ok_value b (err e) = b

pub ok-injective : {E A : Type 0} {a b : A} → Path (Result E A) (ok a) (ok b) → a ≡ b
unfolding ok_value
ok-injective {a = a} h = ap (ok_value a) h

pub map_err-eq-ok :
    {E F A : Type 0} (g : E → F) (r : Result E A) {a : A} → map_err g r ≡ ok a → r ≡ ok a
map_err-eq-ok g (ok b) h = ap ok (ok-injective h)
map_err-eq-ok g (err e) h = absurd (cc)

pub Ensures-map_err :
    {E F A : Type 0} (P : A → Type 0) (g : E → F) (r : Result E A)
    → Ensures P r
    → Ensures P (map_err g r)
unfolding Ensures
Ensures-map_err P g (ok a) h = h
Ensures-map_err P g (err e) h = tt

module _ {E A : Type 0} (P : A → Type 0) (e : E) (next : Result E A) where
  -- What runs after a guard may rely on the guard's test.
  pub Ensures-raise_if :
      (b : Bool) → (b ≡ false → Ensures P next) → Ensures P (raise_if b e >> next)
  unfolding Ensures
  Ensures-raise_if true h = tt
  Ensures-raise_if false h = h refl

  pub Ensures-require :
      (b : Bool) → (b ≡ true → Ensures P next) → Ensures P (raise_if (not b) e >> next)
  unfolding Ensures
  Ensures-require true h = h refl
  Ensures-require false h = tt
