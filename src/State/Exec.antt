-- ===== src/State/Exec.antt =====
-- Calls that change the database and may raise: what was written before an error stays written,
-- unless a transaction rolls it back.
use server_key_injection.Base.{◌≡◌, refl, ap, Bool, true, false, Result, ok, err}

abbrev pub Run : Type 0 → Type 0 → Type 0 → Type 0
Run S E A = S → Result E A × S

module _ {S E A : Type 0} where
  abbrev pub pure : A → Run S E A
  pure a s = (ok a, s)

  abbrev pub raise : E → Run S E A
  raise e s = (err e, s)

  abbrev pub lift : Result E A → Run S E A
  lift r s = (r, s)

  abbrev pub gets : (S → A) → Run S E A
  gets f s = (ok (f s), s)

  -- `with database.transaction()`: commit on return, roll back on an exception
  abbrev pub transaction : Run S E A → Run S E A
  transaction m s = let (r, s') = m s in elim r [ ok a ↦ (ok a, s') | err e ↦ (err e, s) ]

abbrev pub modify : {S E : Type 0} → (S → S) → Run S E (Unit {0})
modify f s = (ok tt, f s)

abbrev pub demand : {S E : Type 0} → Bool → E → Run S E (Unit {0})
demand true e s = (ok tt, s)
demand false e s = (err e, s)

-- `except X as exc: raise Y from exc`
abbrev pub convert : {S E F A : Type 0} → (E → F) → Run S E A → Run S F A
convert f m s = let (r, s') = m s in elim r [ ok a ↦ (ok a, s') | err e ↦ (err (f e), s') ]

infixl 5 ◌>>=◌ ◌>>◌
abbrev pub ◌>>=◌ : {S E A B : Type 0} → Run S E A → (A → Run S E B) → Run S E B
◌>>=◌ m f s = let (r, s') = m s in elim r [ ok a ↦ f a s' | err e ↦ (err e, s') ]

abbrev pub ◌>>◌ : {S E A B : Type 0} → Run S E A → Run S E B → Run S E B
m >> k = m >>= λ _. k

-- What a call gives once its first part has run.
module _ {S E A B : Type 0} (m : Run S E A) (f : A → Run S E B) (s : S) {s' : S} where
  pub bind_ok : {a : A} → m s ≡ (ok a, s') → (m >>= f) s ≡ f a s'
  bind_ok h =
      ap (λ p. elim p.0 as (λ _. Result E B × S) [ ok a ↦ f a p.1 | err e ↦ (err e, p.1) ]) h

  pub bind_err : {e : E} → m s ≡ (err e, s') → (m >>= f) s ≡ (err e, s')
  bind_err h =
      ap (λ p. elim p.0 as (λ _. Result E B × S) [ ok a ↦ f a p.1 | err e ↦ (err e, p.1) ]) h

module _ {S E A : Type 0} (m : Run S E A) (s : S) {s' : S} where
  pub transaction_ok : {a : A} → m s ≡ (ok a, s') → transaction m s ≡ (ok a, s')
  transaction_ok h =
      ap (λ p. elim p.0 as (λ _. Result E A × S) [ ok a ↦ (ok a, p.1) | err e ↦ (err e, s) ]) h

  pub transaction_err : {e : E} → m s ≡ (err e, s') → transaction m s ≡ (err e, s)
  transaction_err h =
      ap (λ p. elim p.0 as (λ _. Result E A × S) [ ok a ↦ (ok a, p.1) | err e ↦ (err e, s) ]) h

module _ {S E F A : Type 0} (g : E → F) (m : Run S E A) (s : S) {s' : S} where
  pub convert_ok : {a : A} → m s ≡ (ok a, s') → convert g m s ≡ (ok a, s')
  convert_ok h =
      ap (λ p. elim p.0 as (λ _. Result F A × S) [ ok a ↦ (ok a, p.1) | err e ↦ (err (g e), p.1) ])
        h

  pub convert_err : {e : E} → m s ≡ (err e, s') → convert g m s ≡ (err (g e), s')
  convert_err h =
      ap (λ p. elim p.0 as (λ _. Result F A × S) [ ok a ↦ (ok a, p.1) | err e ↦ (err (g e), p.1) ])
        h

module _ {S E A B : Type 0} (m : Run S E A) (f : A → Run S E B) (s : S) (b : B) (s' : S) where
  abbrev Ran : Type 0
  Ran = (a : A) × (s1 : S) × (m s ≡ (ok a, s1)) × (f a s1 ≡ (ok b, s'))

  bind_cases :
      (p : Result E A × S)
      → m s ≡ p
      → elim p.0 as (λ _. Result E B × S) [ ok a ↦ f a p.1 | err e ↦ (err e, p.1) ] ≡ (ok b, s')
      → Ran
  bind_cases (ok a, s1) same h = (a, s1, same, h)
  bind_cases (err e, s1) same h = absurd (cc)

  -- What a call that succeeded has run.
  pub >>=-eq-ok : (m >>= f) s ≡ (ok b, s') → Ran
  >>=-eq-ok h = bind_cases (m s) refl h

-- From a state where `P` holds, a call returns a value with `Q`, or raises and leaves `R`.
module _ {S E : Type 0} where
  abbrev pub Outcome : {A : Type 0} → (A → S → Type 0) → (S → Type 0) → Result E A × S → Type 0
  Outcome Q R (ok a, s) = Q a s
  Outcome Q R (err _, s) = R s

  abbrev pub Meets :
      {A : Type 0} → (S → Type 0) → (A → S → Type 0) → (S → Type 0) → Run S E A → Type 0
  Meets P Q R m = (s : S) → P s → Outcome Q R (m s)

  pub Meets->>= :
      {A B : Type 0} (P : S → Type 0) (Q : A → S → Type 0) (T : B → S → Type 0) (R : S → Type 0)
      (m : Run S E A) (f : A → Run S E B)
      → Meets P Q R m
      → ((a : A) → Meets (Q a) T R (f a))
      → Meets P T R (m >>= f)
  Meets->>= {A = A} {B = B} P Q T R m f first next s h = go (m s) (first s h)
    where
      go :
          (p : Result E A × S)
          → Outcome Q R p
          → Outcome T R
              (elim p.0 as (λ _. Result E B × S) [ ok a ↦ f a p.1 | err e ↦ (err e, p.1) ])
      go (ok a, s') k = next a s' k
      go (err e, s') k = k
