-- ===== src/Ca/Writing.antt =====
-- The files that a step of `install` in src/ski/ca.py writes or moves.
use mathlib.Core.Path.{subst}
use server_key_injection.Base.{
  ◌≡◌, refl, sym, ap, ◌∙◌, Bool, true, false, not, Option, none, some, [], ◌∷◌, ◌++◌, Result, ok,
  err, map_err, if◌then◌else◌, ◌==◌, nat_eq, list_eq, list_beq_iff, Bool-cases, inl, inr,
  remove_first, ℕ, beq_refl, arith,
}
use server_key_injection.Base.Text.{Text}
use server_key_injection.Service.{validate_secure_file}
use server_key_injection.State.Exec.{Run, Outcome, Meets->>=}
use server_key_injection.Ca.{Files, put, Disk, CaError, other_error}
use server_key_injection.Ca.Install.{
  Progress, fill_temp, write_temp, after_keygen, write_empty_krl, staged, validate_installed,
  move_to, place,
}
use server_key_injection.Ca.Staging.{IsNaming}

put_same :
    (path : Text) (content : Option Text) (files : Files) → put path content files path ≡ content
put_same path content files = rw (beq_refl path) refl

put_other :
    (path q : Text) (content : Option Text) (files : Files)
    → (q == path) ≡ false
    → put path content files q ≡ files q
put_other path q content files other = rw other refl

none_ne_some : {A : Type 0} (o : Option A) (a : A) → o ≡ none → o ≡ some a → ⊥
none_ne_some o a h k = cc

-- No condition on a state.
unfoldable pub Anything : {S : Type 0} → S → Type 0
Anything s = Unit

pub anything : {S : Type 0} (s : S) → Anything s
unfolding Anything
anything s = tt

pub outcome_mono :
    {S A : Type 0} (Q Q' : A → S → Type 0) (x : Result CaError A × S)
    → ((a : A) (s : S) → Q a s → Q' a s)
    → Outcome Q Anything x
    → Outcome Q' Anything x
unfolding Anything
outcome_mono Q Q' (ok a, s) f h = f a s h
outcome_mono Q Q' (err e, s) f h = tt

module _ (disk : Disk) (is_temporary : Text → Bool) (naming : IsNaming disk is_temporary) where
  -- A new temporary file, next to the files that were there.
  pub record IsAdded (files : Files) (t : Text) (files' : Files) : Type 0 where
    pub marked : is_temporary t ≡ true
    pub kept :
        (q content : Text) → files q ≡ some content → ((q == t) ≡ false) × (files' q ≡ some content)

  pub apart : (q t : Text) → is_temporary q ≡ false → is_temporary t ≡ true → (q == t) ≡ false
  apart q t target temporary = elim (Bool-cases (q == t)) [
    | inl same ↦ absurd (ground (arith, ap is_temporary ((list_beq_iff q t).0 same)))
    | inr other ↦ other
  ]

  pub apart_target :
      (t q : Text) → is_temporary t ≡ true → is_temporary q ≡ false → (t == q) ≡ false
  apart_target t q temporary target = elim (Bool-cases (t == q)) [
    | inl same ↦ absurd (ground (arith, ap is_temporary ((list_beq_iff t q).0 same)))
    | inr other ↦ other
  ]

  added :
      (files : Files) (target t : Text) (files' : Files)
      → disk.mkstemp files target ≡ some t
      → ((q : Text) → (q == t) ≡ false → files' q ≡ files q)
      → IsAdded files t files'
  added files target t files' made others = record {
    marked = naming.marked files target t made;
    kept = λ q content there.
        let other : (q == t) ≡ false = elim (Bool-cases (q == t)) [
          | inl same ↦ absurd (
              none_ne_some (files t) content (naming.fresh files target t made)
                (ap files (sym ((list_beq_iff q t).0 same)) ∙ there))
          | inr other ↦ other
        ] in
        (other, others q other ∙ there);
  }

  pub write_temp-writes :
      (target payload : Text) (files : Files)
      → Outcome
          (λ t files'. IsAdded files t files' × (files' t ≡ some payload))
          Anything
          (write_temp disk target payload files)
  unfolding write_temp fill_temp Anything
  write_temp-writes target payload files = go (disk.mkstemp files target) refl
    where
      go :
          (o : Option Text)
          → disk.mkstemp files target ≡ o
          → Outcome
              (λ t files'. IsAdded files t files' × (files' t ≡ some payload))
              Anything
              (elim o as (λ _. Result CaError Text × Files) [
                | none ↦ (err other_error, files)
                | some temporary ↦ fill_temp disk payload temporary (put temporary (some []) files)
              ])
      go none made = tt
      go (some t) made = elim (Bool-cases (disk.write_ok (put t (some []) files) t)) [
        | inl e ↦ rw e (
          added files target t (put t (some payload) (put t (some []) files)) made (λ q other.
              put_other t q (some payload) (put t (some []) files) other
              ∙ put_other t q (some []) files other),
          put_same t (some payload) (put t (some []) files),
        )
        | inr e ↦ rw e tt
      ]

  pub write_empty_krl-adds :
      (target : Text) (files : Files)
      → Outcome (λ t files'. IsAdded files t files') Anything (write_empty_krl disk target files)
  unfolding write_empty_krl after_keygen Anything
  write_empty_krl-adds target files = go (disk.mkstemp files target) refl
    where
      ran :
          (t : Text)
          → disk.mkstemp files target ≡ some t
          → (o : Option (ℕ × Option Text))
          → Outcome
              (λ t files'. IsAdded files t files')
              Anything
              (after_keygen disk t o (put t none files))
      ran t made none = tt
      ran t made (some (returncode, none)) = tt
      ran t made (some (returncode, some content)) = elim (Bool-cases (not (returncode == 0))) [
        | inl e ↦ rw e tt
        | inr e ↦
            rw e (elim (Bool-cases (disk.chmod_ok (put t (some content) (put t none files)) t)) [
              | inl e ↦ rw e (
                  added files target t (put t (some content) (put t none files)) made (λ q other.
                    put_other t q (some content) (put t none files) other
                    ∙ put_other t q none files other))
              | inr e ↦ rw e tt
            ])
      ]

      go :
          (o : Option Text)
          → disk.mkstemp files target ≡ o
          → Outcome
              (λ t files'. IsAdded files t files')
              Anything
              (elim o as (λ _. Result CaError Text × Files) [
                | none ↦ (err other_error, files)
                | some temporary ↦
                    let cleared = put temporary none files in
                    after_keygen disk temporary (disk.run_keygen cleared temporary) cleared
              ])
      go none made = tt
      go (some t) made = ran t made (disk.run_keygen (put t none files) t)

  pub staged-Outcome :
      (step : Run Files CaError Text) (p : Progress) (Q : Text → Files → Type 0)
      → Outcome Q Anything (step p.files)
      → Outcome (λ t (p' : Progress). Q t p'.files) Anything (staged disk step p)
  unfolding staged Anything
  staged-Outcome step p Q h = go (step p.files) h
    where
      go :
          (x : Result CaError Text × Files)
          → Outcome Q Anything x
          → Outcome {E = CaError}
              (λ t (p' : Progress). Q t p'.files)
              Anything
              (let (r, files) = x in
                elim r as (λ _. Result CaError Text × Progress) [
                  | ok path ↦
                      (ok path, record p { files = files; temporary = p.temporary ++ path ∷ [] })
                  | err e ↦ (err e, record p { files = files })
                ])
      go (ok t, files) h = h
      go (err e, files) h = tt

  -- A file was moved to its target, and the others stayed.
  pub record IsMoved (temporary target : Text) (files files' : Files) : Type 0 where
    pub moved : files' target ≡ files temporary
    pub others : (q : Text) → (q == target) ≡ false → (q == temporary) ≡ false → files' q ≡ files q

  move_to-IsMoved :
      (temporary target : Text) (p : Progress)
      → Outcome
          (λ _ (p' : Progress). IsMoved temporary target p.files p'.files)
          Anything
          (move_to disk temporary target p)
  unfolding move_to Anything
  move_to-IsMoved temporary target p = go (p.files temporary) refl
    where
      go :
          (o : Option Text)
          → p.files temporary ≡ o
          → Outcome
              (λ _ (p' : Progress). IsMoved temporary target p.files p'.files)
              Anything
              (elim o as (λ _. Result CaError (Unit {0}) × Progress) [
                | none ↦ (err other_error, p)
                | some content ↦
                    if disk.rename_ok p.files temporary target
                    then (
                      ok tt,
                      record {
                        files = put target (some content) (put temporary none p.files);
                        temporary = remove_first temporary p.temporary;
                        installed = p.installed ++ target ∷ [];
                      },
                    )
                    else (err other_error, p)
              ])
      go none there = tt
      go (some content) there = elim (Bool-cases (disk.rename_ok p.files temporary target)) [
        | inl e ↦ rw e (record {
          moved = put_same target (some content) (put temporary none p.files) ∙ sym there;
          others = λ q other other'.
              put_other target q (some content) (put temporary none p.files) other
              ∙ put_other temporary q none p.files other';
        })
        | inr e ↦ rw e tt
      ]

  validated :
      (target : Text) (P : Files → Type 0) (s : Progress)
      → P s.files
      → Outcome (λ _ (p' : Progress). P p'.files) Anything (validate_installed disk target s)
  unfolding validate_installed Anything
  validated target P s h =
      go (map_err _ (validate_secure_file (disk.lstat s.files target) disk.uid disk.gid))
    where
      go :
          (r : Result CaError (Unit {0}))
          → Outcome (λ _ (p' : Progress). P p'.files) Anything (r, s)
      go (ok _) = h
      go (err e) = tt

  pub place-IsMoved :
      (temporary target : Text) (p : Progress)
      → Outcome
          (λ _ (p' : Progress). IsMoved temporary target p.files p'.files)
          Anything
          (place disk temporary target p)
  unfolding place
  place-IsMoved temporary target p =
      Meets->>= (λ s. s ≡ p) (λ _ (p' : Progress). IsMoved temporary target p.files p'.files)
        (λ _ (p' : Progress). IsMoved temporary target p.files p'.files) Anything
        (move_to disk temporary target) (λ _. validate_installed disk target)
        (λ s same.
          subst
            (λ x.
              Outcome (λ _ (p' : Progress). IsMoved temporary target p.files p'.files) Anything
                (move_to disk temporary target x))
            (sym same) (move_to-IsMoved temporary target p))
        (λ _ s h. validated target (IsMoved temporary target p.files) s h) p refl
