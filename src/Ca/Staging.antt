-- ===== src/Ca/Staging.antt =====
-- The steps of `install` in src/ski/ca.py: what staging a file leaves on the disk.
use mathlib.Core.Path.{subst}
use server_key_injection.Base.{
  ◌≡◌, refl, sym, ap, ◌∙◌, Bool, true, false, not, Option, none, some, List, [], ◌∷◌, ◌++◌, Result,
  ok, err, ◌==◌, nat_eq, list_eq, list_beq_iff, contains, All, arith, Bool-cases, inl, inr, ℕ,
}
use server_key_injection.Base.Text.{Text}
use server_key_injection.State.Exec.{Run, Outcome, Meets}
use server_key_injection.State.Issuing.{All_mono, All_snoc}
use server_key_injection.Ca.{Files, is_there, put, Disk, CaError, other_error}
use server_key_injection.Ca.Install.{
  Progress, fill_temp, write_temp, after_keygen, write_empty_krl, staged,
}

-- The names of temporary files, which `mkstemp` gives, are no names of targets, and are new.
pub record IsNaming (disk : Disk) (is_temporary : Text → Bool) : Type 0 where
  pub marked :
      (files : Files) (target temporary : Text)
      → disk.mkstemp files target ≡ some temporary
      → is_temporary temporary ≡ true
  pub fresh :
      (files : Files) (target temporary : Text)
      → disk.mkstemp files target ≡ some temporary
      → files temporary ≡ none

module _ (disk : Disk) (is_temporary : Text → Bool) (naming : IsNaming disk is_temporary)
    (start : Files) where
  -- A target that was put in place: it was not there before, and it is now.
  pub record IsPlaced (files : Files) (q : Text) : Type 0 where
    pub was_free : start q ≡ none
    pub is_there : is_there (files q) ≡ true
    pub is_target : is_temporary q ≡ false

  pub record IsTracked (p : Progress) : Type 0 where
    pub kept :
        (q : Text) → is_temporary q ≡ false → contains p.installed q ≡ false → p.files q ≡ start q
    pub placed : All (IsPlaced p.files) p.installed
    pub staged_ : All (λ q. is_temporary q ≡ true) p.temporary

  abbrev pub At : List Text → Progress → Type 0
  At done p = IsTracked p × (p.installed ≡ done)

  -- Files that differ from others only at temporary names.
  abbrev pub AgreeAt : Files → Files → Type 0
  AgreeAt files files' = (q : Text) → is_temporary q ≡ false → files' q ≡ files q

  pub agree-put :
      (files files' : Files) (temporary : Text) (content : Option Text)
      → is_temporary temporary ≡ true
      → AgreeAt files files'
      → AgreeAt files (put temporary content files')
  agree-put files files' temporary content marked agree q target =
      elim (Bool-cases (q == temporary)) [
        | inl same ↦ absurd (ground (arith, ap is_temporary ((list_beq_iff q temporary).0 same)))
        | inr other ↦ rw other (agree q target)
      ]

  -- Every step that writes a temporary file keeps the rest of the disk.
  abbrev pub WritesTemporary : Result CaError Text × Files → Files → Type 0
  WritesTemporary (ok path, files') files = AgreeAt files files' × (is_temporary path ≡ true)
  WritesTemporary (err _, files') files = AgreeAt files files'

  same_files : (files : Files) → AgreeAt files files
  same_files files q target = refl

  fill_temp-WritesTemporary :
      (payload temporary : Text) (files files0 : Files)
      → is_temporary temporary ≡ true
      → AgreeAt files0 files
      → WritesTemporary (fill_temp disk payload temporary files) files0
  unfolding fill_temp
  fill_temp-WritesTemporary payload temporary files files0 marked agree =
      elim (Bool-cases (disk.write_ok files temporary)) [
        | inl e ↦ rw e (agree-put files0 files temporary (some payload) marked agree, marked)
        | inr e ↦ rw e (agree-put files0 files temporary none marked agree)
      ]

  pub write_temp-WritesTemporary :
      (target payload : Text) (files : Files)
      → WritesTemporary (write_temp disk target payload files) files
  unfolding write_temp
  write_temp-WritesTemporary target payload files = go (disk.mkstemp files target) refl
    where
      go :
          (o : Option Text)
          → disk.mkstemp files target ≡ o
          → WritesTemporary
              (elim o as (λ _. Result CaError Text × Files) [
                | none ↦ (err other_error, files)
                | some temporary ↦ fill_temp disk payload temporary (put temporary (some []) files)
              ])
              files
      go none same = same_files files
      go (some temporary) same =
          let marked = naming.marked files target temporary same in
          fill_temp-WritesTemporary payload temporary (put temporary (some []) files) files marked
            (agree-put files files temporary (some []) marked (same_files files))

  after_keygen-WritesTemporary :
      (temporary : Text) (made : Option (ℕ × Option Text)) (files files0 : Files)
      → is_temporary temporary ≡ true
      → AgreeAt files0 files
      → WritesTemporary (after_keygen disk temporary made files) files0
  unfolding after_keygen
  after_keygen-WritesTemporary temporary none files files0 marked agree = agree
  after_keygen-WritesTemporary temporary (some (returncode, none)) files files0 marked agree =
      agree-put files0 files temporary none marked agree
  after_keygen-WritesTemporary temporary (some (returncode, some made)) files files0 marked agree =
      elim (Bool-cases (not (returncode == 0))) [
        | inl e ↦ rw e (agree-put files0 files temporary none marked agree)
        | inr e ↦
            rw e (elim (Bool-cases (disk.chmod_ok (put temporary (some made) files) temporary)) [
              | inl c ↦ rw c (agree-put files0 files temporary (some made) marked agree, marked)
              | inr c ↦ rw c (agree-put files0 files temporary (some made) marked agree)
            ])
      ]

  pub write_empty_krl-WritesTemporary :
      (target : Text) (files : Files) → WritesTemporary (write_empty_krl disk target files) files
  unfolding write_empty_krl
  write_empty_krl-WritesTemporary target files = go (disk.mkstemp files target) refl
    where
      go :
          (o : Option Text)
          → disk.mkstemp files target ≡ o
          → WritesTemporary
              (elim o as (λ _. Result CaError Text × Files) [
                | none ↦ (err other_error, files)
                | some temporary ↦
                    let cleared = put temporary none files in
                    after_keygen disk temporary (disk.run_keygen cleared temporary) cleared
              ])
              files
      go none same = same_files files
      go (some temporary) same =
          let marked = naming.marked files target temporary same in
          after_keygen-WritesTemporary temporary
            (disk.run_keygen (put temporary none files) temporary) (put temporary none files) files
            marked (agree-put files files temporary none marked (same_files files))

  -- The files of an agreeing disk keep what was placed.
  pub IsPlaced-agree :
      (done : List Text) (files files' : Files)
      → AgreeAt files files'
      → All (IsPlaced files) done
      → All (IsPlaced files') done
  IsPlaced-agree done files files' agree = All_mono (IsPlaced files) (IsPlaced files') done (λ q h.
      record {
        was_free = h.was_free;
        is_there = subst (λ o. is_there o ≡ true) (sym (agree q h.is_target)) h.is_there;
        is_target = h.is_target;
      })

  agree-IsTracked :
      (p : Progress) (files' : Files) (temporary' : List Text)
      → AgreeAt p.files files'
      → All (λ q. is_temporary q ≡ true) temporary'
      → IsTracked p
      → IsTracked (record { files = files'; temporary = temporary'; installed = p.installed })
  agree-IsTracked p files' temporary' agree marked h = record {
    kept = λ q target new. agree q target ∙ h.kept q target new;
    placed = IsPlaced-agree p.installed p.files files' agree h.placed;
    staged_ = marked;
  }

  pub staged-Meets :
      (done : List Text) (step : Run Files CaError Text)
      → ((files : Files) → WritesTemporary (step files) files)
      → Meets
          (At done)
          (λ path p. At done p × (is_temporary path ≡ true))
          IsTracked
          (staged disk step)
  unfolding staged
  staged-Meets done step writes p (h, same) = go (step p.files) (writes p.files)
    where
      go :
          (x : Result CaError Text × Files)
          → WritesTemporary x p.files
          → Outcome
              (λ path s. At done s × (is_temporary path ≡ true))
              IsTracked
              (elim x.0 as (λ _. Result CaError Text × Progress) [
                | ok path ↦
                    (ok path, record p { files = x.1; temporary = p.temporary ++ path ∷ [] })
                | err e ↦ (err e, record p { files = x.1 })
              ])
      go (ok path, files) (agree, marked) = (
        (
          agree-IsTracked p files (p.temporary ++ path ∷ []) agree
              (All_snoc _ p.temporary path h.staged_ marked) h,
          same,
        ),
        marked,
      )
      go (err e, files) agree = agree-IsTracked p files p.temporary agree h.staged_ h
