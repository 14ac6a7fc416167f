-- ===== src/Ca/Laws.antt =====
-- What `install` of src/ski/ca.py leaves on the disk.
use mathlib.Core.Path.{subst}
use server_key_injection.Base.{
  equality_laws, ◌≡◌, refl, sym, ap, ◌∙◌, Bool, true, false, not, ◌||◌, Option, none, some, List,
  [], ◌∷◌, Result, ok, err, ◌==◌, nat_eq, list_eq, list_beq_iff, contains, All, arith, Bool-cases,
  inl, inr, raise_if-eq-ok, ◌>>◌ as ◌>>ʳ◌,
}
use server_key_injection.Base.Text.{Text, codes}
use server_key_injection.State.Records.{path_name}
use server_key_injection.State.Exec.{Outcome}
use server_key_injection.Ca.{Files, is_there, put, Disk, PrivateKey, CaError, CaMaterial}
use server_key_injection.Ca.Install.{
  Progress, validate_targets, generate, check_resolved, stage_and_place, unlink_all, finish_install,
  install_checked, install,
}
use server_key_injection.Ca.Staging.{IsNaming, IsPlaced}
use server_key_injection.Ca.Writing.{Anything, anything}
use server_key_injection.Ca.Contents.{IsWritten, stage_and_place-IsWritten}
use server_key_injection.Ca.Placing.{Tracked, Reached, IsFree, all_targets, stage_and_place-Meets}

unlink_all-none :
    (paths : List Text) (files : Files) (q : Text)
    → files q ≡ none
    → unlink_all paths files q ≡ none
unfolding unlink_all
unlink_all-none [] files q h = h
unlink_all-none (p ∷ paths) files q h =
    unlink_all-none paths (put p none files) q
      (elim (Bool-cases (q == p)) [ inl e ↦ rw e refl | inr e ↦ rw e h ])

pub unlinked :
    (paths : List Text) (files : Files) (q : Text)
    → contains paths q ≡ true
    → unlink_all paths files q ≡ none
unfolding unlink_all contains
unlinked [] files q h = absurd (cc h)
unlinked (p ∷ paths) files q h = elim (Bool-cases (q == p)) [
  | inl same ↦ unlink_all-none paths (put p none files) q (rw same refl)
  | inr other ↦ unlinked paths (put p none files) q (ground arith)
]

pub untouched :
    (paths : List Text) (files : Files) (q : Text)
    → contains paths q ≡ false
    → unlink_all paths files q ≡ files q
unfolding unlink_all contains
untouched [] files q h = refl
untouched (p ∷ paths) files q h =
    untouched paths (put p none files) q (ground arith) ∙ grind equality_laws

unseen :
    (seen : List Text) (r q : Text)
    → contains (r ∷ seen) q ≡ false
    → ((q == r) ≡ false) × (contains seen q ≡ false)
unfolding contains
unseen seen r q h = ground arith

no_file : (o : Option Text) (b : Bool) → (b || is_there o) ≡ false → o ≡ none
no_file none b h = refl
no_file (some _) true h = absurd (cc)
no_file (some _) false h = absurd (cc)

not_among :
    (P : Text → Bool) (xs : List Text) (q : Text)
    → All (λ x. P x ≡ true) xs
    → P q ≡ false
    → contains xs q ≡ false
unfolding contains
not_among P [] q h n = refl
not_among P (x ∷ xs) q h n = elim (Bool-cases (q == x)) [
  | inl same ↦ absurd (ground (arith, ap P ((list_beq_iff q x).0 same)))
  | inr other ↦ rw other (not_among P xs q h.1 n)
]

pub among : (P : Text → Type 0) (xs : List Text) (q : Text) → All P xs → contains xs q ≡ true → P q
unfolding contains
among P [] q h n = absurd (cc)
among P (x ∷ xs) q h n = elim (Bool-cases (q == x)) [
  | inl same ↦ subst P (sym ((list_beq_iff q x).0 same)) h.0
  | inr other ↦ among P xs q h.1 (ground arith)
]

module _ (disk : Disk) (is_temporary : Text → Bool) (naming : IsNaming disk is_temporary)
    (start : Files) where
  module _ (private_path public_path krl_path : Text) where
    -- All three files are there, none of them was before, and the other targets are as they were.
    pub record IsInstalled (files : Files) : Type 0 where
      pub private_placed : IsPlaced disk is_temporary naming start files private_path
      pub public_placed : IsPlaced disk is_temporary naming start files public_path
      pub krl_placed : IsPlaced disk is_temporary naming start files krl_path
      pub others :
          (q : Text)
          → is_temporary q ≡ false
          → contains
              (all_targets disk is_temporary naming start private_path public_path krl_path)
              q
            ≡ false
          → files q ≡ start q

    abbrev pub AllOrNothing : Result CaError CaMaterial × Files → Type 0
    AllOrNothing (ok material, files) =
        IsInstalled files × IsWritten private_path public_path material files
    AllOrNothing (err _, files) = (q : Text) → is_temporary q ≡ false → files q ≡ start q

  module _ (private_path public_path krl_path : Text)
      (private_free : IsFree disk is_temporary naming start private_path)
      (public_free : IsFree disk is_temporary naming start public_path)
      (krl_free : IsFree disk is_temporary naming start krl_path) where
    removed :
        (p : Progress)
        → (Tracked disk is_temporary naming start) p
        → (q : Text) → is_temporary q ≡ false
        → unlink_all p.installed (unlink_all p.temporary p.files) q ≡ start q
    removed p h q name =
        let untouched_temporary =
          untouched p.temporary p.files q (not_among is_temporary p.temporary q h.staged_ name) in
        elim (Bool-cases (contains p.installed q)) [
          | inl was ↦
              unlinked p.installed (unlink_all p.temporary p.files) q was
              ∙ sym
                  (among (IsPlaced disk is_temporary naming start p.files) p.installed q h.placed
                    was).was_free
          | inr was_not ↦
              untouched p.installed (unlink_all p.temporary p.files) q was_not
              ∙ (untouched_temporary ∙ h.kept q name was_not)
        ]

    finish_install-AllOrNothing :
        (material : CaMaterial) (x : Result CaError (Unit {0}) × Progress)
        → Outcome
            (λ _.
              Reached disk is_temporary naming start
                (all_targets disk is_temporary naming start private_path public_path krl_path))
            (Tracked disk is_temporary naming start)
            x
        → Outcome
            (λ _ (p : Progress). IsWritten private_path public_path material p.files)
            Anything
            x
        → AllOrNothing private_path public_path krl_path (finish_install material x)
    unfolding finish_install
    finish_install-AllOrNothing material (ok _, p) (h, same) written =
        let placed = subst (All (IsPlaced disk is_temporary naming start p.files)) same h.placed in
        (
          record {
            private_placed = placed.0;
            public_placed = placed.1.0;
            krl_placed = placed.1.1.0;
            others =
                λ q name new. h.kept q name (subst (λ xs. contains xs q ≡ false) (sym same) new);
          },
          written,
        )
    finish_install-AllOrNothing material (err e, p) h written = removed p h

  -- The paths of the configuration: expanded, and no names of temporary files.
  pub record IsTarget (path : Text) : Type 0 where
    pub expanded : disk.expanduser path ≡ path
    pub target_name : is_temporary path ≡ false

  resolved-IsFree :
      (seen : List Text) (path : Text) (resolved : Option Text)
      (rest : List Text → Result CaError (Unit {0}))
      → IsTarget path
      → check_resolved disk start seen (disk.expanduser path) resolved rest ≡ ok tt
      → IsFree disk is_temporary naming start path
        × ((r : Text) × (resolved ≡ some r) × (contains seen r ≡ false) × (rest (r ∷ seen) ≡ ok tt))
  unfolding check_resolved
  resolved-IsFree seen path none rest target h = absurd (cc h)
  resolved-IsFree seen path (some resolved) rest target h =
      let (unseen, h1) = raise_if-eq-ok (contains seen resolved) _ _ h in
      let (absent, h2) =
        raise_if-eq-ok
          (disk.is_symlink (disk.expanduser path) || is_there (start (disk.expanduser path))) _ _
          h1 in
      (
        record {
          free = ap start (sym target.expanded) ∙ no_file (start (disk.expanduser path)) _ absent;
          target_name = target.target_name;
        },
        (resolved, refl, unseen, h2),
      )

  validated-IsFree :
      (seen : List Text) (path : Text) (paths : List Text)
      → IsTarget path
      → validate_targets disk start seen (path ∷ paths) ≡ ok tt
      → IsFree disk is_temporary naming start path
        × ((r : Text) × (disk.resolve (disk.expanduser path) ≡ some r)
            × (contains seen r ≡ false)
            × (validate_targets disk start (r ∷ seen) paths ≡ ok tt))
  unfolding validate_targets
  validated-IsFree seen path paths target h =
      let (_, h1) =
        raise_if-eq-ok
          (contains ([] ∷ codes "." ∷ codes ".." ∷ []) (path_name (disk.expanduser path))
            || not (disk.parent_is_dir (disk.expanduser path)))
          _ _ h in
      let (_, h2) = raise_if-eq-ok (not (disk.parent_writable (disk.expanduser path))) _ _ h1 in
      resolved-IsFree seen path (disk.resolve (disk.expanduser path))
        (λ seen'. validate_targets disk start seen' paths) target h2

  -- Paths that resolve to different places are different.
  differ :
      (p q r r' : Text)
      → disk.resolve (disk.expanduser p) ≡ some r
      → disk.resolve (disk.expanduser q) ≡ some r'
      → (r' == r) ≡ false
      → (p == q) ≡ false
  differ p q r r' at_p at_q other = elim (Bool-cases (p == q)) [
    | inr unequal ↦ unequal
    | inl same ↦
        let q_is_p : p ≡ q = (list_beq_iff p q).0 same in
        let resolved : r' ≡ r =
          cc (at_p, at_q, ap (λ x. disk.resolve (disk.expanduser x)) q_is_p) in
        absurd (ground (arith, list_beq_iff r' r))
  ]

  module _ (private_path public_path krl_path : Text) (private_target : IsTarget private_path)
      (public_target : IsTarget public_path) (krl_target : IsTarget krl_path) where
    install_checked-AllOrNothing :
        (material : CaMaterial)
        → validate_targets disk start []
            (all_targets disk is_temporary naming start private_path public_path krl_path)
          ≡ ok tt
        → AllOrNothing private_path public_path krl_path
            (install_checked disk private_path public_path krl_path (ok material) start)
    unfolding install_checked
    install_checked-AllOrNothing material h =
        let (private_free, (private_resolved, same1, _, h1)) =
          validated-IsFree [] private_path (public_path ∷ krl_path ∷ []) private_target h in
        let (public_free, (public_resolved, same2, new2, h2)) =
          validated-IsFree (private_resolved ∷ []) public_path (krl_path ∷ []) public_target h1 in
        let (krl_free, (krl_resolved, same3, new3, _)) =
          validated-IsFree (public_resolved ∷ private_resolved ∷ []) krl_path [] krl_target h2 in
        finish_install-AllOrNothing private_path public_path krl_path private_free public_free
          krl_free material
          (stage_and_place disk private_path public_path krl_path material
            (record { files = start; temporary = []; installed = [] }))
          (stage_and_place-Meets disk is_temporary naming start private_path public_path krl_path
            private_free public_free krl_free material
            (record { files = start; temporary = []; installed = [] })
            (record { kept = λ q name new. refl; placed = tt; staged_ = tt }, refl))
          (stage_and_place-IsWritten disk is_temporary naming private_path public_path krl_path
            private_target.target_name public_target.target_name
            (differ private_path public_path private_resolved public_resolved same1 same2
              (unseen [] private_resolved public_resolved new2).0)
            (differ private_path krl_path private_resolved krl_resolved same1 same3
              (unseen [] private_resolved krl_resolved
                (unseen (private_resolved ∷ []) public_resolved krl_resolved new3).1).0)
            (differ public_path krl_path public_resolved krl_resolved same2 same3
              (unseen (private_resolved ∷ []) public_resolved krl_resolved new3).0)
            material (record { files = start; temporary = []; installed = [] }) (anything _))

    -- Whichever operation on the disk but unlinking fails: an installation that succeeds has put all three files in place,
    -- where there was none, with the two halves of the key that it returns, and has changed no other file; one
    -- that fails has left every file as it was, but for names that only temporary files have. The targets
    -- are paths that the configuration gives.
    pub install-AllOrNothing :
        (key : Option PrivateKey)
        → AllOrNothing private_path public_path krl_path
            (install disk key private_path public_path krl_path start)
    unfolding install install_checked
    install-AllOrNothing key =
        go
          (validate_targets disk start []
            (all_targets disk is_temporary naming start private_path public_path krl_path))
          refl (generate key)
      where
        go :
            (v : Result CaError (Unit {0}))
            → validate_targets disk start []
                (all_targets disk is_temporary naming start private_path public_path krl_path)
              ≡ v
            → (g : Result CaError CaMaterial)
            → AllOrNothing private_path public_path krl_path
                (install_checked disk private_path public_path krl_path (v >>ʳ g) start)
        go (err e) same g = λ q name. refl
        go (ok _) same (err e) = λ q name. refl
        go (ok tt) same (ok material) = install_checked-AllOrNothing material same
