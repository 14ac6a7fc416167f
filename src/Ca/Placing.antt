-- ===== src/Ca/Placing.antt =====
-- The steps of `install` in src/ski/ca.py that put the staged files in place.
use server_key_injection.Base.{
  membership_laws, ◌≡◌, refl, ap, ◌∙◌, Bool, true, false, Option, none, some, List, [], ◌∷◌, ◌++◌,
  Result, ok, err, map_err, if◌then◌else◌, ◌==◌, nat_eq, list_eq, contains, All, Bool-cases, inl,
  inr, remove_first, beq_refl,
}
use server_key_injection.Base.Text.{Text}
use server_key_injection.Service.{validate_secure_file}
use server_key_injection.State.Exec.{Run, ◌>>=◌, ◌>>◌, Outcome, Meets, Meets->>=}
use server_key_injection.State.Issuing.{All_mono, All_snoc}
use server_key_injection.Ca.{Files, is_there, put, Disk, CaError, other_error, CaMaterial}
use server_key_injection.Ca.Install.{
  Progress, write_temp, write_empty_krl, staged, validate_installed, move_to, place, place_all,
  stage_and_place, stage_public, stage_krl,
}
use server_key_injection.Ca.Staging.{
  IsNaming, IsPlaced, IsTracked, At, WritesTemporary, agree-put, staged-Meets,
  write_temp-WritesTemporary, write_empty_krl-WritesTemporary,
}

All-remove_first :
    (P : Text → Type 0) (a : Text) (xs : List Text) → All P xs → All P (remove_first a xs)
All-remove_first P a [] h = h
All-remove_first P a (x ∷ xs) h = elim (Bool-cases (x == a)) [
  | inl e ↦ rw e h.1
  | inr e ↦ rw e (h.0, All-remove_first P a xs h.1)
]

module _ (disk : Disk) (is_temporary : Text → Bool) (naming : IsNaming disk is_temporary)
    (start : Files) where
  abbrev pub Tracked : Progress → Type 0
  Tracked = IsTracked disk is_temporary naming start

  abbrev pub Reached : List Text → Progress → Type 0
  Reached = At disk is_temporary naming start

  -- A target of the installation: it is no temporary name, and it is free.
  pub record IsFree (target : Text) : Type 0 where
    pub free : start target ≡ none
    pub target_name : is_temporary target ≡ false

  moved-files :
      (files : Files) (temporary target content : Text) (q : Text)
      → is_temporary temporary ≡ true
      → is_temporary q ≡ false
      → (q == target) ≡ false
      → put target (some content) (put temporary none files) q ≡ files q
  moved-files files temporary target content q marked name other = rw other (
      agree-put disk is_temporary naming start files files temporary none marked (λ q _. refl) q
        name)

  still_there :
      (files : Files) (temporary target content q : Text)
      → is_temporary temporary ≡ true
      → IsPlaced disk is_temporary naming start files q
      → is_there (put target (some content) (put temporary none files) q) ≡ true
  still_there files temporary target content q marked k = elim (Bool-cases (q == target)) [
    | inl e ↦ rw e refl
    | inr e ↦
        ap is_there (moved-files files temporary target content q marked k.is_target e) ∙ k.is_there
  ]

  moved-IsTracked :
      (done : List Text) (temporary target content : Text) (p : Progress)
      → is_temporary temporary ≡ true
      → IsFree target
      → Reached done p
      → Reached (done ++ target ∷ []) (record {
        files = put target (some content) (put temporary none p.files);
        temporary = remove_first temporary p.temporary;
        installed = p.installed ++ target ∷ [];
      })
  unfolding contains
  moved-IsTracked done temporary target content p marked target_free (h, same) = (
    record {
      kept = λ q name new.
          moved-files p.files temporary target content q marked name (grind membership_laws)
          ∙ h.kept q name (grind membership_laws);
      placed =
          All_snoc
            (IsPlaced disk is_temporary naming start
              (put target (some content) (put temporary none p.files)))
            p.installed target
            (All_mono (IsPlaced disk is_temporary naming start p.files)
              (IsPlaced disk is_temporary naming start
                (put target (some content) (put temporary none p.files)))
              p.installed
              (λ q k. record {
                was_free = k.was_free;
                is_there = still_there p.files temporary target content q marked k;
                is_target = k.is_target;
              })
              h.placed)
            (record {
              was_free = target_free.free;
              is_there = rw (beq_refl target) refl;
              is_target = target_free.target_name;
            });
      staged_ = All-remove_first (λ q. is_temporary q ≡ true) temporary p.temporary h.staged_;
    },
    ap (λ xs. xs ++ target ∷ []) same,
  )

  move_to-Meets :
      (done : List Text) (temporary target : Text)
      → is_temporary temporary ≡ true
      → IsFree target
      → Meets
          (Reached done)
          (λ _. Reached (done ++ target ∷ []))
          Tracked
          (move_to disk temporary target)
  unfolding move_to
  move_to-Meets done temporary target marked free p (h, same) = go (p.files temporary)
    where
      go :
          (o : Option Text)
          → Outcome
              (λ _. Reached (done ++ target ∷ []))
              Tracked
              (elim o as (λ _. Result CaError (Unit {0}) × Progress) [
                | none ↦ (err other_error, p)
                | some content ↦
                    if disk.rename_ok p.files temporary target
                    then (
                      ok tt,
                      record {
                        files = put target (some content) (put temporary none p.files);
                        temporary = remove_first temporary p.temporary;
                        installed = p.installed ++ target ∷ [];
                      },
                    )
                    else (err other_error, p)
              ])
      go none = h
      go (some content) = elim (Bool-cases (disk.rename_ok p.files temporary target)) [
        | inl e ↦ rw e (moved-IsTracked done temporary target content p marked free (h, same))
        | inr e ↦ rw e h
      ]

  validate_installed-Meets :
      (done : List Text) (target : Text)
      → Meets (Reached done) (λ _. Reached done) Tracked (validate_installed disk target)
  unfolding validate_installed
  validate_installed-Meets done target p h =
      go (map_err _ (validate_secure_file (disk.lstat p.files target) disk.uid disk.gid))
    where
      go : (r : Result CaError (Unit {0})) → Outcome (λ _. Reached done) Tracked (r, p)
      go (ok _) = h
      go (err e) = h.0

  place-Meets :
      (done : List Text) (temporary target : Text)
      → is_temporary temporary ≡ true
      → IsFree target
      → Meets
          (Reached done)
          (λ _. Reached (done ++ target ∷ []))
          Tracked
          (place disk temporary target)
  unfolding place
  place-Meets done temporary target marked free =
      Meets->>= (Reached done) (λ _. Reached (done ++ target ∷ []))
        (λ _. Reached (done ++ target ∷ [])) Tracked (move_to disk temporary target)
        (λ _. validate_installed disk target) (move_to-Meets done temporary target marked free)
        (λ _. validate_installed-Meets (done ++ target ∷ []) target)

  module _ (private_path public_path krl_path : Text) where
    abbrev pub all_targets : List Text
    all_targets = private_path ∷ public_path ∷ krl_path ∷ []

  module _ (private_path public_path krl_path : Text) (private_free : IsFree private_path)
      (public_free : IsFree public_path) (krl_free : IsFree krl_path) where
    place_all-Meets :
        (private_temp public_temp krl_temp : Text)
        → is_temporary private_temp ≡ true
        → is_temporary public_temp ≡ true
        → is_temporary krl_temp ≡ true
        → Meets
            (Reached [])
            (λ _. Reached (all_targets private_path public_path krl_path))
            Tracked
            (place_all disk private_path public_path krl_path private_temp public_temp krl_temp)
    place_all-Meets private_temp public_temp krl_temp m1 m2 m3 =
        Meets->>= (Reached []) (λ _. Reached (private_path ∷ []))
          (λ _. Reached (all_targets private_path public_path krl_path)) Tracked
          (place disk private_temp private_path)
          (λ _. place disk public_temp public_path >> place disk krl_temp krl_path)
          (place-Meets [] private_temp private_path m1 private_free)
          λ _.
            Meets->>= (Reached (private_path ∷ [])) (λ _. Reached (private_path ∷ public_path ∷ []))
              (λ _. Reached (all_targets private_path public_path krl_path)) Tracked
              (place disk public_temp public_path) (λ _. place disk krl_temp krl_path)
              (place-Meets (private_path ∷ []) public_temp public_path m2 public_free)
              λ _. place-Meets (private_path ∷ public_path ∷ []) krl_temp krl_path m3 krl_free

    abbrev Staged : Text → Progress → Type 0
    Staged path p = Reached [] p × (is_temporary path ≡ true)

    stage_then :
        (step : Run Files CaError Text) (next : Text → Run Progress CaError (Unit {0}))
        → ((files : Files) → WritesTemporary disk is_temporary naming start (step files) files)
        → ((path : Text)
            → is_temporary path ≡ true
            → Meets
                (Reached [])
                (λ _. Reached (all_targets private_path public_path krl_path))
                Tracked
                (next path))
        → Meets
            (Reached [])
            (λ _. Reached (all_targets private_path public_path krl_path))
            Tracked
            (staged disk step >>= next)
    stage_then step next writes h =
        Meets->>= (Reached []) Staged (λ _. Reached (all_targets private_path public_path krl_path))
          Tracked (staged disk step) next
          (staged-Meets disk is_temporary naming start [] step writes)
          (λ path p (reached, marked). h path marked p reached)

    pub stage_and_place-Meets :
        (material : CaMaterial)
        → Meets
            (Reached [])
            (λ _. Reached (all_targets private_path public_path krl_path))
            Tracked
            (stage_and_place disk private_path public_path krl_path material)
    unfolding stage_and_place
    stage_and_place-Meets material =
        stage_then (write_temp disk private_path material.private_bytes)
          (stage_public disk private_path public_path krl_path material)
          (write_temp-WritesTemporary disk is_temporary naming start private_path
            material.private_bytes)
          λ private_temp m1.
            stage_then (write_temp disk public_path material.public_bytes)
              (stage_krl disk private_path public_path krl_path private_temp)
              (write_temp-WritesTemporary disk is_temporary naming start public_path
                material.public_bytes)
              λ public_temp m2.
                stage_then (write_empty_krl disk krl_path)
                  (place_all disk private_path public_path krl_path private_temp public_temp)
                  (write_empty_krl-WritesTemporary disk is_temporary naming start krl_path)
                  λ krl_temp m3. place_all-Meets private_temp public_temp krl_temp m1 m2 m3
