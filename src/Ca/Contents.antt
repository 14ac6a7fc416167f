-- ===== src/Ca/Contents.antt =====
-- What `install` of src/ski/ca.py writes into the files that it puts in place.
use server_key_injection.Base.{
  ◌≡◌, ◌∙◌, Bool, true, false, some, Result, ok, err, ◌==◌, nat_eq, list_eq, list_beq_iff, arith,
}
use server_key_injection.Base.Text.{Text}
use server_key_injection.State.Exec.{Run, ◌>>◌, Outcome, Meets, Meets->>=}
use server_key_injection.Ca.{Files, Disk, CaError, CaMaterial}
use server_key_injection.Ca.Install.{
  Progress, write_temp, write_empty_krl, staged, place, place_all, stage_krl, stage_public,
  stage_and_place,
}
use server_key_injection.Ca.Staging.{IsNaming}
use server_key_injection.Ca.Writing.{
  Anything, anything, outcome_mono, IsAdded, IsMoved, apart, apart_target, write_temp-writes,
  write_empty_krl-adds, staged-Outcome, place-IsMoved,
}

-- The key pair of the material is in the two files.
abbrev pub IsWritten : (private_path public_path : Text) → CaMaterial → Files → Type 0
IsWritten private_path public_path material files =
    (files private_path ≡ some material.private_bytes)
    × (files public_path ≡ some material.public_bytes)

module _ (disk : Disk) (is_temporary : Text → Bool) (naming : IsNaming disk is_temporary) where
  module _ (private_path public_path krl_path : Text)
      (private_target : is_temporary private_path ≡ false)
      (public_target : is_temporary public_path ≡ false)
      (private_public : (private_path == public_path) ≡ false)
      (private_krl : (private_path == krl_path) ≡ false)
      (public_krl : (public_path == krl_path) ≡ false) (material : CaMaterial) where
    record AreStaged (private_temp public_temp : Text) (files : Files) : Type 0 where
      private_marked : is_temporary private_temp ≡ true
      public_marked : is_temporary public_temp ≡ true
      differ : (public_temp == private_temp) ≡ false
      private_staged : files private_temp ≡ some material.private_bytes
      public_staged : files public_temp ≡ some material.public_bytes

    place_private :
        (private_temp public_temp : Text) (files files' : Files)
        → AreStaged private_temp public_temp files
        → IsMoved disk is_temporary naming private_temp private_path files files'
        → (files' private_path ≡ some material.private_bytes)
          × (files' public_temp ≡ some material.public_bytes)
    place_private private_temp public_temp files files' h m = (
      m.moved ∙ h.private_staged,
      m.others public_temp
            (apart_target disk is_temporary naming public_temp private_path h.public_marked
              private_target)
            h.differ
          ∙ h.public_staged,
    )

    place_public :
        (public_temp : Text) (files files' : Files)
        → is_temporary public_temp ≡ true
        → (files private_path ≡ some material.private_bytes)
          × (files public_temp ≡ some material.public_bytes)
        → IsMoved disk is_temporary naming public_temp public_path files files'
        → IsWritten private_path public_path material files'
    place_public public_temp files files' marked (private_there, public_staged) m = (
      m.others private_path private_public
            (apart disk is_temporary naming private_path public_temp private_target marked)
          ∙ private_there,
      m.moved ∙ public_staged,
    )

    place_krl :
        (krl_temp : Text) (files files' : Files)
        → is_temporary krl_temp ≡ true
        → IsWritten private_path public_path material files
        → IsMoved disk is_temporary naming krl_temp krl_path files files'
        → IsWritten private_path public_path material files'
    place_krl krl_temp files files' marked (private_there, public_there) m = (
      m.others private_path private_krl
            (apart disk is_temporary naming private_path krl_temp private_target marked)
          ∙ private_there,
      m.others public_path public_krl
            (apart disk is_temporary naming public_path krl_temp public_target marked)
          ∙ public_there,
    )

    -- A placement, as a step between conditions on the files.
    placing :
        (temporary target : Text) (P Q : Files → Type 0)
        → ((files files' : Files)
            → P files
            → IsMoved disk is_temporary naming temporary target files files'
            → Q files')
        → Meets
            (λ (p : Progress). P p.files)
            (λ _ (p : Progress). Q p.files)
            Anything
            (place disk temporary target)
    placing temporary target P Q step p h =
        go (place disk temporary target p)
          (place-IsMoved disk is_temporary naming temporary target p)
      where
        go :
            (x : Result CaError (Unit {0}) × Progress)
            → Outcome
                (λ _ (p' : Progress).
                  IsMoved disk is_temporary naming temporary target p.files p'.files)
                Anything
                x
            → Outcome (λ _ (p' : Progress). Q p'.files) Anything x
        go (ok _, p') m = step p.files p'.files h m
        go (err e, p') m = m

    place_all-IsWritten :
        (private_temp public_temp krl_temp : Text)
        → is_temporary krl_temp ≡ true
        → Meets
            (λ (p : Progress). AreStaged private_temp public_temp p.files)
            (λ _ (p : Progress). IsWritten private_path public_path material p.files)
            Anything
            (place_all disk private_path public_path krl_path private_temp public_temp krl_temp)
    place_all-IsWritten private_temp public_temp krl_temp marked p h =
        Meets->>= (λ (p : Progress). AreStaged private_temp public_temp p.files)
          (λ _ (p : Progress).
            (p.files private_path ≡ some material.private_bytes)
            × (p.files public_temp ≡ some material.public_bytes))
          (λ _ (p : Progress). IsWritten private_path public_path material p.files) Anything
          (place disk private_temp private_path)
          (λ _. place disk public_temp public_path >> place disk krl_temp krl_path)
          (placing private_temp private_path (AreStaged private_temp public_temp) _
            (place_private private_temp public_temp))
          (λ _.
            Meets->>= _ (λ _ (p : Progress). IsWritten private_path public_path material p.files)
              (λ _ (p : Progress). IsWritten private_path public_path material p.files) Anything
              (place disk public_temp public_path) (λ _. place disk krl_temp krl_path)
              (placing public_temp public_path _ (IsWritten private_path public_path material)
                (λ files files'. place_public public_temp files files' h.public_marked))
              (λ _.
                placing krl_temp krl_path (IsWritten private_path public_path material) _
                  (λ files files'. place_krl krl_temp files files' marked)))
          p h

    abbrev HasPrivate : Text → Files → Type 0
    HasPrivate private_temp files =
        (is_temporary private_temp ≡ true) × (files private_temp ≡ some material.private_bytes)

    stage_public-AreStaged :
        (private_temp : Text) (files : Files)
        → HasPrivate private_temp files
        → (t : Text) (files' : Files) → IsAdded disk is_temporary naming files t files'
        → files' t ≡ some material.public_bytes
        → AreStaged private_temp t files'
    stage_public-AreStaged private_temp files (marked, there) t files' new written =
        let (other, still) = new.kept private_temp material.private_bytes there in
        record {
          private_marked = marked;
          public_marked = new.marked;
          differ = ground (arith, list_beq_iff t private_temp, list_beq_iff private_temp t);
          private_staged = still;
          public_staged = written;
        }

    stage_krl-AreStaged :
        (private_temp public_temp : Text) (files : Files)
        → AreStaged private_temp public_temp files
        → (t : Text) (files' : Files) → IsAdded disk is_temporary naming files t files'
        → AreStaged private_temp public_temp files'
    stage_krl-AreStaged private_temp public_temp files h t files' new = record {
      private_marked = h.private_marked;
      public_marked = h.public_marked;
      differ = h.differ;
      private_staged = (new.kept private_temp material.private_bytes h.private_staged).1;
      public_staged = (new.kept public_temp material.public_bytes h.public_staged).1;
    }

    -- A staging, as a step between conditions on the files.
    staging :
        (step : Run Files CaError Text) (P : Files → Type 0) (Q : Text → Files → Type 0)
        → ((files : Files) → P files → Outcome Q Anything (step files))
        → Meets
            (λ (p : Progress). P p.files)
            (λ t (p : Progress). Q t p.files)
            Anything
            (staged disk step)
    staging step P Q h p start = staged-Outcome disk is_temporary naming step p Q (h p.files start)

    pub stage_and_place-IsWritten :
        Meets Anything
          (λ _ (p : Progress). IsWritten private_path public_path material p.files)
          Anything
          (stage_and_place disk private_path public_path krl_path material)
    unfolding stage_and_place
    stage_and_place-IsWritten =
        Meets->>= Anything (λ t (p : Progress). HasPrivate t p.files) Done Anything
          (staged disk (write_temp disk private_path material.private_bytes))
          (stage_public disk private_path public_path krl_path material)
          (λ p _.
            staging (write_temp disk private_path material.private_bytes) Anything HasPrivate
              (λ files _.
                outcome_mono _ HasPrivate _ (λ t files' h. (h.0.marked, h.1))
                  (write_temp-writes disk is_temporary naming private_path material.private_bytes
                    files))
              p (anything p.files))
          λ private_temp.
            Meets->>= (λ (p : Progress). HasPrivate private_temp p.files)
              (λ t (p : Progress). AreStaged private_temp t p.files) Done Anything
              (staged disk (write_temp disk public_path material.public_bytes))
              (stage_krl disk private_path public_path krl_path private_temp)
              (staging (write_temp disk public_path material.public_bytes) (HasPrivate private_temp)
                (AreStaged private_temp)
                (λ files had.
                  outcome_mono _ (AreStaged private_temp) _
                    (λ t files' h. stage_public-AreStaged private_temp files had t files' h.0 h.1)
                    (write_temp-writes disk is_temporary naming public_path material.public_bytes
                      files)))
              λ public_temp.
                Meets->>= (λ (p : Progress). AreStaged private_temp public_temp p.files)
                  (λ t (p : Progress).
                    (is_temporary t ≡ true) × AreStaged private_temp public_temp p.files)
                  Done Anything (staged disk (write_empty_krl disk krl_path))
                  (place_all disk private_path public_path krl_path private_temp public_temp)
                  (staging (write_empty_krl disk krl_path) (AreStaged private_temp public_temp)
                    (λ t files. (is_temporary t ≡ true) × AreStaged private_temp public_temp files)
                    (λ files are.
                      outcome_mono _
                        (λ t files'.
                          (is_temporary t ≡ true) × AreStaged private_temp public_temp files')
                        _
                        (λ t files' new. (
                          new.marked,
                          stage_krl-AreStaged private_temp public_temp files are t files' new,
                        ))
                        (write_empty_krl-adds disk is_temporary naming krl_path files)))
                  λ krl_temp p h. place_all-IsWritten private_temp public_temp krl_temp h.0 p h.1
      where
        Done : Unit {0} → Progress → Type 0
        Done _ p = IsWritten private_path public_path material p.files
