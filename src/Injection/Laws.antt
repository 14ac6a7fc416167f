-- ===== src/Injection/Laws.antt =====
-- What `handle` of src/ski/injection.py leaves in the state, on every branch.
use mathlib.Core.Path.{subst}
use server_key_injection.Base.{
  ℕ, zero, suc, ◌<◌, ◌≡◌, refl, sym, ap, true, false, Option, none, some, List, [], Result, ok, err,
  if◌then◌else◌, arith,
}
use server_key_injection.Base.Int.{ℤ}
use server_key_injection.Base.Text.{Text, codes}
use server_key_injection.State.Tables.{CaTables}
use server_key_injection.State.Validation.{
  StateError, state_error, duplicate_certificate_serial, state_ownership, unsupported_schema,
}
use server_key_injection.State.Records.{CertificateRecord}
use server_key_injection.State.Atomic.{IsAtomic, record_certificate_with_event-IsAtomic}
use server_key_injection.Issuance.{
  IdentitySnapshot, OrdinaryIdentity, CertificateRequest, Factory, Supply, issue, commit,
  record_failure, fields_of,
}
use server_key_injection.Injection.Adapter.{
  Agent, AgentCleanupOutcome, complete, owned_keys, remove_owned, add_credential, remove_credential,
}
use server_key_injection.Injection.{
  Turn, LoopEnd, Handled, returned, repeated, raised, done, stopped, exhausted, after_commit,
  after_add, after_removal, after_issue, after_turn, turns_from, after_listing, after_connection,
  failed, finish, workflow_failure, handle, lifetime_of,
}

module _ {W Pair Key Certificate : Type 0} (agent : Agent W Pair Key Certificate)
    (sign : CertificateRequest Key → Certificate) (fingerprint_of : Key → Text) (factory : Factory)
    (identity : IdentitySnapshot) (request_id : Text) where
  -- The credential was issued from one of the first supplies.
  abbrev pub IsIssued : ℕ → (ℕ → Supply Key) → OrdinaryIdentity Key Certificate → Type 0
  IsIssued n supply credential =
      (i : ℕ) × (i < n) × (issue sign factory (supply i) identity ≡ ok credential)

  -- What one turn leaves in the database: the committed certificate, or nothing.
  abbrev TurnEvidence :
      Result StateError (OrdinaryIdentity Key Certificate)
      → CaTables
      → Turn Key Certificate × (W × CaTables)
      → Type 0
  TurnEvidence issued t (returned credential record_, (_, t')) =
      (issued ≡ ok credential)
      × (commit fingerprint_of factory.active_ca credential request_id t ≡ (ok record_, t'))
  TurnEvidence issued t (repeated _, (_, t')) = t' ≡ t
  TurnEvidence issued t (raised _ _, (_, t')) = t' ≡ t

  after_commit-evidence :
      (credential : OrdinaryIdentity Key Certificate) (w : W) (t : CaTables)
      (p : Result StateError CertificateRecord × CaTables)
      → commit fingerprint_of factory.active_ca credential request_id t ≡ p
      → IsAtomic t p
      → TurnEvidence
          (ok credential)
          t
          (after_commit agent sign fingerprint_of factory identity request_id credential w p)
  unfolding after_commit
  after_commit-evidence credential w t (ok record_, t') same h = (refl, same)
  after_commit-evidence credential w t (err (duplicate_certificate_serial _), t') same h =
      elim (complete (remove_credential agent credential w).0)
        as (λ b. TurnEvidence (ok credential) t (
          if b then repeated credential else raised (codes "StateError") (some credential),
          ((remove_credential agent credential w).1, t'),
        )) [ true ↦ h | false ↦ h ]
  after_commit-evidence credential w t (err (state_error _), t') same h = h
  after_commit-evidence credential w t (err (state_ownership _), t') same h = h
  after_commit-evidence credential w t (err (unsupported_schema _), t') same h = h

  after_add-evidence :
      (credential : OrdinaryIdentity Key Certificate) (t : CaTables)
      (p : Result Text (Unit {0}) × W)
      → TurnEvidence
          (ok credential)
          t
          (after_add agent sign fingerprint_of factory identity request_id credential t p)
  unfolding after_add commit
  after_add-evidence credential t (err name, w) = refl
  after_add-evidence credential t (ok _, w) =
      after_commit-evidence credential w t
        (commit fingerprint_of factory.active_ca credential request_id t) refl
        (record_certificate_with_event-IsAtomic
          (fields_of fingerprint_of factory.active_ca credential request_id) t)

  after_removal-evidence :
      (lifetime : ℤ) (credential : OrdinaryIdentity Key Certificate) (t : CaTables)
      (p : Result Text (Unit {0}) × W)
      → TurnEvidence (ok credential) t (
          after_removal agent sign fingerprint_of factory identity request_id lifetime credential t
            p)
  unfolding after_removal
  after_removal-evidence lifetime credential t (err name, w) = refl
  after_removal-evidence lifetime credential t (ok _, w) =
      after_add-evidence credential t (add_credential agent credential lifetime w)

  after_issue-evidence :
      (owned : List Pair) (now : ℤ) (issued : Result StateError (OrdinaryIdentity Key Certificate))
      (w : W) (t : CaTables)
      → TurnEvidence issued t
          (after_issue agent sign fingerprint_of factory identity request_id owned now issued w t)
  unfolding after_issue
  after_issue-evidence owned now (err e) w t = refl
  after_issue-evidence owned now (ok credential) w t =
      after_removal-evidence (lifetime_of credential.valid_before now) credential t
        (remove_owned agent owned w)

  -- What the loop leaves: the committed certificate of an issued credential, or nothing.
  abbrev LoopEvidence :
      ℕ → (ℕ → Supply Key) → CaTables → LoopEnd Key Certificate × (W × CaTables) → Type 0
  LoopEvidence n supply t (done credential record_, (_, t')) =
      IsIssued n supply credential
      × (commit fingerprint_of factory.active_ca credential request_id t ≡ (ok record_, t'))
  LoopEvidence n supply t (stopped _ _, (_, t')) = t' ≡ t
  LoopEvidence n supply t (exhausted, (_, t')) = t' ≡ t

  LoopEvidence-suc :
      (n : ℕ) (supply : ℕ → Supply Key) (t : CaTables)
      (p : LoopEnd Key Certificate × (W × CaTables))
      → LoopEvidence n supply t p
      → LoopEvidence (suc n) supply t p
  LoopEvidence-suc n supply t (done credential record_, (_, t')) ((i, below, issued), committed) =
      ((i, omega arith, issued), committed)
  LoopEvidence-suc n supply t (stopped _ _, (_, t')) h = h
  LoopEvidence-suc n supply t (exhausted, (_, t')) h = h

  after_turn-evidence :
      (n : ℕ) (supply : ℕ → Supply Key) (t : CaTables)
      (continue_ : OrdinaryIdentity Key Certificate
        → W
        → CaTables
        → LoopEnd Key Certificate × (W × CaTables))
      (last : Option (OrdinaryIdentity Key Certificate)) (p : Turn Key Certificate × (W × CaTables))
      → ((credential : OrdinaryIdentity Key Certificate) (w : W)
          → LoopEvidence n supply t (continue_ credential w t))
      → TurnEvidence (issue sign factory (supply n) identity) t p
      → LoopEvidence
          (suc n)
          supply
          t
          (after_turn agent sign fingerprint_of factory identity request_id continue_ last p)
  unfolding after_turn
  after_turn-evidence n supply t continue_ last (returned credential record_, s) rest
        (issued, committed) =
      ((n, omega arith, issued), committed)
  after_turn-evidence n supply t continue_ last (raised name credential, s) rest h = h
  after_turn-evidence n supply t continue_ last (repeated credential, (w, t')) rest h =
      LoopEvidence-suc n supply t _ (
        subst (λ u. LoopEvidence n supply t (continue_ credential w u)) (sym h) (rest credential w))

  turns_from-evidence :
      (n : ℕ) (supply : ℕ → Supply Key) (clock : ℕ → ℤ) (owned : List Pair)
      (last : Option (OrdinaryIdentity Key Certificate)) (w : W) (t : CaTables)
      → LoopEvidence n supply t (
          turns_from agent sign fingerprint_of factory identity request_id n supply clock owned last
            w t)
  unfolding turns_from
  turns_from-evidence zero supply clock owned last w t = refl
  turns_from-evidence (suc n) supply clock owned last w t =
      after_turn-evidence n supply t _ last _
        (λ credential w'. turns_from-evidence n supply clock [] (some credential) w' t)
        (after_issue-evidence owned (clock n) (issue sign factory (supply n) identity) w t)

  -- What `handle` leaves.
  abbrev pub Evidence :
      (ℕ → Supply Key)
      → ℤ
      → CaTables
      → Handled agent sign fingerprint_of factory identity request_id
      → Type 0
  Evidence supply now t (ok result, (_, t')) =
      IsIssued 5 supply result.credential
      × (commit fingerprint_of factory.active_ca result.credential request_id t
          ≡ (ok result.record_, t'))
  Evidence supply now t (err outcome, (_, t')) =
      record_failure now factory.active_ca identity request_id t ≡ (outcome.audit, t')

  failed-Evidence :
      (supply : ℕ → Supply Key) (now : ℤ) (cause : Text) (cleanup : Option AgentCleanupOutcome)
      (w : W) (t : CaTables)
      → Evidence supply now t
          (failed agent sign fingerprint_of factory identity request_id now cause cleanup w t)
  unfolding workflow_failure
  failed-Evidence supply now cause cleanup w t = refl

  finish-Evidence :
      (supply : ℕ → Supply Key) (now : ℤ) (t : CaTables) (end : LoopEnd Key Certificate) (w : W)
      (t' : CaTables)
      → LoopEvidence 5 supply t (end, (w, t'))
      → Evidence supply now t
          (finish agent sign fingerprint_of factory identity request_id now end w t')
  unfolding finish workflow_failure
  finish-Evidence supply now t (done credential record_) w t' h = h
  finish-Evidence supply now t (stopped name credential) w t' h =
      ap (record_failure now factory.active_ca identity request_id) (sym h)
  finish-Evidence supply now t exhausted w t' h =
      ap (record_failure now factory.active_ca identity request_id) (sym h)

  after_listing-Evidence :
      (supply : ℕ → Supply Key) (clock : ℕ → ℤ) (now : ℤ) (t : CaTables)
      (p : Result Text (List Pair) × W)
      → Evidence supply now t
          (after_listing agent sign fingerprint_of factory identity request_id supply clock now t p)
  unfolding after_listing
  after_listing-Evidence supply clock now t (err name, w) = failed-Evidence supply now name none w t
  after_listing-Evidence supply clock now t (ok owned, w) =
      finish-Evidence supply now t _ _ _ (turns_from-evidence 5 supply clock owned none w t)

  after_connection-Evidence :
      (supply : ℕ → Supply Key) (clock : ℕ → ℤ) (now : ℤ) (t : CaTables)
      (p : Result Text (Unit {0}) × W)
      → Evidence supply now t (
          after_connection agent sign fingerprint_of factory identity request_id supply clock now t
            p)
  unfolding after_connection
  after_connection-Evidence supply clock now t (err name, w) =
      failed-Evidence supply now name none w t
  after_connection-Evidence supply clock now t (ok _, w) =
      after_listing-Evidence supply clock now t (owned_keys agent factory.active_ca identity w)

  -- Whatever the agent does, a request that succeeds has committed exactly the certificate of the
  -- credential that it returns, issued from one of the five supplies, to the database it began with;
  -- a request that fails has left in that database only what recording the failure leaves, and
  -- reports the outcome of that.
  pub handle-Evidence :
      (supply : ℕ → Supply Key) (clock : ℕ → ℤ) (now : ℤ) (w : W) (t : CaTables)
      → Evidence supply now t
          (handle agent sign fingerprint_of factory identity request_id supply clock now w t)
  unfolding handle
  handle-Evidence supply clock now w t =
      after_connection-Evidence supply clock now t (agent.connect w)
