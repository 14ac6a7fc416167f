-- ===== src/Injection.antt =====
-- src/ski/injection.py: an ordinary credential put into a forwarded agent, and recorded.
pub mod Adapter
pub mod Laws
pub mod Marks
pub mod Ownership
pub mod Reachable
use server_key_injection.Base.{
  ℕ, zero, suc, ◌+◌, Bool, true, false, not, ◌&&◌, Option, none, some, List, [], ◌∷◌, ◌++◌, Result,
  ok, err, if◌then◌else◌,
}
use server_key_injection.Base.Int.{ℤ, pos, ◌-ℤ◌, leb_ℤ}
use server_key_injection.Base.Text.{Text, codes}
use server_key_injection.State.Tables.{CaTables}
use server_key_injection.State.Validation.{StateError, state_error, duplicate_certificate_serial}
use server_key_injection.State.Records.{CaKeyRecord, CertificateRecord}
use server_key_injection.Issuance.{
  IdentitySnapshot, OrdinaryIdentity, CertificateRequest, Factory, Supply, issue, commit,
  class_name, FailureEventOutcome, record_failure,
}
use Adapter.{
  Agent, AgentCleanupOutcome, complete, owned_keys, remove_owned, add_credential, remove_credential,
}

-- `OrdinaryInjectionResult`
pub record OrdinaryInjectionResult (Key Certificate : Type 0) : Type 0 where
  pub credential : OrdinaryIdentity Key Certificate
  pub record_ : CertificateRecord
  pub groups : List Text

-- `IssuanceFailureOutcome`, which `IssuanceWorkflowError` carries.
pub record IssuanceFailureOutcome : Type 0 where
  pub cause_code : Text
  pub cleanup : Option AgentCleanupOutcome
  pub audit : FailureEventOutcome

-- `max(1, valid_before - int(clock()))`
unfoldable pub lifetime_of : ℤ → ℤ → ℤ
lifetime_of valid_before now =
    let left = valid_before -ℤ now in if leb_ℤ (pos 1) left then left else pos 1

-- What one turn of the loop of `handle` ends in: `raised` with the name of the exception's class and
-- whether this turn has set `credential`.
pub data Turn (Key Certificate : Type 0) : Type 0 where
  returned : OrdinaryIdentity Key Certificate → CertificateRecord → Turn Key Certificate
  repeated : OrdinaryIdentity Key Certificate → Turn Key Certificate
  raised : Text → Option (OrdinaryIdentity Key Certificate) → Turn Key Certificate

-- What the loop ends in, with the last value of `credential`.
pub data LoopEnd (Key Certificate : Type 0) : Type 0 where
  done : OrdinaryIdentity Key Certificate → CertificateRecord → LoopEnd Key Certificate
  stopped : Text → Option (OrdinaryIdentity Key Certificate) → LoopEnd Key Certificate
  exhausted : LoopEnd Key Certificate

module _ {W Pair Key Certificate : Type 0} (agent : Agent W Pair Key Certificate)
    (sign : CertificateRequest Key → Certificate) (fingerprint_of : Key → Text) (factory : Factory)
    (identity : IdentitySnapshot) (request_id : Text) where
  abbrev pub Running : Type 0 → Type 0
  Running A = A × (W × CaTables)

  -- The `try` around the commit: a serial that is taken is cleaned up, and the loop goes on.
  unfoldable pub after_commit :
      OrdinaryIdentity Key Certificate
      → W
      → Result StateError CertificateRecord × CaTables
      → Running (Turn Key Certificate)
  after_commit credential w (ok record_, t) = (returned credential record_, (w, t))
  after_commit credential w (err (duplicate_certificate_serial _), t) =
      let (cleanup, w') = remove_credential agent credential w in
      (
        if complete cleanup
            then repeated credential
            else raised (codes "StateError") (some credential),
        (w', t),
      )
  after_commit credential w (err e, t) = (raised (class_name e) (some credential), (w, t))

  -- After `add_credential`: commit.
  unfoldable pub after_add :
      OrdinaryIdentity Key Certificate
      → CaTables
      → Result Text (Unit {0}) × W
      → Running (Turn Key Certificate)
  unfolding after_commit
  after_add credential t (err name, w) = (raised name (some credential), (w, t))
  after_add credential t (ok _, w) =
      after_commit credential w (commit fingerprint_of factory.active_ca credential request_id t)

  -- After the removal of the owned keys: add the credential.
  unfoldable pub after_removal :
      ℤ
      → OrdinaryIdentity Key Certificate
      → CaTables
      → Result Text (Unit {0}) × W
      → Running (Turn Key Certificate)
  unfolding after_add
  after_removal lifetime credential t (err name, w) = (raised name (some credential), (w, t))
  after_removal lifetime credential t (ok _, w) =
      after_add credential t (add_credential agent credential lifetime w)

  -- After `prepare`: remove `owned`, the keys that are still to be removed.
  unfoldable pub after_issue :
      List Pair
      → ℤ
      → Result StateError (OrdinaryIdentity Key Certificate)
      → W
      → CaTables
      → Running (Turn Key Certificate)
  unfolding after_removal lifetime_of
  after_issue owned now (err e) w t = (raised (class_name e) none, (w, t))
  after_issue owned now (ok credential) w t =
      after_removal (lifetime_of credential.valid_before now) credential t
        (remove_owned agent owned w)

  abbrev pub or_else : {A : Type 0} → Option A → Option A → Option A
  or_else none b = b
  or_else (some a) b = some a

  unfoldable pub after_turn :
      (OrdinaryIdentity Key Certificate → W → CaTables → Running (LoopEnd Key Certificate))
      → Option (OrdinaryIdentity Key Certificate)
      → Running (Turn Key Certificate)
      → Running (LoopEnd Key Certificate)
  after_turn continue_ last (returned credential record_, s) = (done credential record_, s)
  after_turn continue_ last (raised name credential, s) =
      (stopped name (or_else credential last), s)
  after_turn continue_ last (repeated credential, (w, t)) = continue_ credential w t

  -- `for _ in range(turns)`, with the supply and the clock under the number of turns after it
  unfoldable pub turns_from :
      (turns : ℕ) (supply : ℕ → Supply Key) (clock : ℕ → ℤ) (owned : List Pair)
      → Option (OrdinaryIdentity Key Certificate)
      → W
      → CaTables
      → Running (LoopEnd Key Certificate)
  unfolding after_issue after_turn
  turns_from zero supply clock owned last w t = (exhausted, (w, t))
  turns_from (suc turns) supply clock owned last w t =
      after_turn (λ credential w t. turns_from turns supply clock [] (some credential) w t) last
        (after_issue owned (clock turns) (issue sign factory (supply turns) identity) w t)

  -- `_raise_workflow_failure`, at the time `now`
  unfoldable pub workflow_failure :
      ℤ → Text → Option AgentCleanupOutcome → CaTables → IssuanceFailureOutcome × CaTables
  workflow_failure now cause cleanup t =
      let (audit, t') = record_failure now factory.active_ca identity request_id t in
      (record { cause_code = cause; cleanup = cleanup; audit = audit }, t')

  abbrev pub cleanup_of :
      Option (OrdinaryIdentity Key Certificate) → W → Option AgentCleanupOutcome × W
  cleanup_of none w = (none, w)
  cleanup_of (some credential) w =
      let (cleanup, w') = remove_credential agent credential w in (some cleanup, w')

  abbrev pub Handled : Type 0
  Handled = Result IssuanceFailureOutcome (OrdinaryInjectionResult Key Certificate) × (W × CaTables)

  abbrev pub failed : ℤ → Text → Option AgentCleanupOutcome → W → CaTables → Handled
  failed now cause cleanup w t =
      let (outcome, t') = workflow_failure now cause cleanup t in (err outcome, (w, t'))

  -- The body of `async with`, on what the loop ends in.
  unfoldable pub finish : ℤ → LoopEnd Key Certificate → W → CaTables → Handled
  unfolding workflow_failure
  finish now (done credential record_) w t =
      (ok (record { credential = credential; record_ = record_; groups = identity.groups }), (w, t))
  finish now (stopped name credential) w t =
      let (cleanup, w') = cleanup_of credential w in failed now name cleanup w' t
  finish now exhausted w t = failed now (codes "StateError") none w t

  -- After `owned_keys`: five turns.
  unfoldable pub after_listing :
      (supply : ℕ → Supply Key) (clock : ℕ → ℤ) (now : ℤ)
      → CaTables
      → Result Text (List Pair) × W
      → Handled
  unfolding turns_from finish
  after_listing supply clock now t (err name, w) = failed now name none w t
  after_listing supply clock now t (ok owned, w) =
      let (end, s) = turns_from 5 supply clock owned none w t in finish now end s.0 s.1

  unfoldable pub after_connection :
      (supply : ℕ → Supply Key) (clock : ℕ → ℤ) (now : ℤ)
      → CaTables
      → Result Text (Unit {0}) × W
      → Handled
  unfolding after_listing
  after_connection supply clock now t (err name, w) = failed now name none w t
  after_connection supply clock now t (ok _, w) =
      after_listing supply clock now t (owned_keys agent factory.active_ca identity w)

  -- `handle`, for an agent connection whose closing raises nothing
  unfoldable pub handle :
      (supply : ℕ → Supply Key) (clock : ℕ → ℤ) (now : ℤ) → W → CaTables → Handled
  unfolding after_connection
  handle supply clock now w t = after_connection supply clock now t (agent.connect w)
