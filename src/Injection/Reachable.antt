-- ===== src/Injection/Reachable.antt =====
-- The state that requests to `handle` of src/ski/injection.py leave, against `verify_ca_state` of
-- src/ski/state.py.
use mathlib.Core.Path.{subst}
use server_key_injection.Base.{ℕ, ◌≡◌, ap, ◌∙◌, refl, Option, some, ok, err}
use server_key_injection.Base.Int.{ℤ, pos}
use server_key_injection.Base.Text.{Text, codes}
use server_key_injection.Policy.Values.{int_value}
use server_key_injection.State.Tables.{CaTables}
use server_key_injection.State.Validation.{timestamp}
use server_key_injection.State.Records.{PublicKey}
use server_key_injection.State.Verify.{verify_ca_state}
use server_key_injection.State.Founding.{IsExporting}
use server_key_injection.State.Reachable.{IsReachable, recorded, noted, reachable_verifies}
use server_key_injection.Issuance.{
  IdentitySnapshot, OrdinaryIdentity, CertificateRequest, Factory, Supply, issue, commit,
  record_failure, fields_of, failure_event,
}
use server_key_injection.Issuance.Laws.{issue-IsCredential}
use server_key_injection.Injection.Adapter.{Agent}
use server_key_injection.Injection.{Handled, handle}
use server_key_injection.Injection.Laws.{Evidence, handle-Evidence}

module _ (import_public_key : Text → Option PublicKey) {W Pair Key Certificate : Type 0}
    (agent : Agent W Pair Key Certificate) (sign : CertificateRequest Key → Certificate)
    (fingerprint_of : Key → Text) (factory : Factory) (identity : IdentitySnapshot)
    (request_id : Text) where
  -- The clock of every supply is past 1970.
  abbrev pub AreTimed : (ℕ → Supply Key) → Type 0
  AreTimed supply = (i : ℕ) → (m : ℕ) × ((supply i).time ≡ pos m)

  commit-IsReachable :
      (supply : Supply Key) (m : ℕ) (credential : OrdinaryIdentity Key Certificate) (t : CaTables)
      → supply.time ≡ pos m
      → issue sign factory supply identity ≡ ok credential
      → IsReachable import_public_key t
      → IsReachable import_public_key
          (commit fingerprint_of factory.active_ca credential request_id t).1
  unfolding commit
  commit-IsReachable supply m credential t timed issued reached =
      recorded (fields_of fingerprint_of factory.active_ca credential request_id) m t
        (ap int_value
          ((issue-IsCredential sign factory supply identity credential issued).valid_after ∙ timed))
        reached

  failure-IsReachable :
      (n : ℕ) (t : CaTables)
      → IsReachable import_public_key t
      → IsReachable import_public_key
          (record_failure (pos n) factory.active_ca identity request_id t).1
  unfolding record_failure timestamp
  failure-IsReachable n t reached =
      noted (pos n) (failure_event factory.active_ca identity request_id) n t refl refl reached

  Evidence-IsReachable :
      (supply : ℕ → Supply Key) (n : ℕ) (t : CaTables)
      (p : Handled agent sign fingerprint_of factory identity request_id)
      → AreTimed supply
      → IsReachable import_public_key t
      → Evidence agent sign fingerprint_of factory identity request_id supply (pos n) t p
      → IsReachable import_public_key p.1.1
  Evidence-IsReachable supply n t (ok result, (_, t')) timed reached ((i, _, issued), committed) =
      subst (IsReachable import_public_key) (ap (λ q. q.1) committed)
        (commit-IsReachable (supply i) (timed i).0 result.credential t (timed i).1 issued reached)
  Evidence-IsReachable supply n t (err outcome, (_, t')) timed reached noted_ =
      subst (IsReachable import_public_key) (ap (λ q. q.1) noted_) (failure-IsReachable n t reached)

  -- Whatever the agent does, and whether the request succeeds, a request from a state that the calls of
  -- the CA state reach leaves a state that they reach, where `verify_ca_state` finds no fault when
  -- SQLite finds none. This assumes that the clocks are past 1970, and that asyncssh reads a key again
  -- from its own export, which is not empty.
  pub handle-IsReachable :
      (supply : ℕ → Supply Key) (clock : ℕ → ℤ) (n : ℕ) (w : W) (t : CaTables)
      → IsExporting import_public_key
      → AreTimed supply
      → IsReachable import_public_key t
      → let (_, (_, t')) =
          handle agent sign fingerprint_of factory identity request_id supply clock (pos n) w t in
        IsReachable import_public_key t'
        × (verify_ca_state import_public_key (some (codes "ok")) t' ≡ ok tt)
  handle-IsReachable supply clock n w t exporting timed reached =
      let after =
        Evidence-IsReachable supply n t
          (handle agent sign fingerprint_of factory identity request_id supply clock (pos n) w t)
          timed reached
          (handle-Evidence agent sign fingerprint_of factory identity request_id supply clock
            (pos n) w t) in
      (after, reachable_verifies import_public_key exporting _ after)
