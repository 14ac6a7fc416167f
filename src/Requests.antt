-- ===== src/Requests.antt =====
-- src/ski/request_processing.py: one authenticated request, as the events that it emits and what the
-- injection of src/ski/injection.py does.
pub mod Laws
use server_key_injection.Base.{
  ℕ, Bool, true, false, List, [], ◌∷◌, ◌++◌, Result, ok, err, ◌>>=◌, if◌then◌else◌, ◌==◌, list_eq,
  nat_eq,
}
use server_key_injection.Base.Int.{ℤ}
use server_key_injection.Base.Text.{Text, codes, join, or_default}
use server_key_injection.Base.Decimal.{print_ℕ, print_ℤ}
use server_key_injection.Journal.{Event, make_event}
use server_key_injection.Base.Dict.{Fields, set_field}
use server_key_injection.State.Tables.{CaTables}
use server_key_injection.State.Records.{CertificateRecord}
use server_key_injection.Issuance.{IdentitySnapshot, CertificateRequest, Factory, Supply}
use server_key_injection.Injection.Adapter.{Agent}
use server_key_injection.Injection.{Handled, handle}

-- `",".join(identity.groups) or "(none)"`
abbrev pub groups_text : Text → IdentitySnapshot → Text
groups_text separator identity = or_default (join separator identity.groups) (codes "(none)")

-- The fields with which a request begins.
abbrev pub request_fields : Text → IdentitySnapshot → Fields Text
request_fields request_id identity =
    (codes "SKI_REQUEST_ID", request_id)
    ∷ (codes "SKI_IDENTITY", identity.username)
    ∷ (codes "SKI_DECISION", codes "allow")
    ∷ (codes "SKI_GROUPS", groups_text (codes ",") identity)
    ∷ []

abbrev pub completed_fields : Text → IdentitySnapshot → CertificateRecord → Fields Text
completed_fields request_id identity record_ =
    set_field (codes "SKI_CERTIFICATE_SERIAL") (print_ℕ record_.serial)
      (request_fields request_id identity)

abbrev pub failed_fields : Text → IdentitySnapshot → Text → Fields Text
failed_fields request_id identity error_code =
    set_field (codes "SKI_ERROR_CODE") error_code
      (set_field (codes "SKI_DECISION") (codes "deny") (request_fields request_id identity))

-- The line that a session shows.
abbrev pub result_text : IdentitySnapshot → CertificateRecord → Text
result_text identity record_ =
    identity.username
    ++ (codes " serial="
        ++ (print_ℕ record_.serial ++ (codes " valid-until=" ++ print_ℤ record_.valid_before)))

-- `_emit` to a sink that collects the events
unfoldable pub emit :
    (name message : Text) → Fields Text → ℕ → List Event → Result Text (List Event)
unfolding make_event
emit name message fields priority events =
    make_event name message priority fields >>= λ event. ok (events ++ event ∷ [])

module _ {W Pair Key Certificate : Type 0} (agent : Agent W Pair Key Certificate)
    (sign : CertificateRequest Key → Certificate) (fingerprint_of : Key → Text) (factory : Factory)
    (identity : IdentitySnapshot) (request_id : Text) where
  -- What the processor works on: the agent, the database, and the events emitted so far.
  abbrev pub Served : Type 0
  Served = Result Text Text × ((W × CaTables) × List Event)

  abbrev pub emitted : List Event → Result Text (List Event) → List Event
  emitted events (ok events') = events'
  emitted events (err _) = events

  -- `except Exception as exc`: the event of the failure, and the exception again
  unfoldable pub fail_request : Text → W × CaTables → List Event → Served
  unfolding emit set_field
  fail_request error_code s events =
      let emission =
        emit (codes "certificate_request_failed") (codes "certificate request failed")
          (failed_fields request_id identity error_code) 4 events in
      (emission >>= λ _. err error_code, (s, emitted events emission))

  unfoldable pub complete_request : CertificateRecord → W × CaTables → List Event → Served
  unfolding emit set_field
  complete_request record_ s events =
      let emission =
        emit (codes "certificate_request_completed") (codes "certificate request completed")
          (completed_fields request_id identity record_) 6 events in
      (emission >>= λ _. ok (result_text identity record_), (s, emitted events emission))

  unfoldable pub after_injection :
      Handled agent sign fingerprint_of factory identity request_id → List Event → Served
  unfolding fail_request complete_request
  after_injection (ok result, s) events = complete_request result.record_ s events
  after_injection (err outcome, s) events = fail_request (codes "IssuanceWorkflowError") s events

  -- `handle`, where the request's scope admits it or raises `RuntimeError`
  unfoldable pub handle_request :
      (admitted : Bool) (supply : ℕ → Supply Key) (clock : ℕ → ℤ) (now : ℤ)
      → W
      → CaTables
      → List Event
      → Served
  unfolding after_injection
  handle_request false supply clock now w t events =
      fail_request (codes "RuntimeError") (w, t) events
  handle_request true supply clock now w t events =
      after_injection
        (handle agent sign fingerprint_of factory identity request_id supply clock now w t) events
