-- ===== src/Requests/Laws.antt =====
-- What a request of src/ski/request_processing.py reports, and how its session in src/ski/server.py ends.
use server_key_injection.Base.{
  ℕ, ◌≡◌, refl, Bool, true, false, Option, none, some, List, [], ◌∷◌, ◌++◌, Result, ok, err, all,
  contains, list_beq, ◌⊎◌, inl, inr,
}
use server_key_injection.Base.Int.{ℤ}
use server_key_injection.Base.Text.{Text, codes}
use server_key_injection.Journal.{Event}
use server_key_injection.State.Tables.{CaTables}
use server_key_injection.State.Records.{CertificateRecord}
use server_key_injection.Issuance.{
  IdentitySnapshot, CertificateRequest, OrdinaryIdentity, Factory, Supply, FailureEventOutcome,
  commit, record_failure,
}
use server_key_injection.Injection.Adapter.{Agent}
use server_key_injection.Injection.{Handled, handle}
use server_key_injection.Injection.Laws.{Evidence, IsIssued, handle-Evidence}
use server_key_injection.Server.Session.{
  Output, written, error_written, exited, run_request, after_handler,
}
use server_key_injection.Requests.{
  completed_fields, failed_fields, result_text, Served, fail_request, complete_request,
  after_injection, handle_request,
}

module _ {W Pair Key Certificate : Type 0} (agent : Agent W Pair Key Certificate)
    (sign : CertificateRequest Key → Certificate) (fingerprint_of : Key → Text) (factory : Factory)
    (identity : IdentitySnapshot) (request_id : Text) where
  abbrev pub completed_event : CertificateRecord → Event
  completed_event record_ = record {
    name = codes "certificate_request_completed";
    message = codes "certificate request completed";
    priority = 6;
    fields = completed_fields request_id identity record_;
  }

  abbrev pub failed_event : Text → Event
  failed_event error_code = record {
    name = codes "certificate_request_failed";
    message = codes "certificate request failed";
    priority = 4;
    fields = failed_fields request_id identity error_code;
  }

  fail_request-emits :
      (error_code : Text) (s : W × CaTables) (events : List Event)
      → fail_request agent sign fingerprint_of factory identity request_id error_code s events
        ≡ (err error_code, (s, events ++ failed_event error_code ∷ []))
  unfolding fail_request all contains list_beq
  fail_request-emits error_code s events = refl

  complete_request-emits :
      (record_ : CertificateRecord) (s : W × CaTables) (events : List Event)
      → complete_request agent sign fingerprint_of factory identity request_id record_ s events
        ≡ (ok (result_text identity record_), (s, events ++ completed_event record_ ∷ []))
  unfolding complete_request all contains list_beq
  complete_request-emits record_ s events = refl

  -- A certificate of an issued credential was committed to the database, and its event emitted last.
  pub record IsCompleted (supply : ℕ → Supply Key) (t t' : CaTables) (events events' : List Event)
      : Type 0 where
    pub credential : OrdinaryIdentity Key Certificate
    pub record_ : CertificateRecord
    pub issued : IsIssued agent sign fingerprint_of factory identity request_id 5 supply credential
    pub committed :
        commit fingerprint_of factory.active_ca credential request_id t ≡ (ok record_, t')
    pub reported : events' ≡ events ++ completed_event record_ ∷ []

  -- The database has at most the record of the failure, and the event of the failure was emitted last.
  pub data IsFailed (now : ℤ) (t t' : CaTables) (events events' : List Event) : Text → Type 0 where
    refused :
        t' ≡ t
        → events' ≡ events ++ failed_event (codes "RuntimeError") ∷ []
        → IsFailed now t t' events events' (codes "RuntimeError")
    unsuccessful :
        (audit : FailureEventOutcome)
        → record_failure now factory.active_ca identity request_id t ≡ (audit, t')
        → events' ≡ events ++ failed_event (codes "IssuanceWorkflowError") ∷ []
        → IsFailed now t t' events events' (codes "IssuanceWorkflowError")

  abbrev pub IsReported :
      (ℕ → Supply Key)
      → ℤ
      → CaTables
      → List Event
      → Served agent sign fingerprint_of factory identity request_id
      → Type 0
  IsReported supply now t events (ok text, ((_, t'), events')) =
      (done : IsCompleted supply t t' events events') × (text ≡ result_text identity done.record_)
  IsReported supply now t events (err code, ((_, t'), events')) =
      IsFailed now t t' events events' code

  after_injection-IsReported :
      (supply : ℕ → Supply Key) (now : ℤ) (t : CaTables) (events : List Event)
      (p : Handled agent sign fingerprint_of factory identity request_id)
      → Evidence agent sign fingerprint_of factory identity request_id supply now t p
      → IsReported supply now t events
          (after_injection agent sign fingerprint_of factory identity request_id p events)
  unfolding after_injection
  after_injection-IsReported supply now t events (ok result, (w, t')) (issued, committed) =
      rw (complete_request-emits result.record_ (w, t') events) (
        record {
          credential = result.credential;
          record_ = result.record_;
          issued = issued;
          committed = committed;
          reported = refl;
        },
        refl,
      )
  after_injection-IsReported supply now t events (err outcome, (w, t')) recorded =
      rw (fail_request-emits (codes "IssuanceWorkflowError") (w, t') events)
        (unsuccessful outcome.audit recorded refl)

  -- Whatever the agent does, a request emits exactly one event, which no field prevents. A request that
  -- succeeds has committed the certificate of the serial that the event and the result name. A request that
  -- fails reports its error; it has changed nothing where the scope refused it, and otherwise only what
  -- recording the failure changes.
  pub handle_request-IsReported :
      (admitted : Bool) (supply : ℕ → Supply Key) (clock : ℕ → ℤ) (now : ℤ) (w : W) (t : CaTables)
      (events : List Event)
      → IsReported supply now t events (
          handle_request agent sign fingerprint_of factory identity request_id admitted supply clock
            now w t events)
  unfolding handle_request
  handle_request-IsReported false supply clock now w t events =
      rw (fail_request-emits (codes "RuntimeError") (w, t) events) (refused refl refl)
  handle_request-IsReported true supply clock now w t events =
      after_injection-IsReported supply now t events
        (handle agent sign fingerprint_of factory identity request_id supply clock now w t)
        (handle-Evidence agent sign fingerprint_of factory identity request_id supply clock now w t)

  -- The handler of the sessions: the processor on the agent, the database and the events.
  abbrev pub serve :
      Bool
      → (ℕ → Supply Key)
      → (ℕ → ℤ)
      → ℤ
      → (W × CaTables) × List Event
      → Result Text (Option Text) × ((W × CaTables) × List Event)
  serve admitted supply clock now ((w, t), events) =
      let (r, s) =
        handle_request agent sign fingerprint_of factory identity request_id admitted supply clock
          now w t events in
      (elim r [ ok text ↦ ok (some text) | err code ↦ err code ], s)

  -- How a session ends.
  pub data Ends : List Output → ℕ → Type 0 where
    at : (status : ℕ) → Ends (exited status ∷ []) status
    later_line :
        (line : Text) (rest : List Output) (status : ℕ)
        → Ends rest status
        → Ends (written line ∷ rest) status
    later_error :
        (line : Text) (rest : List Output) (status : ℕ)
        → Ends rest status
        → Ends (error_written line ∷ rest) status

  abbrev pub SessionEnds :
      (ℕ → Supply Key)
      → ℤ
      → CaTables
      → List Event
      → List Output × ((W × CaTables) × List Event)
      → Type 0
  SessionEnds supply now t events (output, ((_, t'), events')) =
      (Ends output 0 × IsCompleted supply t t' events events')
      ⊎ (Ends output 1
          × (((t' ≡ t) × (events' ≡ events))
              ⊎ ((code : Text) × IsFailed now t t' events events' code)))

  after_handler-SessionEnds :
      (supply : ℕ → Supply Key) (now : ℤ) (t : CaTables) (events : List Event)
      (p : Served agent sign fingerprint_of factory identity request_id)
      → IsReported supply now t events p
      → SessionEnds supply now t events (
          after_handler identity (elim p.0 [ ok text ↦ ok (some text) | err code ↦ err code ], p.1))
  unfolding after_handler
  after_handler-SessionEnds supply now t events (ok text, s) (done, _) =
      inl (later_line _ _ 0 (later_line _ _ 0 (at 0)), done)
  after_handler-SessionEnds supply now t events (err code, s) h =
      inr (later_error _ _ 1 (at 1), inr (code, h))

  -- A session exits once, at its end. Either it exits with 0, having committed the certificate of an issued
  -- credential to the database and emitted its event; or it exits with 1, having changed nothing, or having
  -- emitted the event of a failure and left at most the record of that failure in the database.
  pub run_request-SessionEnds :
      (admitted : Bool) (supply : ℕ → Supply Key) (clock : ℕ → ℤ) (now : ℤ) (path : Option Text)
      (w : W) (t : CaTables) (events : List Event)
      → SessionEnds supply now t events
          (run_request (some (λ _. serve admitted supply clock now)) identity path ((w, t), events))
  unfolding run_request
  run_request-SessionEnds admitted supply clock now none w t events =
      inr (later_error _ _ 1 (at 1), inl (refl, refl))
  run_request-SessionEnds admitted supply clock now (some path) w t events =
      after_handler-SessionEnds supply now t events
        (handle_request agent sign fingerprint_of factory identity request_id admitted supply clock
          now w t events)
        (handle_request-IsReported admitted supply clock now w t events)
