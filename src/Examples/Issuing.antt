-- ===== src/Examples/Issuing.antt =====
-- src/ski/credentials.py and src/ski/injection.py on concrete values: a request of alice through an
-- agent that is a list of entries.
use server_key_injection.Base.{
  ℕ, ◌<◌, ◌≡◌, ◌↔◌, refl, true, false, Bool, Option, none, some, List, [], ◌∷◌, ◌++◌, Result, ok,
  err, arith, if◌then◌else◌, map, filter, not, ◌==◌, nat_eq, list_eq,
}
use server_key_injection.Base.Int.{ℤ, pos}
use server_key_injection.Base.Text.{Text, codes}
use server_key_injection.Policy.Values.{int_value, str_value}
use server_key_injection.State.Tables.{integrity}
use server_key_injection.State.{already_recorded, certificate_record}
use server_key_injection.State.Ledger.{
  tables_of, is_issuable, issue as issue_on, next_certificate_id,
}
use server_key_injection.Issuance.{
  IdentitySnapshot, OrdinaryIdentity, CertificateRequest, Factory, Supply, issue, commit, marker,
}
use server_key_injection.Issuance.Laws.{IsCredential, issue-IsCredential, issue-commit, values_of}
use server_key_injection.Injection.Adapter.{Agent, PairView, is_owned}
use server_key_injection.Injection.{handle}
use server_key_injection.Injection.Laws.{handle-Evidence, Evidence}
use server_key_injection.Injection.Marks.{IsOwned}
use server_key_injection.Injection.Ownership.{is_owned_iff, issue-is_owned}
use server_key_injection.Examples.Data.{alice, dev, alice_principals, ca_fingerprint}
use server_key_injection.Injection.Reachable.{handle-IsReachable}
use server_key_injection.State.Tables.{CaTables}
use server_key_injection.State.Verify.{verify_ca_state}
use server_key_injection.State.Reachable.{IsReachable, empty_ledger}
use server_key_injection.Examples.State.{
  ca, ledger, import_public_key, import_public_key-IsExporting, initialize_ca,
  initialized-IsReachable,
}

-- A key is the comment it was generated for, and a certificate is what was asked for.
abbrev pub Key : Type 0
Key = Text

abbrev pub Certificate : Type 0
Certificate = CertificateRequest Text

abbrev pub sign : CertificateRequest Key → Certificate
sign request = request

abbrev pub fingerprint_of : Key → Text
fingerprint_of _ = codes "SHA256:key"

abbrev pub factory : Factory
factory = record { active_ca = ca; extensions = codes "pty" ∷ [] }

abbrev pub identity : IdentitySnapshot
identity = record { username = alice; groups = dev ∷ [] }

abbrev pub supply : Supply Key
supply = record { serial = pos 7; time = pos 1000; new_key = λ comment. comment }

-- The credential of the supply.
abbrev request : CertificateRequest Key
request = record {
  user_key = marker alice ca_fingerprint 7;
  key_id = alice;
  serial = 7;
  principals = alice_principals;
  valid_after = pos 1000;
  valid_before = pos 91000;
  permit_x11_forwarding = false;
  permit_agent_forwarding = false;
  permit_port_forwarding = false;
  permit_pty = true;
  permit_user_rc = false;
  touch_required = true;
  comment = marker alice ca_fingerprint 7;
}

abbrev credential : OrdinaryIdentity Key Certificate
credential = record {
  private_key = marker alice ca_fingerprint 7;
  certificate = request;
  key_id = alice;
  principals = alice_principals;
  serial = 7;
  valid_after = pos 1000;
  valid_before = pos 91000;
  comment = marker alice ca_fingerprint 7;
}

issued : issue sign factory supply identity ≡ ok credential
unfolding issue server_key_injection.Policy.build_principals
    server_key_injection.Policy.username_pattern server_key_injection.Base.all
    server_key_injection.Policy.group_pattern server_key_injection.Base.distinct
    server_key_injection.Base.list_beq server_key_injection.Policy.validate_group_principals
    server_key_injection.Base.Text.remove_prefix server_key_injection.Base.Int.◌+ℤ◌
issued = refl

issue-IsCredential_example : IsCredential sign factory supply identity credential
issue-IsCredential_example = issue-IsCredential sign factory supply identity credential issued

issue-commit_example : commit fingerprint_of ca credential (codes "r1") (tables_of ledger) ≡ (
    if is_issuable ledger
      (values_of sign fingerprint_of factory supply identity (codes "r1") credential)
    then (
      ok (
          certificate_record
            (next_certificate_id ledger)
            alice_principals
            (values_of sign fingerprint_of factory supply identity (codes "r1") credential)),
      tables_of (
          issue_on ledger alice_principals
            (values_of sign fingerprint_of factory supply identity (codes "r1") credential)),
    )
    else (err (already_recorded integrity), tables_of ledger))
unfolding server_key_injection.Base.list_beq server_key_injection.Base.contains
issue-commit_example =
    issue-commit sign fingerprint_of factory supply identity (codes "r1") credential ledger issued
      (omega arith) refl refl

-- An agent whose state is its entries, each a key and a certificate.
abbrev pub Entry : Type 0
Entry = Key × Certificate

abbrev pub Entries : Type 0
Entries = List Entry

abbrev view_of : Entry → Option PairView
view_of (key, certificate) = some (record {
  certificate = some (record {
    serial = int_value (pos certificate.serial);
    key_id = str_value certificate.key_id;
    signing_key = some ca_fingerprint;
    principals = map str_value certificate.principals;
  });
  comment = some certificate.comment;
})

abbrev pub agent : Agent Entries Entry Key Certificate
agent = record {
  connect = λ w. (ok tt, w);
  get_keys = λ w. (ok w, w);
  get_keys_of = λ blob w. (ok (filter (λ e. e.0 == blob) w), w);
  remove_keys = λ removed w. (ok tt, []);
  add_keys = λ key certificate lifetime w. (ok tt, w ++ (key, certificate) ∷ []);
  view = view_of;
  public_data = λ key. key;
  certificate_data = λ certificate. certificate.comment;
}

handle-Evidence_example :
    Evidence agent sign fingerprint_of factory identity
      (codes "r1")
      (λ _. supply)
      (pos 1000)
      (tables_of ledger)
      (handle agent sign fingerprint_of factory identity
        (codes "r1")
        (λ _. supply)
        (λ _. pos 1001)
        (pos 1000)
        []
        (tables_of ledger))
handle-Evidence_example =
    handle-Evidence agent sign fingerprint_of factory identity (codes "r1") (λ _. supply)
      (λ _. pos 1001) (pos 1000) [] (tables_of ledger)

-- A request to a database in which the CA was just initialized.
abbrev first : CaTables
first = (initialize_ca (tables_of empty_ledger)).1

abbrev served : CaTables
served =
    (handle agent sign fingerprint_of factory identity (codes "r1") (λ _. supply) (λ _. pos 1001)
      (pos 1000) [] first).1.1

handle-IsReachable_example :
    IsReachable import_public_key served
    × (verify_ca_state import_public_key (some (codes "ok")) served ≡ ok tt)
handle-IsReachable_example =
    handle-IsReachable import_public_key agent sign fingerprint_of factory identity (codes "r1")
      (λ _. supply) (λ _. pos 1001) 1000 [] first import_public_key-IsExporting (λ _. (1000, refl))
      initialized-IsReachable

issue-is_owned_example : is_owned agent ca identity (credential.private_key, request) ≡ true
issue-is_owned_example =
    issue-is_owned agent sign factory supply identity credential (credential.private_key, request)
      issued refl

-- The entry of the credential carries its principals and its serial in the mark.
is_owned_iff_example : (is_owned agent ca identity (credential.private_key, request) ≡ true) ↔ (
    (view : PairView) × (agent.view (credential.private_key, request) ≡ some view)
    × IsOwned ca identity view)
is_owned_iff_example = is_owned_iff agent ca identity (credential.private_key, request)
