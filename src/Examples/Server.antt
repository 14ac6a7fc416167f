-- ===== src/Examples/Server.antt =====
-- src/ski/server.py and src/ski/request_processing.py on concrete values: alice logs in and is served.
use server_key_injection.Base.{
  ℕ, ◌≤◌, ◌≡◌, refl, true, false, Bool, Option, none, some, List, [], ◌∷◌, Result, ok, err, All,
  if◌then◌else◌, ◌==◌, nat_eq, list_eq,
}
use server_key_injection.Base.Int.{ℤ, pos}
use server_key_injection.Base.Text.{Text, codes}
use server_key_injection.Journal.{
  Event, make_event, journal_entry, KeepsKeys, journal_entry-KeepsKeys,
}
use server_key_injection.State.Ledger.{tables_of}
use server_key_injection.Server.{
  Connection, new, begin_auth, get_kbdint_challenge, validate_kbdint_response, session_requested,
  Reply, session, flag, challenge, call, validate_response, get_challenge, request_session,
}
use server_key_injection.Server.History.{Exchange, exchange, IsReached, opened, called}
use server_key_injection.Server.Sqlite.{
  Store, sqlite_store, AreAuthenticated, sessions-AreAuthenticated,
}
use server_key_injection.Server.Prompts.{challenges, challenges-le_one}
use server_key_injection.Server.Session.{run_request}
use server_key_injection.Server.Listener.{Listening, start, close}
use server_key_injection.Server.Sockets.{created, started, stopped, IsTracked, reached-IsTracked}
use server_key_injection.Requests.Laws.{SessionEnds, serve, run_request-SessionEnds}
use server_key_injection.Examples.Data.{alice}
use server_key_injection.Examples.State.{ledger}
use server_key_injection.Examples.Identities.{is_secret, hasher, stored}
use server_key_injection.Examples.Issuing.{agent, sign, fingerprint_of, factory, identity, supply}

abbrev verifies : ℤ → Text → Text → Bool
verifies now secret code = code == codes "123456"

abbrev store : Store
store = (none, stored)

-- The connection when alice was authenticated.
abbrev authenticated : Connection
authenticated = record new {
  username = some alice;
  exchange_attempted = true;
  authenticated_identity = some identity;
}

abbrev began : Connection
began = record new { username = some alice }

abbrev shown : Connection
shown = record began { exchange_attempted = true }

-- The exchanges, the latest first: the name, the prompts, the answer, and the session.
abbrev history : List (Exchange Store)
history =
    exchange session_requested store (session identity)
    ∷ exchange (validate_kbdint_response alice (codes "pw" ∷ codes "123456" ∷ []) (pos 1000)) store
        (flag true)
    ∷ exchange (get_kbdint_challenge alice) store challenge
    ∷ exchange (begin_auth alice) store (flag true)
    ∷ []

abbrev drop_one : List (Exchange Store) → List (Exchange Store)
drop_one [] = []
drop_one (_ ∷ earlier) = earlier

begun :
    IsReached
      (some (sqlite_store is_secret hasher verifies))
      (drop_one (drop_one (drop_one history)))
      began
      store
unfolding call
begun = called (begin_auth alice) [] new store (opened store)

asked :
    IsReached
      (some (sqlite_store is_secret hasher verifies))
      (drop_one (drop_one history))
      shown
      store
unfolding call get_challenge server_key_injection.Base.list_beq server_key_injection.Base.option_beq
asked =
    called (get_kbdint_challenge alice) (drop_one (drop_one (drop_one history))) began store begun

answered :
    IsReached (some (sqlite_store is_secret hasher verifies)) (drop_one history) authenticated store
unfolding call validate_response server_key_injection.Server.check_responses
    server_key_injection.Server.verify_factors server_key_injection.Server.after_factors
    server_key_injection.Server.snapshot_if server_key_injection.Base.list_beq
    server_key_injection.Base.option_beq server_key_injection.Identities.lookup_identity
    server_key_injection.Identities.Store.verify_password
    server_key_injection.Identities.Store.verify_totp
    server_key_injection.Identities.Store.get_group_snapshot
    server_key_injection.Identities.Store.get_user server_key_injection.Policy.validate_username
    server_key_injection.Policy.username_pattern server_key_injection.Base.all
    server_key_injection.Identities.Repository.find_user
    server_key_injection.Identities.Repository.user_group_rows server_key_injection.Base.sorted
    server_key_injection.Policy.validate_group_name server_key_injection.Policy.group_pattern
    server_key_injection.Base.contains
answered =
    called (validate_kbdint_response alice (codes "pw" ∷ codes "123456" ∷ []) (pos 1000))
      (drop_one (drop_one history)) shown store asked

reached : IsReached (some (sqlite_store is_secret hasher verifies)) history authenticated store
unfolding call request_session
reached = called session_requested (drop_one history) authenticated store answered

sessions-AreAuthenticated_example : AreAuthenticated is_secret hasher verifies history
sessions-AreAuthenticated_example =
    sessions-AreAuthenticated is_secret hasher verifies history authenticated store reached

challenges-le_one_example : challenges history ≤ 1
challenges-le_one_example =
    challenges-le_one (some (sqlite_store is_secret hasher verifies)) history authenticated store
      reached

run_request-SessionEnds_example :
    SessionEnds agent sign fingerprint_of factory identity
      (codes "r1")
      (λ _. supply)
      (pos 1000)
      (tables_of ledger)
      []
      (run_request
        (some (λ _.
          serve agent sign fingerprint_of factory identity
            (codes "r1")
            true
            (λ _. supply)
            (λ _. pos 1001)
            (pos 1000)))
        identity
        (some (codes "/tmp/agent"))
        (([], tables_of ledger), []))
run_request-SessionEnds_example =
    run_request-SessionEnds agent sign fingerprint_of factory identity (codes "r1") true
      (λ _. supply) (λ _. pos 1001) (pos 1000) (some (codes "/tmp/agent")) [] (tables_of ledger) []

-- A network where each acceptor is its port, and the address `::` is refused.
abbrev listening : Listening ℕ
listening = record {
  listen = λ history host port. if host == codes "::" then err (codes "OSError") else ok port;
  get_port = λ port. port;
}

reached-IsTracked_example :
    IsTracked listening (close listening (start listening (codes "*") 2222 ([], [])).1)
reached-IsTracked_example =
    reached-IsTracked listening (close listening (start listening (codes "*") 2222 ([], [])).1) (
      stopped (start listening (codes "*") 2222 ([], [])).1
        (started (codes "*") 2222 ([], []) created))

abbrev event : Event
event = record {
  name = codes "service_started";
  message = codes "issuer service started";
  priority = 6;
  fields = (codes "SKI_PORT", codes "2222") ∷ [];
}

made : make_event event.name event.message 6 event.fields ≡ ok event
unfolding make_event server_key_injection.Base.all server_key_injection.Base.contains
    server_key_injection.Base.list_beq
made = refl

journal_entry-KeepsKeys_example :
    KeepsKeys (codes "ski") event.name 6 (journal_entry (codes "ski") event).1
journal_entry-KeepsKeys_example =
    journal_entry-KeepsKeys (codes "ski") event.name event.message 6 event.fields event made
