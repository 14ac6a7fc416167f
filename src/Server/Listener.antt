-- ===== src/Server/Listener.antt =====
-- `IssuerServer` of src/ski/server.py: the acceptors that it opens and closes.
use server_key_injection.Base.{
  ℕ, List, [], ◌∷◌, ◌++◌, Result, ok, err, if◌then◌else◌, ◌==◌, nat_eq, list_eq,
}
use server_key_injection.Base.Text.{Text, codes}

-- What happened to the sockets so far, the earliest first; `refused` is a call of the factory that raised.
pub data Effect (Acceptor : Type 0) : Type 0 where
  listened closed : Acceptor → Effect Acceptor
  refused : Effect Acceptor

-- asyncssh's `listen`, which may depend on all that happened, and the port of an acceptor.
pub record Listening (Acceptor : Type 0) : Type 0 where
  pub listen : List (Effect Acceptor) → Text → ℕ → Result Text Acceptor
  pub get_port : Acceptor → ℕ

abbrev pub hosts : Text → List Text
hosts bind = if bind == codes "*" then codes "0.0.0.0" ∷ codes "::" ∷ [] else bind ∷ []

module _ {Acceptor : Type 0} (listening : Listening Acceptor) where
  -- `IssuerServer._acceptors`, and what happened to the sockets.
  abbrev pub Listener : Type 0
  Listener = List Acceptor × List (Effect Acceptor)

  -- `_close_acceptors`
  unfoldable pub close_acceptors : List Acceptor → List (Effect Acceptor) → List (Effect Acceptor)
  close_acceptors [] history = history
  close_acceptors (a ∷ acceptors) history = close_acceptors acceptors (history ++ closed a ∷ [])

  abbrev pub next_port : ℕ → Acceptor → ℕ
  next_port port acceptor = if port == 0 then listening.get_port acceptor else port

  -- What the loop of `start` leaves: whether it was broken off, and the acceptors opened so far.
  abbrev pub Opened : Type 0
  Opened = Result Text (Unit {0}) × Listener

  unfoldable pub after_listen :
      (ℕ → List Acceptor → List (Effect Acceptor) → Opened)
      → ℕ
      → List Acceptor
      → List (Effect Acceptor)
      → Result Text Acceptor
      → Opened
  after_listen rest port opened history (ok a) =
      rest (next_port port a) (opened ++ a ∷ []) (history ++ listened a ∷ [])
  after_listen rest port opened history (err e) = (err e, (opened, history ++ refused ∷ []))

  unfoldable pub open_acceptors : List Text → ℕ → List Acceptor → List (Effect Acceptor) → Opened
  unfolding after_listen
  open_acceptors [] port opened history = (ok tt, (opened, history))
  open_acceptors (host ∷ rest) port opened history =
      after_listen (open_acceptors rest) port opened history (listening.listen history host port)

  -- The `except` of `start`, and its last statement.
  unfoldable pub after_open : Opened → Opened
  unfolding close_acceptors
  after_open (err e, (opened, history)) = (err e, ([], close_acceptors opened history))
  after_open (ok _, (opened, history)) = (ok tt, (opened, history))

  unfoldable pub start : (bind : Text) (requested_port : ℕ) → Listener → Opened
  unfolding after_open open_acceptors
  start bind requested_port (a ∷ acceptors, history) =
      (err (codes "RuntimeError"), (a ∷ acceptors, history))
  start bind requested_port ([], history) =
      after_open (open_acceptors (hosts bind) requested_port [] history)

  unfoldable pub close : Listener → Listener
  unfolding close_acceptors
  close ([], history) = ([], history)
  close (a ∷ acceptors, history) = ([], close_acceptors (a ∷ acceptors) history)

  -- `addresses`, given those of one acceptor, and `port`
  unfoldable pub port : Listener → ℕ
  port ([], history) = 0
  port (a ∷ acceptors, history) = listening.get_port a
