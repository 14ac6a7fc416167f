-- ===== src/Server/Sockets.antt =====
-- The sockets that `IssuerServer` of src/ski/server.py opens and closes.
use server_key_injection.Base.{
  ℕ, ◌≡◌, refl, ap, ◌∙◌, List, [], ◌∷◌, ◌++◌, Result, ok, err, Eq, nat_eq, list_eq, beq_refl,
  remove_first,
}
use server_key_injection.Base.Text.{Text}
use server_key_injection.Server.Listener.{
  Effect, listened, closed, refused, Listening, Listener, hosts, Opened, close_acceptors, next_port,
  after_listen, open_acceptors, after_open, start, close,
}

module _ {Acceptor : Type 0} ⦃e : Eq Acceptor⦄ where
  -- The acceptors that are open after one more effect, and after a history.
  abbrev after_effect : List Acceptor → Effect Acceptor → List Acceptor
  after_effect open_ (listened a) = open_ ++ a ∷ []
  after_effect open_ (closed a) = remove_first a open_
  after_effect open_ refused = open_

  abbrev pub still_open : List Acceptor → List (Effect Acceptor) → List Acceptor
  still_open open_ [] = open_
  still_open open_ (effect ∷ history) = still_open (after_effect open_ effect) history

  still_open-snoc :
      (open_ : List Acceptor) (history : List (Effect Acceptor)) (effect : Effect Acceptor)
      → still_open open_ (history ++ effect ∷ []) ≡ after_effect (still_open open_ history) effect
  still_open-snoc open_ [] effect = refl
  still_open-snoc open_ (first ∷ history) effect =
      still_open-snoc (after_effect open_ first) history effect

  module _ (listening : Listening Acceptor) where
    -- The server has exactly the acceptors that are open.
    abbrev pub IsTracked : Listener listening → Type 0
    IsTracked (acceptors, history) = still_open [] history ≡ acceptors

    tracked_effect :
        (acceptors : List Acceptor) (history : List (Effect Acceptor)) (effect : Effect Acceptor)
        → still_open [] history ≡ acceptors
        → still_open [] (history ++ effect ∷ []) ≡ after_effect acceptors effect
    tracked_effect acceptors history effect h =
        still_open-snoc [] history effect ∙ ap (λ o. after_effect o effect) h

    closed_first :
        (a : Acceptor) (acceptors : List Acceptor) → remove_first a (a ∷ acceptors) ≡ acceptors
    closed_first a acceptors = rw (beq_refl a) refl

    close_acceptors-IsTracked :
        (acceptors : List Acceptor) (history : List (Effect Acceptor))
        → IsTracked (acceptors, history)
        → IsTracked ([], close_acceptors listening acceptors history)
    unfolding close_acceptors
    close_acceptors-IsTracked [] history h = h
    close_acceptors-IsTracked (a ∷ acceptors) history h =
        close_acceptors-IsTracked acceptors (history ++ closed a ∷ [])
          (tracked_effect (a ∷ acceptors) history (closed a) h ∙ closed_first a acceptors)

    abbrev KeepsTrack : (ℕ → List Acceptor → List (Effect Acceptor) → Opened listening) → Type 0
    KeepsTrack run =
        (port : ℕ) (opened : List Acceptor) (history : List (Effect Acceptor))
        → IsTracked (opened, history)
        → IsTracked (run port opened history).1

    after_listen-IsTracked :
        (rest : ℕ → List Acceptor → List (Effect Acceptor) → Opened listening) (port : ℕ)
        (opened : List Acceptor) (history : List (Effect Acceptor)) (r : Result Text Acceptor)
        → KeepsTrack rest
        → IsTracked (opened, history)
        → IsTracked (after_listen listening rest port opened history r).1
    unfolding after_listen
    after_listen-IsTracked rest port opened history (ok a) keeps h =
        keeps (next_port listening port a) (opened ++ a ∷ []) (history ++ listened a ∷ [])
          (tracked_effect opened history (listened a) h)
    after_listen-IsTracked rest port opened history (err x) keeps h =
        tracked_effect opened history refused h

    open_acceptors-IsTracked : (names : List Text) → KeepsTrack (open_acceptors listening names)
    unfolding open_acceptors
    open_acceptors-IsTracked [] port opened history h = h
    open_acceptors-IsTracked (host ∷ rest) port opened history h =
        after_listen-IsTracked (open_acceptors listening rest) port opened history
          (listening.listen history host port) (open_acceptors-IsTracked rest) h

    after_open-IsTracked :
        (o : Opened listening) → IsTracked o.1 → IsTracked (after_open listening o).1
    unfolding after_open
    after_open-IsTracked (err x, (opened, history)) h = close_acceptors-IsTracked opened history h
    after_open-IsTracked (ok _, (opened, history)) h = h

    start-IsTracked :
        (bind : Text) (requested_port : ℕ) (l : Listener listening)
        → IsTracked l
        → IsTracked (start listening bind requested_port l).1
    unfolding start
    start-IsTracked bind requested_port ([], history) h =
        after_open-IsTracked (open_acceptors listening (hosts bind) requested_port [] history)
          (open_acceptors-IsTracked (hosts bind) requested_port [] history h)
    start-IsTracked bind requested_port (a ∷ acceptors, history) h = h

    close-IsTracked : (l : Listener listening) → IsTracked l → IsTracked (close listening l)
    unfolding close
    close-IsTracked ([], history) h = h
    close-IsTracked (a ∷ acceptors, history) h = close_acceptors-IsTracked (a ∷ acceptors) history h

    pub data IsReached : Listener listening → Type 0 where
      created : IsReached ([], [])
      started :
          (bind : Text) (requested_port : ℕ) (l : Listener listening)
          → IsReached l
          → IsReached (start listening bind requested_port l).1
      stopped : (l : Listener listening) → IsReached l → IsReached (close listening l)

    -- Whichever calls of the factory raise, and however often the server is started and closed, the server
    -- has exactly the acceptors that are open, in the order in which they were opened: none is lost
    -- when a start is broken off, and none is left open by a close.
    pub reached-IsTracked : (l : Listener listening) → IsReached l → IsTracked l
    reached-IsTracked _ created = refl
    reached-IsTracked _ (started bind requested_port l before) =
        start-IsTracked bind requested_port l (reached-IsTracked l before)
    reached-IsTracked _ (stopped l before) = close-IsTracked l (reached-IsTracked l before)
