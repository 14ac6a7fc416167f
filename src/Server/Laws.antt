-- ===== src/Server/Laws.antt =====
-- What the callbacks of `_IssuerSSHServer` in src/ski/server.py guarantee, in whatever order they come.
use mathlib.Core.Path.{subst}
use server_key_injection.Base.{
  ◌≡◌, refl, sym, Bool, true, false, not, ◌||◌, Option, none, some, List, [], ◌∷◌, Result, ok, err,
  ◌==◌, nat_eq, list_eq, option_eq, Bool-cases, inl, inr,
}
use server_key_injection.Base.Int.{ℤ}
use server_key_injection.Base.Text.{Text}
use server_key_injection.Issuance.{IdentitySnapshot}
use server_key_injection.Server.{
  IdentityProvider, Connection, Callback, connection_made, kbdint_auth_supported, session_requested,
  begin_auth, get_kbdint_challenge, validate_kbdint_response, flag, abort, two_responses, is_given,
  verify_factors, After, after_factors, check_responses, validate_response, get_challenge,
  request_session, call,
}
use server_key_injection.Server.Factors.{two_responses-some, answer, verify_factors-IsVerified}
use server_key_injection.Server.History.{
  Exchange, exchange, latest_accepted, IsReached, opened, called, meanwhile, IsGranted,
  IsGrantedReply, AreGranted,
}

module _ {W : Type 0} where
  abort-IsGranted :
      (store : Option (IdentityProvider W)) (accepted : Option (Exchange W)) (c : Connection)
      → IsGranted store accepted c.authenticated_identity
      → IsGranted store accepted (abort c).authenticated_identity
  abort-IsGranted store accepted c h = elim (Bool-cases c.connected) [
    | inl e ↦ rw e h
    | inr e ↦ rw e h
  ]

  -- The identity after a callback, in the history with its exchange.
  abbrev IsSafeAfter :
      Option (IdentityProvider W) → List (Exchange W) → Callback → W → After W → Type 0
  IsSafeAfter store history callback w (reply, (c, w')) =
      IsGranted store (latest_accepted (exchange callback w reply ∷ history))
        c.authenticated_identity

  after_factors-IsSafe :
      (provider : IdentityProvider W) (history : List (Exchange W)) (username password code : Text)
      (now : ℤ) (w : W) (c : Connection) (r : Result Text (Option IdentitySnapshot) × W)
      → verify_factors provider username (password, code) now w ≡ r
      → IsGranted (some provider) (latest_accepted history) c.authenticated_identity
      → IsSafeAfter
          (some provider)
          history
          (validate_kbdint_response username (password ∷ code ∷ []) now)
          w
          (after_factors c r)
  unfolding after_factors
  after_factors-IsSafe provider history username password code now w c (ok (some snapshot), w') same
        h =
      (
        answer username password code now w,
        refl,
        verify_factors-IsVerified provider username password code now w w' snapshot same,
      )
  after_factors-IsSafe provider history username password code now w c (ok none, w') same h =
      abort-IsGranted (some provider) (latest_accepted history) c h
  after_factors-IsSafe provider history username password code now w c (err e, w') same h =
      abort-IsGranted (some provider) (latest_accepted history) c h

  reply-granted :
      (store : Option (IdentityProvider W)) (history : List (Exchange W))
      (identity : Option IdentitySnapshot)
      → IsGranted store (latest_accepted history) identity
      → IsGrantedReply store history (request_session store identity)
  unfolding request_session
  reply-granted none history identity h = tt
  reply-granted (some provider) history none h = tt
  reply-granted (some provider) history (some snapshot) h = h

  check-IsSafe :
      (provider : IdentityProvider W) (history : List (Exchange W)) (username : Text)
      (responses : List Text) (factors : Option (Text × Text)) (now : ℤ) (c : Connection) (w : W)
      → two_responses responses ≡ factors
      → IsGranted (some provider) (latest_accepted history) c.authenticated_identity
      → IsSafeAfter
          (some provider)
          history
          (validate_kbdint_response username responses now)
          w
          (check_responses provider username factors now c w)
  unfolding check_responses
  check-IsSafe provider history username responses none now c w two h =
      abort-IsGranted (some provider) (latest_accepted history) c h
  check-IsSafe provider history username responses (some (password, code)) now c w two h =
      elim (Bool-cases (not (c.username == some username))) [
        | inl e ↦ rw e (abort-IsGranted (some provider) (latest_accepted history) c h)
        | inr e ↦
            rw (e, two_responses-some responses password code two)
              (after_factors-IsSafe provider history username password code now w c
                (verify_factors provider username (password, code) now w) refl h)
      ]

  validate-IsSafe :
      (store : Option (IdentityProvider W)) (history : List (Exchange W)) (username : Text)
      (responses : List Text) (now : ℤ) (c : Connection) (w : W)
      → IsGranted store (latest_accepted history) c.authenticated_identity
      → IsSafeAfter store history
          (validate_kbdint_response username responses now)
          w
          (validate_response store username responses now c w)
  unfolding validate_response
  validate-IsSafe none history username responses now c w h = h
  validate-IsSafe (some provider) history username responses now c w h =
      elim (Bool-cases (not c.exchange_attempted)) [
        | inl e ↦ rw e h
        | inr e ↦ rw e (
            check-IsSafe provider history username responses (two_responses responses) now c w refl
              h)
      ]

  challenge-IsSafe :
      (store : Option (IdentityProvider W)) (history : List (Exchange W)) (username : Text)
      (c : Connection)
      → IsGranted store (latest_accepted history) c.authenticated_identity
      → IsGranted store
          (latest_accepted history)
          (get_challenge store username c).1.authenticated_identity
  unfolding get_challenge
  challenge-IsSafe store history username c h =
      elim (Bool-cases
        (not (is_given store) || c.exchange_attempted || not (c.username == some username))) [
          | inl e ↦ rw e h
          | inr e ↦ rw e h
        ]

  call-IsSafe :
      (store : Option (IdentityProvider W)) (history : List (Exchange W)) (callback : Callback)
      (c : Connection) (w : W)
      → IsGranted store (latest_accepted history) c.authenticated_identity
      → IsSafeAfter store history callback w (call store callback c w)
  unfolding call
  call-IsSafe store history connection_made c w h = h
  call-IsSafe store history kbdint_auth_supported c w h = h
  call-IsSafe store history session_requested c w h = h
  call-IsSafe store history (begin_auth username) c w h = h
  call-IsSafe store history (get_kbdint_challenge username) c w h =
      challenge-IsSafe store history username c h
  call-IsSafe store history (validate_kbdint_response username responses now) c w h =
      validate-IsSafe store history username responses now c w h

  factors-flag :
      (c : Connection) (r : Result Text (Option IdentitySnapshot) × W)
      → (b : Bool) × ((after_factors c r).0 ≡ flag b)
  unfolding after_factors
  factors-flag c (ok (some snapshot), w') = (true, refl)
  factors-flag c (ok none, w') = (false, refl)
  factors-flag c (err e, w') = (false, refl)

  check-flag :
      (provider : IdentityProvider W) (username : Text) (factors : Option (Text × Text)) (now : ℤ)
      (c : Connection) (w : W)
      → (b : Bool) × ((check_responses provider username factors now c w).0 ≡ flag b)
  unfolding check_responses
  check-flag provider username none now c w = (false, refl)
  check-flag provider username (some factors) now c w =
      elim (Bool-cases (not (c.username == some username))) [
        | inl e ↦ (false, rw e refl)
        | inr e ↦
            let (b, same) = factors-flag c (verify_factors provider username factors now w) in
            (b, rw e same)
      ]

  -- Only an answer to a session request is a session.
  call-IsGrantedReply :
      (store : Option (IdentityProvider W)) (history : List (Exchange W)) (callback : Callback)
      (c : Connection) (w : W)
      → IsGranted store (latest_accepted history) c.authenticated_identity
      → IsGrantedReply store history (call store callback c w).0
  unfolding call get_challenge validate_response
  call-IsGrantedReply store history connection_made c w h = tt
  call-IsGrantedReply store history kbdint_auth_supported c w h = tt
  call-IsGrantedReply store history session_requested c w h =
      reply-granted store history c.authenticated_identity h
  call-IsGrantedReply store history (begin_auth username) c w h = tt
  call-IsGrantedReply store history (get_kbdint_challenge username) c w h =
      elim (Bool-cases
        (not (is_given store) || c.exchange_attempted || not (c.username == some username))) [
          | inl e ↦ rw e tt
          | inr e ↦ rw e tt
        ]
  call-IsGrantedReply none history (validate_kbdint_response username responses now) c w h = tt
  call-IsGrantedReply (some provider) history (validate_kbdint_response username responses now) c w
        h =
      elim (Bool-cases (not c.exchange_attempted)) [
        | inl e ↦ rw e tt
        | inr e ↦ rw e (
            subst (IsGrantedReply (some provider) history)
              (sym (check-flag provider username (two_responses responses) now c w).1) tt)
      ]

  reached-IsSafe :
      (store : Option (IdentityProvider W)) (history : List (Exchange W)) (c : Connection) (w : W)
      → IsReached store history c w
      → AreGranted store history
        × IsGranted store (latest_accepted history) c.authenticated_identity
  reached-IsSafe store _ _ w (opened _) = (tt, tt)
  reached-IsSafe store _ _ _ (called callback history c w before) =
      let (granted, identity) = reached-IsSafe store history c w before in
      (
        (call-IsGrantedReply store history callback c w identity, granted),
        call-IsSafe store history callback c w identity,
      )
  reached-IsSafe store history c _ (meanwhile w' _ _ w before) =
      reached-IsSafe store history c w before

  -- In whatever order the callbacks come, and whatever others do to the store between them, a session is
  -- opened only after an accepted answer, and then for the snapshot that the store returned for the
  -- latest of them, after it had looked the name up and accepted the password and the code of that
  -- answer for the name it gave; and without a store, none is.
  pub reached-AreGranted :
      (store : Option (IdentityProvider W)) (history : List (Exchange W)) (c : Connection) (w : W)
      → IsReached store history c w
      → AreGranted store history
  reached-AreGranted store history c w reached = (reached-IsSafe store history c w reached).0
