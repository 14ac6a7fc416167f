-- ===== src/Server.antt =====
-- src/ski/server.py: the authentication of one connection, as the callbacks of `_IssuerSSHServer` that
-- asyncssh may make in any order. The listener and the session are child modules.
pub mod Session
pub mod Listener
pub mod Sockets
pub mod History
pub mod Factors
pub mod Laws
pub mod Prompts
pub mod Sqlite
use server_key_injection.Base.{
  Bool, true, false, not, ◌||◌, ◌&&◌, Option, none, some, List, [], ◌∷◌, Result, ok, err,
  if◌then◌else◌, ◌==◌, nat_eq, list_eq, option_eq,
}
use server_key_injection.Base.Int.{ℤ}
use server_key_injection.Base.Text.{Text, codes}
use server_key_injection.State.Exec.{Run, pure, ◌>>=◌}
use server_key_injection.Issuance.{IdentitySnapshot}

-- `IssuerIdentityProvider`: operations on the world `W` that may raise, by the exception's text.
pub record IdentityProvider (W : Type 0) : Type 0 where
  pub lookup_identity : Text → Run W Text Text
  pub verify_password : Text → Text → Run W Text Bool
  pub verify_totp : Text → Text → ℤ → Run W Text Bool
  pub get_group_snapshot : Text → Run W Text IdentitySnapshot

-- The fields of `_IssuerSSHServer` that change, and whether the retained connection was aborted.
pub record Connection : Type 0 where
  pub connected : Bool
  pub aborted : Bool
  pub username : Option Text
  pub exchange_attempted : Bool
  pub authenticated_identity : Option IdentitySnapshot

abbrev pub new : Connection
new = record {
  connected = false;
  aborted = false;
  username = none;
  exchange_attempted = false;
  authenticated_identity = none;
}

-- The callbacks, with the clock's time where one reads it.
pub data Callback : Type 0 where
  connection_made kbdint_auth_supported session_requested : Callback
  begin_auth get_kbdint_challenge : Text → Callback
  validate_kbdint_response : Text → List Text → ℤ → Callback

-- What a callback returns; `challenge` stands for the two prompts.
pub data Reply : Type 0 where
  nothing challenge : Reply
  flag : Bool → Reply
  session : IdentitySnapshot → Reply

-- `if self._connection is not None: self._connection.abort()`
abbrev pub abort : Connection → Connection
abort c = if c.connected then record c { aborted = true } else c

abbrev pub two_responses : List Text → Option (Text × Text)
two_responses (password ∷ code ∷ []) = some (password, code)
two_responses _ = none

abbrev pub is_given : {A : Type 0} → Option A → Bool
is_given none = false
is_given (some _) = true

-- What a callback gives: its reply, the connection and the world after it.
abbrev pub After : Type 0 → Type 0
After W = Reply × (Connection × W)

module _ {W : Type 0} where
  -- `if not password_ok or not totp_ok: ...`, and the snapshot
  unfoldable pub snapshot_if :
      IdentityProvider W → Text → Bool → Run W Text (Option IdentitySnapshot)
  snapshot_if store canonical_username false = pure none
  snapshot_if store canonical_username true = do
    snapshot ← store.get_group_snapshot canonical_username
    pure (some snapshot)

  -- The store's calls of `validate_kbdint_response`, from the last to the first.
  abbrev pub after_password :
      IdentityProvider W → Text → Text → ℤ → Bool → Run W Text (Option IdentitySnapshot)
  after_password store canonical_username code now password_ok =
      store.verify_totp canonical_username code now >>= λ totp_ok.
      snapshot_if store canonical_username (password_ok && totp_ok)

  abbrev pub after_lookup :
      IdentityProvider W → Text → Text → ℤ → Text → Run W Text (Option IdentitySnapshot)
  after_lookup store password code now canonical_username =
      store.verify_password canonical_username password
      >>= after_password store canonical_username code now

  -- All of them; `none` where a factor is wrong.
  unfoldable pub verify_factors :
      IdentityProvider W → Text → Text × Text → ℤ → Run W Text (Option IdentitySnapshot)
  unfolding snapshot_if
  verify_factors store username (password, code) now =
      store.lookup_identity username >>= after_lookup store password code now

  unfoldable pub after_factors : Connection → Result Text (Option IdentitySnapshot) × W → After W
  after_factors c (ok (some snapshot), w) =
      (flag true, (record c { authenticated_identity = some snapshot }, w))
  after_factors c (ok none, w) = (flag false, (abort c, w))
  after_factors c (err _, w) = (flag false, (abort c, w))

  -- `validate_kbdint_response` of a configured store after the challenge
  unfoldable pub check_responses :
      IdentityProvider W → Text → Option (Text × Text) → ℤ → Connection → W → After W
  unfolding verify_factors after_factors
  check_responses store username none now c w = (flag false, (abort c, w))
  check_responses store username (some factors) now c w =
      if not (c.username == some username)
      then (flag false, (abort c, w))
      else after_factors c (verify_factors store username factors now w)

  unfoldable pub validate_response :
      Option (IdentityProvider W) → Text → List Text → ℤ → Connection → W → After W
  unfolding check_responses
  validate_response none username responses now c w = (flag false, (c, w))
  validate_response (some store) username responses now c w =
      if not c.exchange_attempted
      then (flag false, (c, w))
      else check_responses store username (two_responses responses) now c w

  unfoldable pub get_challenge :
      Option (IdentityProvider W) → Text → Connection → Reply × Connection
  get_challenge store username c =
      if not (is_given store) || c.exchange_attempted || not (c.username == some username)
      then (flag false, c)
      else (challenge, record c { exchange_attempted = true })

  unfoldable pub request_session : Option (IdentityProvider W) → Option IdentitySnapshot → Reply
  request_session none _ = flag false
  request_session (some _) none = flag false
  request_session (some _) (some identity) = session identity

  -- One callback.
  unfoldable pub call : Option (IdentityProvider W) → Callback → Connection → W → After W
  unfolding validate_response get_challenge request_session
  call store connection_made c w = (nothing, (record c { connected = true }, w))
  call store kbdint_auth_supported c w = (flag (is_given store), (c, w))
  call store session_requested c w = (request_session store c.authenticated_identity, (c, w))
  call store (begin_auth username) c w =
      (flag (is_given store), (record c { username = some username }, w))
  call store (get_kbdint_challenge username) c w =
      let (reply, c') = get_challenge store username c in (reply, (c', w))
  call store (validate_kbdint_response username responses now) c w =
      validate_response store username responses now c w
