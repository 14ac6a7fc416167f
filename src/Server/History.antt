-- ===== src/Server/History.antt =====
-- What a connection of src/ski/server.py went through, and what the store accepted on the way.
use server_key_injection.Base.{
  ◌≡◌, Bool, true, false, Option, none, some, List, [], ◌∷◌, ok, if◌then◌else◌,
}
use server_key_injection.Base.Int.{ℤ}
use server_key_injection.Base.Text.{Text}
use server_key_injection.Issuance.{IdentitySnapshot}
use server_key_injection.Server.{
  IdentityProvider, Connection, new, Callback, validate_kbdint_response, Reply, session, flag, call,
}

-- One callback of a connection: the world that it found, and what it returned.
pub record Exchange (W : Type 0) : Type 0 where
  pub callback : Callback
  pub before : W
  pub reply : Reply

-- `validate_kbdint_response` that returned `True`
abbrev pub accepts : Callback → Reply → Bool
accepts (validate_kbdint_response _ _ _) (flag true) = true
accepts _ _ = false

abbrev pub latest_accepted : {W : Type 0} → List (Exchange W) → Option (Exchange W)
latest_accepted [] = none
latest_accepted (x ∷ history) =
    if accepts x.callback x.reply then some x else latest_accepted history

module _ {W : Type 0} where
  -- The exchange of a callback on a world.
  abbrev pub exchange : Callback → W → Reply → Exchange W
  exchange callback w reply = record { callback = callback; before = w; reply = reply }

  -- What a connection went through, the latest exchange first, while others change the world.
  pub data IsReached (store : Option (IdentityProvider W))
      : List (Exchange W) → Connection → W → Type 0 where
    opened : (w : W) → IsReached store [] new w
    called :
        (callback : Callback) (history : List (Exchange W)) (c : Connection) (w : W)
        → IsReached store history c w
        → IsReached store
            (exchange callback w (call store callback c w).0 ∷ history)
            (call store callback c w).1.0
            (call store callback c w).1.1
    meanwhile :
        (w' : W) (history : List (Exchange W)) (c : Connection) (w : W)
        → IsReached store history c w
        → IsReached store history c w'

  -- In that exchange the client answered with two responses, and on the world that it found the store
  -- looked the name up, found both responses right for the name it gave, one after the other, and
  -- returned this snapshot of that name.
  pub record IsVerified (provider : IdentityProvider W) (x : Exchange W)
      (snapshot : IdentitySnapshot) : Type 0 where
    pub username : Text
    pub canonical : Text
    pub password : Text
    pub code : Text
    pub now : ℤ
    pub found : W
    pub checked : W
    pub confirmed : W
    pub after : W
    pub answered : x.callback ≡ validate_kbdint_response username (password ∷ code ∷ []) now
    pub lookup : provider.lookup_identity username x.before ≡ (ok canonical, found)
    pub password_ok : provider.verify_password canonical password found ≡ (ok true, checked)
    pub totp_ok : provider.verify_totp canonical code now checked ≡ (ok true, confirmed)
    pub bound : provider.get_group_snapshot canonical confirmed ≡ (ok snapshot, after)

  -- A connection's identity is the one of its latest accepted answer; without a store it has none.
  abbrev pub IsGranted :
      Option (IdentityProvider W) → Option (Exchange W) → Option IdentitySnapshot → Type 0
  IsGranted store accepted none = Unit
  IsGranted none accepted (some snapshot) = ⊥
  IsGranted (some provider) accepted (some snapshot) =
      (x : Exchange W) × (accepted ≡ some x) × IsVerified provider x snapshot

  abbrev pub IsGrantedReply : Option (IdentityProvider W) → List (Exchange W) → Reply → Type 0
  IsGrantedReply store history (session snapshot) =
      IsGranted store (latest_accepted history) (some snapshot)
  IsGrantedReply store history _ = Unit

  -- Each reply against the exchanges before it.
  abbrev pub AreGranted : Option (IdentityProvider W) → List (Exchange W) → Type 0
  AreGranted store [] = Unit
  AreGranted store (x ∷ history) = IsGrantedReply store history x.reply × AreGranted store history
