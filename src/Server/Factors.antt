-- ===== src/Server/Factors.antt =====
-- The two factors of an answer in src/ski/server.py: what the store found when it accepted them.
use server_key_injection.Base.{
  ◌≡◌, refl, ap, ◌∙◌, Bool, true, false, ◌&&◌, none, some, List, [], ◌∷◌, ok, nat_eq, list_eq,
  option_eq, ok-injective,
}
use server_key_injection.Base.Int.{ℤ}
use server_key_injection.Base.Text.{Text}
use server_key_injection.State.Exec.{pure, >>=-eq-ok}
use server_key_injection.Issuance.{IdentitySnapshot}
use server_key_injection.Server.{
  IdentityProvider, validate_kbdint_response, flag, two_responses, snapshot_if, after_lookup,
  after_password, verify_factors,
}
use server_key_injection.Server.History.{Exchange, exchange, IsVerified}

pub two_responses-some :
    (responses : List Text) (password code : Text)
    → two_responses responses ≡ some (password, code)
    → responses ≡ password ∷ code ∷ []
two_responses-some [] password code h = absurd (cc)
two_responses-some (p ∷ []) password code h = absurd (cc)
two_responses-some (p ∷ c ∷ []) password code h =
    ap (λ o. elim o as (λ _. List Text) [ none ↦ [] | some f ↦ f.0 ∷ f.1 ∷ [] ]) h
two_responses-some (p ∷ c ∷ r ∷ rest) password code h = absurd (cc)

module _ {W : Type 0} where
  -- The exchange of an accepted answer.
  abbrev pub answer : Text → Text → Text → ℤ → W → Exchange W
  answer username password code now w =
      exchange (validate_kbdint_response username (password ∷ code ∷ []) now) w (flag true)

  both_right :
      (provider : IdentityProvider W) (username password code : Text) (now : ℤ) (w : W)
      (snapshot : IdentitySnapshot) (w' : W) (canonical : Text) (w1 w2 w3 : W)
      (password_ok totp_ok : Bool)
      → provider.lookup_identity username w ≡ (ok canonical, w1)
      → provider.verify_password canonical password w1 ≡ (ok password_ok, w2)
      → provider.verify_totp canonical code now w2 ≡ (ok totp_ok, w3)
      → snapshot_if provider canonical (password_ok && totp_ok) w3 ≡ (ok (some snapshot), w')
      → IsVerified provider (answer username password code now w) snapshot
  unfolding snapshot_if
  both_right provider username password code now w snapshot w' canonical w1 w2 w3 true true lookup
        verified confirmed h =
      let (other, w4, bound, same) =
        >>=-eq-ok (provider.get_group_snapshot canonical) (λ s. pure (some s)) w3 (some snapshot) w'
          h in
      let equal : other ≡ snapshot = cc (ok-injective (ap (λ p. p.0) same)) in
      record {
        username = username;
        canonical = canonical;
        password = password;
        code = code;
        now = now;
        found = w1;
        checked = w2;
        confirmed = w3;
        after = w4;
        answered = refl;
        lookup = lookup;
        password_ok = verified;
        totp_ok = confirmed;
        bound = bound ∙ ap (λ s. (ok s, w4)) equal;
      }
  both_right provider username password code now w snapshot w' canonical w1 w2 w3 true false lookup
        verified confirmed h =
      absurd (cc h)
  both_right provider username password code now w snapshot w' canonical w1 w2 w3 false totp_ok
        lookup verified confirmed h =
      absurd (cc h)

  pub verify_factors-IsVerified :
      (provider : IdentityProvider W) (username password code : Text) (now : ℤ) (w w' : W)
      (snapshot : IdentitySnapshot)
      → verify_factors provider username (password, code) now w ≡ (ok (some snapshot), w')
      → IsVerified provider (answer username password code now w) snapshot
  unfolding verify_factors snapshot_if
  verify_factors-IsVerified provider username password code now w w' snapshot h =
      let (canonical, w1, lookup, h1) =
        >>=-eq-ok (provider.lookup_identity username) (after_lookup provider password code now) w
          (some snapshot) w' h in
      let (password_ok, w2, verified, h2) =
        >>=-eq-ok (provider.verify_password canonical password)
          (after_password provider canonical code now) w1 (some snapshot) w' h1 in
      let (totp_ok, w3, confirmed, h3) =
        >>=-eq-ok (provider.verify_totp canonical code now)
          (λ totp_ok. snapshot_if provider canonical (password_ok && totp_ok)) w2 (some snapshot) w'
          h2 in
      both_right provider username password code now w snapshot w' canonical w1 w2 w3 password_ok
        totp_ok lookup verified confirmed h3
