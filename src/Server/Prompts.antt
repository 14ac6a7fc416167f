-- ===== src/Server/Prompts.antt =====
-- How often a connection of src/ski/server.py shows its prompts.
use server_key_injection.Base.{
  ℕ, suc, ◌≤◌, ◌≡◌, refl, sym, not, Option, none, some, List, [], ◌∷◌, Result, ok, err,
  if◌then◌else◌, ◌==◌, nat_eq, list_eq, option_eq, arith, Bool-cases, inl, inr,
}
use server_key_injection.Base.Int.{ℤ}
use server_key_injection.Base.Text.{Text}
use server_key_injection.Issuance.{IdentitySnapshot}
use server_key_injection.Server.{
  IdentityProvider, Connection, Callback, connection_made, kbdint_auth_supported, session_requested,
  begin_auth, get_kbdint_challenge, validate_kbdint_response, Reply, challenge, abort,
  two_responses, verify_factors, After, after_factors, check_responses, validate_response,
  get_challenge, request_session, call,
}
use server_key_injection.Server.History.{Exchange, IsReached, opened, called, meanwhile}

abbrev count : Reply → ℕ → ℕ
count challenge n = suc n
count _ n = n

-- How often the prompts were shown.
abbrev pub challenges : {W : Type 0} → List (Exchange W) → ℕ
challenges [] = 0
challenges (x ∷ history) = count x.reply (challenges history)

abbrev attempts : Connection → ℕ
attempts c = if c.exchange_attempted then 1 else 0

abort-counted : (c : Connection) → attempts (abort c) ≡ attempts c
abort-counted c = ground arith

module _ {W : Type 0} where
  abbrev IsCounted : Connection → After W → Type 0
  IsCounted c (reply, (c', w)) = attempts c' ≡ count reply (attempts c)

  after_factors-IsCounted :
      (c : Connection) (r : Result Text (Option IdentitySnapshot) × W)
      → IsCounted c (after_factors c r)
  unfolding after_factors
  after_factors-IsCounted c (ok (some snapshot), w) = refl
  after_factors-IsCounted c (ok none, w) = abort-counted c
  after_factors-IsCounted c (err e, w) = abort-counted c

  check-IsCounted :
      (provider : IdentityProvider W) (username : Text) (factors : Option (Text × Text)) (now : ℤ)
      (c : Connection) (w : W)
      → IsCounted c (check_responses provider username factors now c w)
  unfolding check_responses
  check-IsCounted provider username none now c w = abort-counted c
  check-IsCounted provider username (some factors) now c w =
      elim (Bool-cases (not (c.username == some username))) [
        | inl e ↦ rw e (abort-counted c)
        | inr e ↦ rw e (after_factors-IsCounted c (verify_factors provider username factors now w))
      ]

  call-IsCounted :
      (store : Option (IdentityProvider W)) (callback : Callback) (c : Connection) (w : W)
      → IsCounted c (call store callback c w)
  unfolding call get_challenge validate_response request_session
  call-IsCounted store connection_made c w = refl
  call-IsCounted store kbdint_auth_supported c w = refl
  call-IsCounted store (begin_auth username) c w = refl
  call-IsCounted none session_requested c w = refl
  call-IsCounted (some provider) session_requested c w =
      elim c.authenticated_identity
        as (λ i. attempts c ≡ count (request_session (some provider) i) (attempts c)) [
          | none ↦ refl
          | some s ↦ refl
        ]
  call-IsCounted store (get_kbdint_challenge username) c w = ground arith
  call-IsCounted none (validate_kbdint_response username responses now) c w = refl
  call-IsCounted (some provider) (validate_kbdint_response username responses now) c w =
      elim (Bool-cases (not c.exchange_attempted)) [
        | inl e ↦ rw e refl
        | inr e ↦ rw e (check-IsCounted provider username (two_responses responses) now c w)
      ]

  counted :
      (store : Option (IdentityProvider W)) (history : List (Exchange W)) (c : Connection) (w : W)
      → IsReached store history c w
      → challenges history ≡ attempts c
  counted store _ _ w (opened _) = refl
  counted store _ _ _ (called callback history c w before) =
      rw (counted store history c w before) (sym (call-IsCounted store callback c w))
  counted store history c _ (meanwhile w' _ _ w before) = counted store history c w before

  -- In whatever order the callbacks come, a connection is shown the prompts at most once.
  pub challenges-le_one :
      (store : Option (IdentityProvider W)) (history : List (Exchange W)) (c : Connection) (w : W)
      → IsReached store history c w
      → challenges history ≤ 1
  challenges-le_one store history c w reached = ground (arith, counted store history c w reached)
