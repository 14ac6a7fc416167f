-- ===== src/Server/Session.antt =====
-- `_IssuerSession` of src/ski/server.py: what it writes on its channel, and the status it exits with.
use server_key_injection.Base.{ℕ, Option, none, some, List, [], ◌∷◌, ◌++◌, Result, ok, err}
use server_key_injection.Base.Text.{Text, codes}
use server_key_injection.State.Exec.{Run}
use server_key_injection.Issuance.{IdentitySnapshot}
use server_key_injection.Requests.{groups_text}

pub data Output : Type 0 where
  written error_written : Text → Output
  exited : ℕ → Output

-- The line for the handler's result.
abbrev pub result_line : Option Text → Text
result_line none = codes "Certificate request accepted.\n"
result_line (some result) = codes "Key loaded: " ++ (result ++ codes "\n")

abbrev pub accepted : IdentitySnapshot → Option Text → List Output
accepted identity result =
    written (result_line result)
    ∷ written (codes "Groups: " ++ (groups_text (codes ", ") identity ++ codes "\n"))
    ∷ exited 0
    ∷ []

abbrev pub Handler : Type 0 → Type 0
Handler W = IdentitySnapshot → Run W Text (Option Text)

module _ {W : Type 0} where
  unfoldable pub after_handler : IdentitySnapshot → Result Text (Option Text) × W → List Output × W
  after_handler identity (ok result, w) = (accepted identity result, w)
  after_handler identity (err _, w) =
      (error_written (codes "Certificate request failed.\n") ∷ exited 1 ∷ [], w)

  -- `_run_request`, with the agent's path on the channel
  unfoldable pub run_request :
      Option (Handler W) → IdentitySnapshot → Option Text → W → List Output × W
  unfolding after_handler
  run_request handler identity none w =
      (error_written (codes "Agent forwarding is required.\n") ∷ exited 1 ∷ [], w)
  run_request none identity (some path) w = (accepted identity none, w)
  run_request (some handler) identity (some path) w = after_handler identity (handler identity w)
