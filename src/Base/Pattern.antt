-- ===== src/Base/Pattern.antt =====
-- The regular expressions of the program: a first character, then at most `max` further ones.
-- `Pattern.fullmatch` with a trailing `\Z` accepts a text only as a whole.
use Prim.Native.Nat.{ℕ}
use mathlib.Core.Path.{◌≡◌}
use mathlib.Core.Bool.{Bool, true, false, ◌&&◌, ◌||◌}
use mathlib.Core.List.{[], ◌∷◌}
use native.Mathlib.Omega.{arith}
use server_key_injection.Base.Tests.{leb, nat_beq}
use server_key_injection.Base.Lists.{length, all, All}
use server_key_injection.Base.Text.{Text}

unfoldable pub is_lower : ℕ → Bool
is_lower c = leb b'a' c && leb c b'z'

unfoldable pub is_upper : ℕ → Bool
is_upper c = leb b'A' c && leb c b'Z'

unfoldable pub is_digit : ℕ → Bool
is_digit c = leb b'0' c && leb c b'9'

-- `[a-z0-9-]`
unfoldable pub is_name_char : ℕ → Bool
unfolding is_lower is_digit
is_name_char c = is_lower c || is_digit c || nat_beq c b'-'

-- `[a-z0-9_-]`
unfoldable pub is_account_char : ℕ → Bool
unfolding is_lower is_digit
is_account_char c = is_lower c || is_digit c || nat_beq c b'_' || nat_beq c b'-'

-- `[first][rest]{0,max}\Z` against a whole text
unfoldable pub full_match : (first rest : ℕ → Bool) → ℕ → Text → Bool
full_match first rest max [] = false
full_match first rest max (c ∷ cs) = first c && all rest cs && leb (length cs) max

pub all→All : (p : ℕ → Bool) (xs : Text) → all p xs ≡ true → All (λ c. p c ≡ true) xs
unfolding all
all→All p [] h = tt
all→All p (x ∷ xs) h = ground (arith, all→All p xs)
