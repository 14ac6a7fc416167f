-- ===== src/Policy.antt =====
-- src/ski/policy.py: canonical usernames and group names, and the principals of a certificate.
pub mod Values
pub mod Shape
pub mod Laws
use server_key_injection.Base.{
  Bool, true, false, not, ◌&&◌, Option, none, some, List, [], ◌∷◌, ◌++◌, map, Result, ok, err,
  ◌>>=◌, ◌>>◌, raise_if, map_err, traverse, distinct, if◌then◌else◌, ℕ, ◌*◌, Eq, ◌==◌, nat_eq,
  list_eq,
}
use server_key_injection.Base.Text.{Text, codes, starts_with, remove_prefix}
use server_key_injection.Base.Pattern.{is_lower, is_account_char, is_name_char, full_match}
use Values.{Value, str_value, Object, tuple_value, scalar}

-- USERNAME_PATTERN: `[a-z][a-z0-9_-]{0,31}\Z`
unfoldable pub username_pattern : Text → Bool
unfolding full_match is_lower is_account_char
username_pattern = full_match is_lower is_account_char 31

-- GROUP_PATTERN: `[a-z][a-z0-9-]{0,62}\Z`
unfoldable pub group_pattern : Text → Bool
unfolding full_match is_lower is_name_char
group_pattern = full_match is_lower is_name_char 62

abbrev pub ordinary_certificate_lifetime : ℕ
ordinary_certificate_lifetime = 25 * 60 * 60

-- The keys of ORDINARY_EXTENSION_FLAGS, which are ORDINARY_CERTIFICATE_EXTENSIONS.
abbrev pub ordinary_certificate_extensions : List Text
ordinary_certificate_extensions =
    codes "pty"
    ∷ codes "agent-forwarding"
    ∷ codes "port-forwarding"
    ∷ codes "x11-forwarding"
    ∷ codes "user-rc"
    ∷ []

-- PolicyValidationError, one constructor for each message.
pub data PolicyError : Type 0 where
  username_not_canonical group_not_canonical principals_malformed principals_duplicate : PolicyError

-- `str(exc)`
unfoldable pub message : PolicyError → Text
message username_not_canonical = codes "username is not canonical"
message group_not_canonical = codes "group name is not canonical"
message principals_malformed = codes "certificate principals are malformed"
message principals_duplicate = codes "certificate principals contain duplicates"

unfoldable pub validate_username : Value → Result PolicyError Text
validate_username (str_value s) = if username_pattern s then ok s else err username_not_canonical
validate_username _ = err username_not_canonical

unfoldable pub validate_group_name : Value → Result PolicyError Text
validate_group_name (str_value s) = if group_pattern s then ok s else err group_not_canonical
validate_group_name _ = err group_not_canonical

abbrev pub group_prefix : Text
group_prefix = codes "group:"

-- The values as strings, unless one of them is none.
unfoldable pub strings : List Value → Option (List Text)
strings [] = some []
strings (str_value s ∷ vs) = elim (strings vs) [ none ↦ none | some ss ↦ some (s ∷ ss) ]
strings (_ ∷ vs) = none

-- The loop over `value[1:]`.
unfoldable pub validate_group_principals : List Text → Result PolicyError (Unit {0})
validate_group_principals [] = ok tt
validate_group_principals (p ∷ ps) = do
  raise_if (not (starts_with p group_prefix)) principals_malformed
  validate_group_name (str_value (remove_prefix p group_prefix))
  validate_group_principals ps

-- The `except` clause: only a message about principals passes through.
unfoldable pub principals_error : PolicyError → PolicyError
unfolding message starts_with
principals_error e =
    if starts_with (message e) (codes "certificate principals") then e else principals_malformed

-- The checks of `validate_principals` on a non-empty tuple of strings.
unfoldable pub validate_strings : List Text → Result PolicyError (List Text)
unfolding principals_error
validate_strings [] = err principals_malformed
validate_strings (p ∷ ps) = do
  raise_if (not (distinct (p ∷ ps))) principals_duplicate
  map_err principals_error (validate_username (str_value p) >> validate_group_principals ps)
  ok (p ∷ ps)

unfoldable pub validate_principals : Object → Result PolicyError (List Text)
unfolding strings validate_strings
validate_principals (scalar v) = err principals_malformed
validate_principals (tuple_value vs) = elim (strings vs) [
  | none ↦ err principals_malformed
  | some ps ↦ validate_strings ps
]

abbrev pub group_principal : Text → Text
group_principal g = group_prefix ++ g

unfoldable pub build_principals : Value → List Value → Result PolicyError (List Text)
unfolding validate_username validate_group_name validate_principals traverse
build_principals username groups = do
  canonical_username ← validate_username username
  canonical_groups ← traverse validate_group_name groups
  validate_principals
      (tuple_value (map str_value (canonical_username ∷ map group_principal canonical_groups)))
