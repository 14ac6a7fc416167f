-- ===== src/Host/Policy.antt =====
-- packages/ski-authorize/src/ski_authorize/policy.py: the protected file, and the strict reading of
-- the TOML document that it holds. `tomllib.loads` is the parameter `loads`.
pub mod Laws
use Prim.Native.Nat.{bit_and}
use server_key_injection.Base.{
  ℕ, Bool, true, false, not, ◌&&◌, ◌||◌, Option, none, some, List, [], ◌∷◌, Result, ok, err, ◌>>=◌,
  ◌>>◌, raise_if, all, contains, distinct, length, sorted, if◌then◌else◌, Eq, ◌==◌, nat_eq, list_eq,
}
use server_key_injection.Base.Text.{Text, codes, strip_prefix}
use server_key_injection.Base.Pattern.{is_lower, is_upper, is_digit, is_name_char, full_match}

-- PolicyError, one constructor for each message.
pub data PolicyError : Type 0 where
  unavailable not_regular ownership_unsafe permissions_unsafe unreadable : PolicyError
  malformed schema_unsupported fingerprint_malformed groups_malformed : PolicyError
  groups_duplicates self_login_required : PolicyError

pub record HostPolicy : Type 0 where
  pub trusted_ca_fingerprint : Text
  pub allowed_groups : List Text
  pub allow_self_login_only : Bool

-- What `os.fstat` says of an opened file; `text` is its content, if it can be read as UTF-8.
pub record FileStatus : Type 0 where
  pub regular : Bool
  pub uid : ℕ
  pub mode : ℕ
  pub text : Option Text

-- `S_IWGRP | S_IWOTH`
abbrev pub group_or_other_write : ℕ
group_or_other_write = 0o22

-- `_read_protected_text`, of the file that `os.open` gives with `O_NOFOLLOW`, or of none.
unfoldable pub read_protected_text : Option FileStatus → ℕ → Result PolicyError Text
read_protected_text none owner = err unavailable
read_protected_text (some file) owner = do
  raise_if (not file.regular) not_regular
  raise_if (not (file.uid == owner)) ownership_unsafe
  raise_if (not (bit_and file.mode group_or_other_write == 0)) permissions_unsafe
  elim file.text [ none ↦ err unreadable | some text ↦ ok text ]

-- A parsed TOML value.
mutual
  pub data Toml : Type 0 where
    string : Text → Toml
    boolean : Bool → Toml
    array : Tomls → Toml
    table : Entries → Toml
    other_toml : Toml

  pub data Tomls : Type 0 where
    empty : Tomls
    item : Toml → Tomls → Tomls

  pub data Entries : Type 0 where
    end : Entries
    entry : Text → Toml → Entries → Entries

unfoldable pub keys : Entries → List Text
keys end = []
keys (entry k v es) = k ∷ keys es

unfoldable pub lookup : Text → Entries → Option Toml
lookup k end = none
lookup k (entry j v es) = if j == k then some v else lookup k es

unfoldable pub has_keys : Entries → List Text → Bool
unfolding keys
has_keys es ks = all (contains ks) (keys es) && all (contains (keys es)) ks

abbrev pub policy_keys : List Text
policy_keys =
    codes "trusted_ca_fingerprint" ∷ codes "allowed_groups" ∷ codes "allow_self_login_only" ∷ []

-- `[A-Za-z0-9+/]`
unfoldable pub is_base64_char : ℕ → Bool
unfolding is_lower is_upper is_digit
is_base64_char c = is_upper c || is_lower c || is_digit c || c == b'+' || c == b'/'

-- `SHA256:[A-Za-z0-9+/]{43}\Z`
unfoldable pub fingerprint_pattern : Text → Bool
unfolding strip_prefix is_base64_char
fingerprint_pattern s = elim (strip_prefix (codes "SHA256:") s) [
  | none ↦ false
  | some rest ↦ all is_base64_char rest && length rest == 43
]

-- `group:[a-z][a-z0-9-]{0,62}\Z`
unfoldable pub group_principal_pattern : Text → Bool
unfolding strip_prefix full_match is_lower is_name_char
group_principal_pattern s = elim (strip_prefix (codes "group:") s) [
  | none ↦ false
  | some name ↦ full_match is_lower is_name_char 62 name
]

-- The items as group principals, unless one of them is no string or does not match.
unfoldable pub group_strings : Tomls → Option (List Text)
group_strings empty = some []
group_strings (item (string s) ts) =
    if group_principal_pattern s
    then (elim (group_strings ts) [ none ↦ none | some ss ↦ some (s ∷ ss) ])
    else none
group_strings (item _ ts) = none

unfoldable pub read_fingerprint : Option Toml → Result PolicyError Text
read_fingerprint (some (string s)) =
    if fingerprint_pattern s then ok s else err fingerprint_malformed
read_fingerprint _ = err fingerprint_malformed

unfoldable pub read_groups : Option Toml → Result PolicyError (List Text)
unfolding group_strings
read_groups (some (array ts)) = elim (group_strings ts) [
  | none ↦ err groups_malformed
  | some groups ↦ if distinct groups then ok groups else err groups_duplicates
]
read_groups _ = err groups_malformed

unfoldable pub read_self_login : Option Toml → Result PolicyError (Unit {0})
read_self_login (some (boolean true)) = ok tt
read_self_login _ = err self_login_required

-- The checks of the `[ssh]` section.
unfoldable pub read_section : Option Toml → Result PolicyError HostPolicy
unfolding has_keys lookup read_fingerprint read_groups read_self_login
read_section (some (table section)) = do
  raise_if (not (has_keys section policy_keys)) schema_unsupported
  fingerprint ← read_fingerprint (lookup (codes "trusted_ca_fingerprint") section)
  allowed_groups ← read_groups (lookup (codes "allowed_groups") section)
  read_self_login (lookup (codes "allow_self_login_only") section)
  ok (record {
    trusted_ca_fingerprint = fingerprint;
    allowed_groups = sorted allowed_groups;
    allow_self_login_only = true;
  })
read_section _ = err schema_unsupported

unfoldable pub read_document : Option Toml → Result PolicyError HostPolicy
unfolding read_section
read_document none = err malformed
read_document (some (table raw)) = do
  raise_if (not (has_keys raw (codes "ssh" ∷ []))) schema_unsupported
  read_section (lookup (codes "ssh") raw)
read_document (some _) = err schema_unsupported

module _ (loads : Text → Option Toml) where
  -- `_parse_policy`
  unfoldable pub parse_policy : Text → Result PolicyError HostPolicy
  unfolding read_document
  parse_policy document = read_document (loads document)

  unfoldable pub load_policy : Option FileStatus → ℕ → Result PolicyError HostPolicy
  unfolding read_protected_text parse_policy
  load_policy file owner = read_protected_text file owner >>= parse_policy
