-- ===== src/Host/Policy/Laws.antt =====
-- What a host policy that policy.py accepts is sure to say.
use Prim.Native.Nat.{bit_and}
use mathlib.Core.Path.{subst}
use server_key_injection.Base.{
  ℕ, nat_beq_iff, ◌≡◌, refl, ◌∙◌, sym, true, Option, none, some, List, [], ◌∷◌, Result, ok, err,
  contains, distinct, IsDistinct, IsDistinct_of_distinct, IsSorted, sorted, sorted-IsSorted,
  sorted-IsDistinct, contains-sorted, Bool-cases, Option-cases, inl, inr, arith, >>=-eq-ok,
  require-eq-ok, list_beq_iff, ◌==◌, list_eq, nat_eq,
}
use server_key_injection.Base.Text.{Text, codes}
use server_key_injection.Host.Policy.{
  PolicyError, HostPolicy, Toml, string, array, table, Tomls, empty, item, lookup, policy_keys,
  has_keys, group_strings, group_principal_pattern, fingerprint_pattern, read_fingerprint,
  read_groups, read_self_login, read_section, read_document, load_policy, FileStatus,
  read_protected_text, schema_unsupported, not_regular, ownership_unsafe, permissions_unsafe,
  group_or_other_write, parse_policy,
}

group_strings-canonical :
    (ts : Tomls) {groups : List Text}
    → group_strings ts ≡ some groups
    → (k : Text) → contains groups k ≡ true
    → group_principal_pattern k ≡ true
unfolding group_strings contains
group_strings-canonical empty h k e = ground arith
group_strings-canonical (item (string s) ts) h k e = elim (Option-cases (group_strings ts)) [
  | inl n ↦ ground arith
  | inr (rest, r) ↦ ground (arith, list_beq_iff k s, group_strings-canonical ts {groups = rest} r k)
]
group_strings-canonical (item _ ts) h k e = cc

fingerprint-canonical :
    (t : Option Toml) {s : Text} → read_fingerprint t ≡ ok s → fingerprint_pattern s ≡ true
unfolding read_fingerprint
fingerprint-canonical (some (string s)) h = ground arith
fingerprint-canonical none h = cc
fingerprint-canonical (some _) h = cc

groups-canonical :
    (t : Option Toml) {groups : List Text}
    → read_groups t ≡ ok groups
    → IsDistinct groups × ((k : Text) → contains groups k ≡ true → group_principal_pattern k ≡ true)
unfolding read_groups
groups-canonical (some (array ts)) {groups} h = elim (Option-cases (group_strings ts)) [
  | inl n ↦ absurd (ground arith)
  | inr (gs, e) ↦ elim (Bool-cases (distinct gs)) [
    | inr d ↦ absurd (ground arith)
    | inl d ↦
        let same : gs ≡ groups = ground arith in
        (rw same at (IsDistinct_of_distinct gs d), rw same at (group_strings-canonical ts e))
  ]
]
groups-canonical none h = absurd (cc)
groups-canonical (some _) h = absurd (cc)

pub record IsStrict (policy : HostPolicy) : Type 0 where
  pub self_login : policy.allow_self_login_only ≡ true
  pub fingerprint : fingerprint_pattern policy.trusted_ca_fingerprint ≡ true
  pub groups :
      (k : Text) → contains policy.allowed_groups k ≡ true → group_principal_pattern k ≡ true
  pub distinct_groups : IsDistinct policy.allowed_groups
  pub sorted_groups : IsSorted policy.allowed_groups

IsStrict-fields :
    (fingerprint : Text) (groups : List Text)
    → fingerprint_pattern fingerprint ≡ true
    → (IsDistinct groups
        × ((k : Text) → contains groups k ≡ true → group_principal_pattern k ≡ true))
    → IsStrict (record {
      trusted_ca_fingerprint = fingerprint;
      allowed_groups = sorted groups;
      allow_self_login_only = true;
    })
IsStrict-fields fingerprint groups f g = record {
  self_login = refl;
  fingerprint = f;
  groups = λ k e. g.1 k (sym (contains-sorted groups k) ∙ e);
  distinct_groups = sorted-IsDistinct groups g.0;
  sorted_groups = sorted-IsSorted groups;
}

abbrev Result-strict : Result PolicyError HostPolicy → Type 0
Result-strict (ok policy) = IsStrict policy
Result-strict (err e) = Unit

-- What the checks on the opened file ask for.
pub record IsProtected (status : FileStatus) (owner : ℕ) : Type 0 where
  pub regular : status.regular ≡ true
  pub owned : status.uid ≡ owner
  pub unwritable : bit_and status.mode group_or_other_write ≡ 0

IsProtected-file :
    (file : Option FileStatus) (owner : ℕ) {document : Text}
    → read_protected_text file owner ≡ ok document
    → (status : FileStatus) × (file ≡ some status) × IsProtected status owner
unfolding read_protected_text
IsProtected-file none owner h = absurd (cc)
IsProtected-file (some status) owner h =
    let (regular, h1) = require-eq-ok status.regular not_regular _ h in
    let (owned, h2) = require-eq-ok (status.uid == owner) ownership_unsafe _ h1 in
    let (unwritable, h3) =
      require-eq-ok (bit_and status.mode group_or_other_write == 0) permissions_unsafe _ h2 in
    (
      status,
      refl,
      record {
        regular = regular;
        owned = (nat_beq_iff _ _).0 owned;
        unwritable = (nat_beq_iff _ _).0 unwritable;
      },
    )

read_section-IsStrict :
    (t : Option Toml) (policy : HostPolicy) → read_section t ≡ ok policy → IsStrict policy
unfolding read_section
read_section-IsStrict (some (table section)) policy h =
    let (_, h1) = require-eq-ok (has_keys section policy_keys) schema_unsupported _ h in
    let (fingerprint, f, h2) =
      >>=-eq-ok (read_fingerprint (lookup (codes "trusted_ca_fingerprint") section)) _ h1 in
    let (groups, g, h3) = >>=-eq-ok (read_groups (lookup (codes "allowed_groups") section)) _ h2 in
    let (_, _, h4) =
      >>=-eq-ok (read_self_login (lookup (codes "allow_self_login_only") section)) _ h3 in
    subst (Result-strict) h4
      (IsStrict-fields fingerprint groups (fingerprint-canonical _ f) (groups-canonical _ g))
read_section-IsStrict none policy h = absurd (cc)
read_section-IsStrict (some _) policy h = absurd (cc)

read_document-IsStrict :
    (document : Option Toml) (policy : HostPolicy)
    → read_document document ≡ ok policy
    → IsStrict policy
unfolding read_document
read_document-IsStrict (some (table raw)) policy h =
    read_section-IsStrict (lookup (codes "ssh") raw) policy
      (require-eq-ok (has_keys raw (codes "ssh" ∷ [])) schema_unsupported _ h).1
read_document-IsStrict none policy h = absurd (cc)
read_document-IsStrict (some _) policy h = absurd (cc)

-- A policy that is loaded comes from a regular file of the expected owner that neither its group nor
-- others can write, and it demands self-login, names a well-formed fingerprint, and allows canonical
-- group principals only, sorted and without a duplicate.
pub load_policy-IsStrict :
    (loads : Text → Option Toml) (file : Option FileStatus) (owner : ℕ) (policy : HostPolicy)
    → load_policy loads file owner ≡ ok policy
    → IsStrict policy × ((status : FileStatus) × (file ≡ some status) × IsProtected status owner)
unfolding load_policy parse_policy
load_policy-IsStrict loads file owner policy h =
    let (document, read, h1) = >>=-eq-ok (read_protected_text file owner) _ h in
    (read_document-IsStrict (loads document) policy h1, IsProtected-file file owner read)
