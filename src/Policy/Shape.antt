-- ===== src/Policy/Shape.antt =====
-- Group principals and canonical names as strings: the shape that src/ski/policy.py accepts.
use server_key_injection.Base.{
  ◌≡◌, refl, ◌↔◌, inl, inr, true, false, some, List, [], ◌∷◌, map, arith, ok, distinct, contains,
  IsDistinct, All, Bool-cases, Option-cases, IsDistinct_of_distinct, distinct_of_IsDistinct,
  list_eq, nat_eq, all,
}
use server_key_injection.Base.Text.{
  text_eq_iff, Text, strip_prefix, starts_with, remove_prefix, strip_prefix-append,
  strip_prefix-eq-some,
}
use server_key_injection.Policy.Values.{Value, str_value}
use server_key_injection.Policy.{
  username_pattern, group_pattern, validate_username, validate_group_name, group_prefix,
  group_principal, strings, validate_group_principals, validate_strings,
}

-- The principals of a canonical user in canonical, distinct groups.
pub record ArePrincipals (ps : List Text) (user : Text) (groups : List Text) : Type 0 where
  pub shape : ps ≡ user ∷ map group_principal groups
  pub canonical_user : username_pattern user ≡ true
  pub canonical_groups : All (λ g. group_pattern g ≡ true) groups
  pub distinct_groups : IsDistinct groups

pub strings-map : (ss : List Text) → strings (map str_value ss) ≡ some ss
unfolding strings
strings-map [] = refl
strings-map (s ∷ ss) = rw (strings-map ss)

pub strings-eq-some :
    (vs : List Value) {ss : List Text} → strings vs ≡ some ss → vs ≡ map str_value ss
unfolding strings
strings-eq-some [] h = ground arith
strings-eq-some (str_value s ∷ vs) {ss} h = elim (Option-cases (strings vs)) [
  | inl e ↦ ground arith
  | inr (rest, e) ↦ ground (arith, strings-eq-some vs {ss = rest} e)
]
strings-eq-some (_ ∷ vs) h = cc

-- A canonical username is no group principal: it has no colon.
username-ne-group : (u g : Text) → username_pattern u ≡ true → u ≡ group_principal g → ⊥
unfolding username_pattern all
username-ne-group u g h e =
    let k : username_pattern (group_principal g) ≡ true = rw e at h in ground arith

pub contains-map :
    (gs : List Text) (g : Text)
    → contains (map group_principal gs) (group_principal g) ≡ contains gs g
unfolding contains
contains-map [] g = refl
contains-map (k ∷ gs) g =
    ground (
      arith,
      contains-map gs g,
      text_eq_iff g k,
      text_eq_iff (group_principal g) (group_principal k),
    )

pub contains-map_user :
    (gs : List Text) (u : Text)
    → username_pattern u ≡ true
    → contains (map group_principal gs) u ≡ false
unfolding contains
contains-map_user [] u h = refl
contains-map_user (g ∷ gs) u h =
    ground
      (arith, contains-map_user gs u h, text_eq_iff u (group_principal g), username-ne-group u g h)

pub IsDistinct-map : (gs : List Text) → IsDistinct gs ↔ IsDistinct (map group_principal gs)
IsDistinct-map [] = (λ h. h, λ h. h)
IsDistinct-map (g ∷ gs) =
    let (f, b) = IsDistinct-map gs in
    (λ h. (rw (contains-map gs g) h.0, f h.1), λ h. (rw (contains-map gs g) at h.0, b h.1))

accepted_groups :
    (ps : List Text)
    → validate_group_principals ps ≡ ok tt
    → (gs : List Text) × (ps ≡ map group_principal gs) × All (λ g. group_pattern g ≡ true) gs
unfolding validate_group_principals validate_group_name starts_with remove_prefix
accepted_groups [] h = ([], refl, tt)
accepted_groups (p ∷ ps) h = elim (Option-cases (strip_prefix group_prefix p)) [
  | inl e ↦ absurd (ground arith)
  | inr (g, e) ↦ elim (Bool-cases (group_pattern g)) [
    | inl canonical ↦
        let k : validate_group_principals ps ≡ ok tt = ground arith in
        let (gs, shape, rest) = accepted_groups ps k in
        (g ∷ gs, cc (strip_prefix-eq-some group_prefix p e), (canonical, rest))
    | inr other ↦ absurd (ground arith)
  ]
]

pub accept_groups :
    (gs : List Text)
    → All (λ g. group_pattern g ≡ true) gs
    → validate_group_principals (map group_principal gs) ≡ ok tt
unfolding validate_group_principals validate_group_name starts_with remove_prefix
accept_groups [] h = refl
accept_groups (g ∷ gs) h = ground (arith, strip_prefix-append group_prefix g, accept_groups gs h.1)

pub accept_strings :
    {ps : List Text} (user : Text) (groups : List Text)
    → ArePrincipals ps user groups
    → validate_strings ps ≡ ok ps
unfolding validate_strings validate_username
accept_strings user groups h = rw h.shape (
    ground (
      arith,
      accept_groups groups h.canonical_groups,
      distinct_of_IsDistinct (user ∷ map group_principal groups) (
        contains-map_user groups user h.canonical_user,
        (IsDistinct-map groups).0 h.distinct_groups,
      ),
      h.canonical_user,
    ))

pub accepted_strings :
    (ps : List Text) {qs : List Text}
    → validate_strings ps ≡ ok qs
    → (qs ≡ ps) × ((user : Text) × (groups : List Text) × ArePrincipals ps user groups)
unfolding validate_strings validate_username
accepted_strings [] h = absurd (cc)
accepted_strings (p ∷ ps) h = elim (Bool-cases (distinct (p ∷ ps))) [
  | inr d ↦ absurd (ground arith)
  | inl d ↦ elim (Bool-cases (username_pattern p)) [
    | inr u ↦ absurd (ground arith)
    | inl u ↦
        let k : validate_group_principals ps ≡ ok tt = ground arith in
        let (gs, shape, canonical) = accepted_groups ps k in
        (
          ground arith,
          (
            p,
            gs,
            record {
              shape = cc;
              canonical_user = u;
              canonical_groups = canonical;
              distinct_groups =
                  (IsDistinct-map gs).1 (rw shape at (IsDistinct_of_distinct (p ∷ ps) d).1);
            },
          ),
        )
  ]
]

pub distinct_names :
    (user : Text) (names : List Text) {ps : List Text}
    → validate_strings (user ∷ map group_principal names) ≡ ok ps
    → (ps ≡ user ∷ map group_principal names) × IsDistinct names
unfolding validate_strings
distinct_names user names h = elim (Bool-cases (distinct (user ∷ map group_principal names))) [
  | inr d ↦ absurd (ground arith)
  | inl d ↦ (
    let (same, _) = accepted_strings (user ∷ map group_principal names) h in same,
    (IsDistinct-map names).1 (IsDistinct_of_distinct (user ∷ map group_principal names) d).1,
  )
]
