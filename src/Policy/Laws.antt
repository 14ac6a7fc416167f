-- ===== src/Policy/Laws.antt =====
-- What `build_principals` and `validate_principals` of src/ski/policy.py accept.
use mathlib.Core.Path.{subst}
use server_key_injection.Base.{
  ◌∙◌, sym, >>=-eq-ok, ◌≡◌, refl, ap, ◌↔◌, inl, inr, true, List, [], ◌∷◌, map, arith, ok, traverse,
  All, Option-cases, list_eq, nat_eq,
}
use server_key_injection.Base.Text.{Text}
use server_key_injection.Policy.Shape.{
  ArePrincipals, strings-map, strings-eq-some, accept_strings, accepted_strings, distinct_names,
}
use server_key_injection.Policy.Values.{Value, str_value, Object, tuple_value, scalar}
use server_key_injection.Policy.{
  username_pattern, group_pattern, validate_username, validate_group_name, group_principal, strings,
  validate_strings, validate_principals, build_principals,
}

pub accept_tuple :
    {ps : List Text} (user : Text) (groups : List Text)
    → ArePrincipals ps user groups
    → validate_principals (tuple_value (map str_value ps)) ≡ ok ps
unfolding validate_principals
accept_tuple {ps} user groups are =
    rw (strings-map ps, validate_principals) (accept_strings user groups are)

-- A value passes `validate_principals` exactly when it is a tuple of strings that are the
-- principals of a canonical user in distinct canonical groups, and then it is returned unchanged.
pub validate_principals_iff :
    (value : Object) (ps : List Text)
    → (validate_principals value ≡ ok ps) ↔ (
        (value ≡ tuple_value (map str_value ps))
        × ((user : Text) × (groups : List Text) × ArePrincipals ps user groups))
unfolding validate_principals
validate_principals_iff (scalar v) ps = (λ h. absurd (cc), λ h. absurd (cc h.0))
validate_principals_iff (tuple_value vs) ps = (accepted, complete)
  where
    accepted :
        validate_principals (tuple_value vs) ≡ ok ps
        → (tuple_value vs ≡ tuple_value (map str_value ps))
          × ((user : Text) × (groups : List Text) × ArePrincipals ps user groups)
    accepted h = elim (Option-cases (strings vs)) [
      | inl e ↦ absurd (ground arith)
      | inr (ss, e) ↦
          let k : validate_strings ss ≡ ok ps = ground arith in
          let (same, (user, groups, are)) = accepted_strings ss k in
          (
            ap tuple_value (strings-eq-some vs e ∙ ap (map str_value) (sym same)),
            (user, groups, subst (λ qs. ArePrincipals qs user groups) (sym same) are),
          )
    ]

    complete :
        (tuple_value vs ≡ tuple_value (map str_value ps))
          × ((user : Text) × (groups : List Text) × ArePrincipals ps user groups)
        → validate_principals (tuple_value vs) ≡ ok ps
    complete (e, (user, groups, are)) = rw e (accept_tuple user groups are)

traverse-map :
    (groups : List Text)
    → All (λ g. group_pattern g ≡ true) groups
    → traverse validate_group_name (map str_value groups) ≡ ok groups
unfolding traverse validate_group_name
traverse-map [] h = refl
traverse-map (g ∷ groups) h = ground (arith, h.0, traverse-map groups h.1)

validate_group_name-eq-ok :
    (v : Value) {g : Text}
    → validate_group_name v ≡ ok g
    → (v ≡ str_value g) × (group_pattern g ≡ true)
unfolding validate_group_name
validate_group_name-eq-ok (str_value s) h = ground arith
validate_group_name-eq-ok _ h = absurd (cc)

pub validate_username-eq-ok :
    (v : Value) {u : Text}
    → validate_username v ≡ ok u
    → (v ≡ str_value u) × (username_pattern u ≡ true)
unfolding validate_username
validate_username-eq-ok (str_value s) h = ground arith
validate_username-eq-ok _ h = absurd (cc)

traverse-eq-ok :
    (vs : List Value) {groups : List Text}
    → traverse validate_group_name vs ≡ ok groups
    → (vs ≡ map str_value groups) × All (λ g. group_pattern g ≡ true) groups
unfolding traverse
traverse-eq-ok [] {groups} h =
    let same : [] ≡ groups = cc in
    subst (λ gs. ([] ≡ map str_value gs) × All (λ g. group_pattern g ≡ true) gs) same (refl, tt)
traverse-eq-ok (v ∷ vs) {groups} h =
    let (g, eg, h') = >>=-eq-ok (validate_group_name v) _ h in
    let (rest, er, h'') = >>=-eq-ok (traverse validate_group_name vs) _ h' in
    let (shape, canonical) = validate_group_name-eq-ok v eg in
    let (shapes, canonicals) = traverse-eq-ok vs {groups = rest} er in
    let same : (g ∷ rest) ≡ groups = cc in
    subst (λ gs. (v ∷ vs ≡ map str_value gs) × All (λ g. group_pattern g ≡ true) gs) same
      (cc (shape, shapes), (canonical, canonicals))

built_names :
    (user : Text) (names : List Text) {ps : List Text}
    → username_pattern user ≡ true
    → All (λ g. group_pattern g ≡ true) names
    → validate_principals (tuple_value (map str_value (user ∷ map group_principal names))) ≡ ok ps
    → ArePrincipals ps user names
unfolding validate_principals
built_names user names {ps} u n h =
    let raw : List Text = user ∷ map group_principal names in
    let k : validate_strings raw ≡ ok ps = rw (strings-map raw, validate_principals) at h in
    let (shape, d) = distinct_names user names k in
    record { shape = shape; canonical_user = u; canonical_groups = n; distinct_groups = d }

pub build_principals-eq-ok :
    (username : Value) (groups : List Value) {ps : List Text}
    → build_principals username groups ≡ ok ps
    → (user : Text) × (names : List Text) × (username ≡ str_value user)
      × (groups ≡ map str_value names)
      × ArePrincipals ps user names
unfolding build_principals
build_principals-eq-ok username groups h =
    let (user, eu, h') = >>=-eq-ok (validate_username username) _ h in
    let (names, en, k) = >>=-eq-ok (traverse validate_group_name groups) _ h' in
    let (u_shape, u) = validate_username-eq-ok username eu in
    let (n_shape, n) = traverse-eq-ok groups en in
    (user, names, u_shape, n_shape, built_names user names u n k)

pub build_principals_of :
    {ps : List Text} (user : Text) (names : List Text)
    → ArePrincipals ps user names
    → build_principals (str_value user) (map str_value names) ≡ ok ps
unfolding build_principals validate_username
build_principals_of {ps} user names are =
    rw (are.canonical_user, traverse-map names are.canonical_groups)
      (sym (ap (λ qs. validate_principals (tuple_value (map str_value qs))) are.shape)
        ∙ accept_tuple user names are)

-- `build_principals` succeeds exactly on a canonical username and distinct canonical group names,
-- and gives the username followed by each group behind the prefix `group:`, in order.
pub build_principals_iff :
    (username : Value) (groups : List Value) (ps : List Text)
    → (build_principals username groups ≡ ok ps) ↔ (
        (user : Text) × (names : List Text) × (username ≡ str_value user)
        × (groups ≡ map str_value names)
        × ArePrincipals ps user names)
build_principals_iff username groups ps = (
  build_principals-eq-ok username groups,
  λ (user, names, eu, en, are). rw (eu, en) (build_principals_of user names are),
)
