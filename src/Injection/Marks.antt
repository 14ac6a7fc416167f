-- ===== src/Injection/Marks.antt =====
-- What the tests of `_is_owned` in src/ski/injection.py say of an entry, in both directions.
use mathlib.Core.Path.{subst}
use server_key_injection.Base.{
  equality_laws, ℕ, ◌+◌, ◌≡◌, refl, ap, ◌∙◌, true, false, Option, none, some, List, [], ◌∷◌, ◌++◌,
  map, Result, ok, err, arith, nat_eq, list_eq, option_eq, beq_refl, Option-cases, inl, inr, ◌⊎◌,
  All, IsDistinct, list_beq_iff,
}
use server_key_injection.Base.Int.{pos, negsuc}
use server_key_injection.Base.Decimal.{print_ℕ}
use server_key_injection.Policy.Shape.{ArePrincipals}
use server_key_injection.Base.Text.{Text, codes}
use server_key_injection.Policy.Values.{
  Value, Object, none_value, bool_value, int_value, str_value, bytes_value, other_value,
  tuple_value, value_eq, value_beq_iff,
}
use server_key_injection.Policy.{
  validate_principals, group_principal, username_pattern, group_pattern,
}
use server_key_injection.Policy.Laws.{accept_tuple, validate_principals_iff}
use server_key_injection.State.Records.{CaKeyRecord}
use server_key_injection.Issuance.{IdentitySnapshot}
use server_key_injection.Injection.Adapter.{
  PairView, CertificateView, owned_view, print_serial, first_is, view_owned,
}

-- The text that Python prints for an int, of which a bool is one.
pub data IsNumeral : Value → Text → Type 0 where
  natural : (n : ℕ) → IsNumeral (int_value (pos n)) (print_ℕ n)
  negative : (n : ℕ) → IsNumeral (int_value (negsuc n)) (45 ∷ print_ℕ (n + 1))
  truth : IsNumeral (bool_value true) (codes "True")
  falsehood : IsNumeral (bool_value false) (codes "False")

-- What an owned entry shows: a certificate of the CA for the identity, whose principals are the
-- identity's name and distinct canonical groups, and the comment that marks its serial.
pub record IsOwned (active_ca : CaKeyRecord) (identity : IdentitySnapshot) (view : PairView)
    : Type 0 where
  pub certificate : CertificateView
  pub groups : List Text
  pub serial : Text
  pub certified : view.certificate ≡ some certificate
  pub key_id : certificate.key_id ≡ str_value identity.username
  pub signed : certificate.signing_key ≡ some active_ca.fingerprint
  pub principals :
      certificate.principals ≡ map str_value (identity.username ∷ map group_principal groups)
  pub canonical_user : username_pattern identity.username ≡ true
  pub canonical_groups : All (λ g. group_pattern g ≡ true) groups
  pub distinct_groups : IsDistinct groups
  pub printed : IsNumeral certificate.serial serial
  pub marked :
      view.comment
      ≡ some (
          codes "ski:"
          ++ identity.username
          ++ codes ":"
          ++ active_ca.fingerprint
          ++ codes ":"
          ++ serial)

text_of : Option Text → Text
text_of none = []
text_of (some s) = s

print_serial-IsNumeral : (v : Value) (s : Text) → print_serial v ≡ some s → IsNumeral v s
unfolding print_serial text_of
print_serial-IsNumeral (int_value (pos n)) s h = subst (IsNumeral _) (ap text_of h) (natural n)
print_serial-IsNumeral (int_value (negsuc n)) s h = subst (IsNumeral _) (ap text_of h) (negative n)
print_serial-IsNumeral (bool_value true) s h = subst (IsNumeral _) (ap text_of h) truth
print_serial-IsNumeral (bool_value false) s h = subst (IsNumeral _) (ap text_of h) falsehood
print_serial-IsNumeral none_value s h = absurd (cc)
print_serial-IsNumeral (str_value t) s h = absurd (cc)
print_serial-IsNumeral (bytes_value t) s h = absurd (cc)
print_serial-IsNumeral other_value s h = absurd (cc)

of_numeral : (v : Value) (s : Text) → IsNumeral v s → print_serial v ≡ some s
unfolding print_serial
of_numeral _ _ (natural n) = refl
of_numeral _ _ (negative n) = refl
of_numeral _ _ truth = refl
of_numeral _ _ falsehood = refl

tuple_of : Object → List Value
tuple_of (tuple_value vs) = vs
tuple_of _ = []

-- Principals that pass and begin with the name are those of that user.
first-shape :
    (vs : List Value) (ps : List Text) (username : Text)
    → validate_principals (tuple_value vs) ≡ ok ps
    → first_is ps username ≡ true
    → (groups : List Text) × (vs ≡ map str_value (username ∷ map group_principal groups))
      × ArePrincipals ps username groups
unfolding tuple_of
first-shape vs ps username accepted first =
    let (same, (user, groups, are)) = (validate_principals_iff (tuple_value vs) ps).0 accepted in
    let named : user ≡ username =
      (list_beq_iff user username).0 (subst (λ qs. first_is qs username ≡ true) are.shape first) in
    let are_named : ArePrincipals ps username groups =
      subst (λ u. ArePrincipals ps u groups) named are in
    (groups, ap tuple_of same ∙ ap (map str_value) are_named.shape, are_named)

result-cases : {E A : Type 0} (r : Result E A) → ((e : E) × r ≡ err e) ⊎ ((a : A) × r ≡ ok a)
result-cases (err e) = inl (e, refl)
result-cases (ok a) = inr (a, refl)

owned_view-true :
    (active_ca : CaKeyRecord) (identity : IdentitySnapshot) (c : CertificateView) (comment : Text)
    → owned_view active_ca identity c comment ≡ true
    → IsOwned active_ca identity (record { certificate = some c; comment = some comment })
unfolding owned_view
owned_view-true active_ca identity c comment h =
    elim (result-cases (validate_principals (tuple_value c.principals))) [
      | inl (e, refused) ↦ absurd (ground arith)
      | inr (ps, accepted) ↦ elim (Option-cases (print_serial c.serial)) [
        | inl other ↦ absurd (ground arith)
        | inr (serial, printed) ↦
            let (groups, principals, are) =
              first-shape c.principals ps identity.username accepted (ground arith) in
            record {
              certificate = c;
              groups = groups;
              serial = serial;
              certified = refl;
              key_id = ground (arith, value_beq_iff c.key_id (str_value identity.username));
              signed = grind equality_laws;
              principals = principals;
              canonical_user = are.canonical_user;
              canonical_groups = are.canonical_groups;
              distinct_groups = are.distinct_groups;
              printed = print_serial-IsNumeral c.serial serial printed;
              marked = ap some (grind equality_laws);
            }
      ]
    ]

pub view_owned-true :
    (active_ca : CaKeyRecord) (identity : IdentitySnapshot) (view : PairView)
    → view_owned active_ca identity (some view) ≡ true
    → IsOwned active_ca identity view
view_owned-true active_ca identity view h = go view.certificate view.comment h
  where
    go :
        (c : Option CertificateView) (s : Option Text)
        → view_owned active_ca identity (some (record { certificate = c; comment = s })) ≡ true
        → IsOwned active_ca identity (record { certificate = c; comment = s })
    go none s h = absurd (cc)
    go (some c) none h = absurd (cc)
    go (some c) (some s) h = owned_view-true active_ca identity c s h

pub owned_view_of :
    (active_ca : CaKeyRecord) (identity : IdentitySnapshot) (view : PairView)
    → IsOwned active_ca identity view
    → view_owned active_ca identity (some view) ≡ true
unfolding owned_view
owned_view_of active_ca identity view h =
    rw (h.certified, h.marked, h.principals)
      (rw
        (
          accept_tuple identity.username h.groups (record {
            shape = refl;
            canonical_user = h.canonical_user;
            canonical_groups = h.canonical_groups;
            distinct_groups = h.distinct_groups;
          }),
          owned_view,
        )
        (rw (
          of_numeral h.certificate.serial h.serial h.printed,
          h.key_id,
          h.signed,
          beq_refl (str_value identity.username),
          beq_refl (some active_ca.fingerprint),
          beq_refl identity.username,
          beq_refl (
              codes "ski:"
              ++ identity.username
              ++ codes ":"
              ++ active_ca.fingerprint
              ++ codes ":"
              ++ h.serial),
        )))
