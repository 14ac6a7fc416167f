-- ===== src/Injection/Ownership.antt =====
-- Which agent entries `_is_owned` of src/ski/injection.py accepts.
use server_key_injection.Base.{
  ◌≡◌, sym, ap, ◌∙◌, true, some, List, ◌∷◌, map, ok, arith, nat_eq, list_eq, option_eq, beq_refl,
  Option-cases, inl, inr, ◌↔◌,
}
use server_key_injection.Base.Int.{pos}
use server_key_injection.Base.Text.{Text}
use server_key_injection.Policy.Values.{int_value, str_value, value_eq}
use server_key_injection.Policy.{group_principal}
use server_key_injection.Policy.Laws.{accept_tuple}
use server_key_injection.State.Records.{CaKeyRecord}
use server_key_injection.Issuance.{
  IdentitySnapshot, OrdinaryIdentity, CertificateRequest, Factory, Supply, issue, marker,
}
use server_key_injection.Issuance.Laws.{IsCredential, issue-IsCredential}
use server_key_injection.Injection.Adapter.{
  Agent, PairView, is_owned, owned_view, print_serial, first_is, view_owned,
}
use server_key_injection.Injection.Marks.{IsOwned, view_owned-true, owned_view_of}

-- What an agent shows of an entry that holds a credential signed by the CA.
abbrev pub shown :
    {Key Certificate : Type 0} → CaKeyRecord → OrdinaryIdentity Key Certificate → PairView
shown active_ca credential = record {
  certificate = some (record {
    serial = int_value (pos credential.serial);
    key_id = str_value credential.key_id;
    signing_key = some active_ca.fingerprint;
    principals = map str_value credential.principals;
  });
  comment = some credential.comment;
}

first_of :
    (ps : List Text) (user : Text) (rest : List Text) → ps ≡ user ∷ rest → first_is ps user ≡ true
first_of ps user rest h = rw h (beq_refl user)

owned_shown :
    {Key Certificate : Type 0} (sign : CertificateRequest Key → Certificate) (factory : Factory)
    (supply : Supply Key) (identity : IdentitySnapshot)
    (credential : OrdinaryIdentity Key Certificate)
    → IsCredential sign factory supply identity credential
    → owned_view factory.active_ca identity
        (record {
          serial = int_value (pos credential.serial);
          key_id = str_value credential.key_id;
          signing_key = some factory.active_ca.fingerprint;
          principals = map str_value credential.principals;
        })
        credential.comment
      ≡ true
unfolding owned_view print_serial marker
owned_shown sign factory supply identity credential h =
    rw (accept_tuple identity.username identity.groups h.principals, owned_view)
      (rw (
        h.key_id,
        beq_refl (str_value identity.username),
        beq_refl (some factory.active_ca.fingerprint),
        first_of credential.principals identity.username (map group_principal identity.groups)
            h.principals.shape,
        h.comment,
        beq_refl (marker identity.username factory.active_ca.fingerprint credential.serial),
      ))

module _ {W Pair Key Certificate : Type 0} (agent : Agent W Pair Key Certificate) where
  -- `_is_owned` accepts exactly the issuer's own entries: those that show a certificate that the active
  -- CA signed for this identity, whose principals are its canonical name and distinct canonical groups
  -- behind their prefix, and whose comment marks the CA, the identity and the serial as it is printed.
  pub is_owned_iff :
      (active_ca : CaKeyRecord) (identity : IdentitySnapshot) (pair : Pair)
      → (is_owned agent active_ca identity pair ≡ true)
        ↔ ((view : PairView) × (agent.view pair ≡ some view) × IsOwned active_ca identity view)
  unfolding is_owned
  is_owned_iff active_ca identity pair = (
    λ h. elim (Option-cases (agent.view pair)) [
      | inl none_ ↦ absurd (ground (arith, ap (view_owned active_ca identity) none_))
      | inr (view, shows) ↦ (
        view,
        shows,
        view_owned-true active_ca identity view
            (sym (ap (view_owned active_ca identity) shows) ∙ h),
      )
    ],
    λ (view, shows, owned).
        ap (view_owned active_ca identity) shows ∙ owned_view_of active_ca identity view owned,
  )

module _ {W Pair Key Certificate : Type 0} (agent : Agent W Pair Key Certificate)
    (sign : CertificateRequest Key → Certificate) where
  -- An entry that shows an issued credential is owned by the identity it was issued for.
  pub issue-is_owned :
      (factory : Factory) (supply : Supply Key) (identity : IdentitySnapshot)
      (credential : OrdinaryIdentity Key Certificate) (pair : Pair)
      → issue sign factory supply identity ≡ ok credential
      → agent.view pair ≡ some (shown factory.active_ca credential)
      → is_owned agent factory.active_ca identity pair ≡ true
  unfolding is_owned
  issue-is_owned factory supply identity credential pair issued shows =
      ap (view_owned factory.active_ca identity) shows
      ∙ owned_shown sign factory supply identity credential
          (issue-IsCredential sign factory supply identity credential issued)
