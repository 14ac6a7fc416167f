-- ===== src/Identities/Steps.antt =====
-- The changes of src/ski/identities.py as steps, and the invariant of the tables they keep.
use server_key_injection.Base.{
  ◌≡◌, refl, sym, ap, ◌∙◌, Bool, true, false, not, ◌&&◌, List, [], ◌∷◌, map, filter, arith,
  contains, contains-filter, IsDistinct, All, if◌then◌else◌, ◌==◌, Eq, nat_eq, list_eq, pair_eq,
  list_beq_iff, Bool-cases, if_either, inl, inr,
}
use server_key_injection.Base.Text.{Text}
use server_key_injection.Base.Int.{pos}
use server_key_injection.Policy.Values.{int_value, str_value}
use server_key_injection.State.Issuing.{All_mono, All_snoc, contains_old, IsDistinct_snoc}
use server_key_injection.State.Refinement.{map_snoc}
use server_key_injection.Identities.Repository.{
  IdentityTables, UserRow, user_row, find_user, insert_user, Assignment, update_user, update_rows,
  assign, insert_group, remove_group, members_of, change_membership, is_some, group_exists,
  set_enabled, set_password_verifier, set_totp_secret,
}

abbrev pub names_of : List UserRow → List Text
names_of users = map (λ (r : UserRow). r.username) users

abbrev pub IsReferenced : List Text → List Text → Text × Text → Type 0
IsReferenced names groups (username, group) =
    (contains names username ≡ true) × (contains groups group ≡ true)

-- Users, groups and memberships are distinct, and memberships refer to users and groups.
pub record IsWellFormed (t : IdentityTables) : Type 0 where
  pub users : IsDistinct (names_of t.users)
  pub groups : IsDistinct t.groups
  pub memberships : IsDistinct t.memberships
  pub referenced : All (IsReferenced (names_of t.users) t.groups) t.memberships

found_name :
    (users : List UserRow) (username : Text)
    → is_some (find_user users username) ≡ contains (names_of users) username
unfolding find_user contains
found_name [] username = refl
found_name (r ∷ users) username = ground (
  arith,
  found_name users username,
  list_beq_iff r.username username,
  list_beq_iff username r.username,
)

updated_names :
    (username : Text) (a : Assignment) (users : List UserRow)
    → names_of (update_rows username a users) ≡ names_of users
unfolding update_rows
updated_names username a [] = refl
updated_names username a (r ∷ users) =
    rw (updated_names username a users)
      (ap (λ n. n ∷ names_of users) (kept a (r.username == username)))
  where
    kept : (a : Assignment) (b : Bool) → (if b then assign a r else r).username ≡ r.username
    kept (set_enabled true) true = refl
    kept (set_enabled false) true = refl
    kept (set_password_verifier v) true = refl
    kept (set_totp_secret v) true = refl
    kept a false = refl

module _ {A : Type 0} ⦃e : Eq A⦄ where
  IsDistinct_filter : (p : A → Bool) (xs : List A) → IsDistinct xs → IsDistinct (filter p xs)
  unfolding filter
  IsDistinct_filter p [] h = tt
  IsDistinct_filter p (x ∷ xs) h = ground (arith, contains-filter p xs x, IsDistinct_filter p xs)

All_filter :
    {A : Type 0} (P : A → Type 0) (p : A → Bool) (xs : List A) → All P xs → All P (filter p xs)
unfolding filter
All_filter P p [] h = tt
All_filter P p (x ∷ xs) h = elim (Bool-cases (p x)) [
  | inl kept ↦ rw kept (h.0, All_filter P p xs h.1)
  | inr dropped ↦ rw dropped (All_filter P p xs h.1)
]

-- A group without members is no membership's group.
no_member :
    (names groups : List Text) (ms : List (Text × Text)) (name : Text)
    → members_of ms name ≡ []
    → All (IsReferenced names groups) ms
    → All (IsReferenced names (filter (λ g. not (g == name)) groups)) ms
unfolding members_of
no_member names groups [] name h r = tt
no_member names groups ((u, g) ∷ ms) name h r = elim (Bool-cases (g == name)) [
  | inl same ↦ absurd (ground arith)
  | inr other ↦ (
    (r.0.0, contains-filter (λ g. not (g == name)) groups g ∙ rw (other, r.0.1)),
    no_member names groups ms name (ground arith) r.1,
  )
]

abbrev pub IsWellFormedAfter : {A : Type 0} → A × IdentityTables → Type 0
IsWellFormedAfter (_, t) = IsWellFormed t

pub insert_user-IsWellFormed :
    (u v s : Text) (t : IdentityTables) → IsWellFormed t → IsWellFormedAfter (insert_user u v s t)
unfolding insert_user
insert_user-IsWellFormed u v s t h =
    if_either IsWellFormedAfter (is_some (user_row t u)) _ _ (λ taken. h)
      λ free. record {
        users =
            rw
              (map_snoc (λ (r : UserRow). r.username) t.users
                (record {
                  username = u;
                  password_verifier = str_value v;
                  totp_secret = str_value s;
                  enabled = int_value (pos 1);
                }))
              (IsDistinct_snoc (names_of t.users) u h.users (sym (found_name t.users u) ∙ free));
        groups = h.groups;
        memberships = h.memberships;
        referenced =
            rw
              (map_snoc (λ (r : UserRow). r.username) t.users
                (record {
                  username = u;
                  password_verifier = str_value v;
                  totp_secret = str_value s;
                  enabled = int_value (pos 1);
                }))
              (All_mono _ _ t.memberships (λ m r. (contains_old (names_of t.users) u m.0 r.0, r.1))
                h.referenced);
      }

pub update_user-IsWellFormed :
    (u : Text) (a : Assignment) (t : IdentityTables)
    → IsWellFormed t
    → IsWellFormed (update_user u a t)
unfolding update_user
update_user-IsWellFormed u a t h = record {
  users = rw (updated_names u a t.users) h.users;
  groups = h.groups;
  memberships = h.memberships;
  referenced = rw (updated_names u a t.users) h.referenced;
}

pub insert_group-IsWellFormed :
    (g : Text) (t : IdentityTables) → IsWellFormed t → IsWellFormedAfter (insert_group g t)
unfolding insert_group
insert_group-IsWellFormed g t h =
    if_either IsWellFormedAfter (group_exists t g) _ _ (λ taken. h)
      λ free. record {
        users = h.users;
        groups = IsDistinct_snoc t.groups g h.groups free;
        memberships = h.memberships;
        referenced =
            All_mono _ _ t.memberships (λ m r. (r.0, contains_old t.groups g m.1 r.1)) h.referenced;
      }

pub remove_group-IsWellFormed :
    (g : Text) (t : IdentityTables) → IsWellFormed t → IsWellFormedAfter (remove_group g t)
unfolding remove_group
remove_group-IsWellFormed g t h =
    elim (members_of t.memberships g)
        as (λ ms.
          members_of t.memberships g ≡ ms
          → IsWellFormedAfter {A = Bool} (elim ms [
            | _ ∷ _ ↦ (false, t)
            | [] ↦ (contains t.groups g, record t { groups = filter (λ x. not (x == g)) t.groups })
          ])) [
            | _ ∷ _ ↦ λ _. h
            | [] ↦ λ none_. record {
              users = h.users;
              groups = IsDistinct_filter _ t.groups h.groups;
              memberships = h.memberships;
              referenced = no_member (names_of t.users) t.groups t.memberships g none_ h.referenced;
            }
          ]
      refl

pub change_membership-IsWellFormed :
    (g u : Text) (add : Bool) (t : IdentityTables)
    → IsWellFormed t
    → IsWellFormedAfter (change_membership g u add t)
unfolding change_membership
change_membership-IsWellFormed g u true t h =
    if_either IsWellFormedAfter (not (group_exists t g && is_some (user_row t u))) _ _ (λ absent. h)
      λ there.
        if_either IsWellFormedAfter (contains t.memberships (u, g)) _ _ (λ taken. h)
          λ free. record {
            users = h.users;
            groups = h.groups;
            memberships = IsDistinct_snoc t.memberships (u, g) h.memberships free;
            referenced =
                All_snoc _ t.memberships (u, g) h.referenced
                  (ground (arith, found_name t.users u), ground arith);
          }
change_membership-IsWellFormed g u false t h =
    if_either IsWellFormedAfter (not (group_exists t g && is_some (user_row t u))) _ _ (λ absent. h)
      λ there. record {
        users = h.users;
        groups = h.groups;
        memberships = IsDistinct_filter _ t.memberships h.memberships;
        referenced = All_filter _ _ t.memberships h.referenced;
      }
