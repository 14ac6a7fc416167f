-- ===== src/State/Inserted.antt =====
-- Inserts of src/ski/ca_persistence.py that succeeded, and readings of one row more.
use mathlib.Core.Path.{subst}
use server_key_injection.Base.{
  ℕ, ◌<◌, ◌≡◌, refl, sym, ap, ◌∙◌, Bool, true, false, List, [], ◌∷◌, ◌++◌, map, Result, ok, err,
  traverse, ok-injective,
}
use server_key_injection.Policy.Values.{Value}
use server_key_injection.State.Exec.{Run, pure, transaction, convert, demand, modify, ◌>>◌}
use server_key_injection.State.Tables.{
  CaTables, EventRow, event_allowed, insert_event_row, integrity, next_rowid,
}
use server_key_injection.State.Issuing.{positive_rowid}

-- A call that succeeded, inside a transaction and behind a conversion of its errors.
pub transaction-eq-ok :
    {S E A : Type 0} (m : Run S E A) (s : S) {a : A} {s' : S}
    → transaction m s ≡ (ok a, s')
    → m s ≡ (ok a, s')
transaction-eq-ok {S} {E} {A} m s {a} {s'} h = go (m s) h
  where
    go :
        (p : Result E A × S)
        → elim p.0 as (λ _. Result E A × S) [ ok b ↦ (ok b, p.1) | err e ↦ (err e, s) ] ≡ (ok a, s')
        → p ≡ (ok a, s')
    go (ok b, t) k = k
    go (err e, t) k = absurd (cc)

pub convert-eq-ok :
    {S E F A : Type 0} (g : E → F) (m : Run S E A) (s : S) {a : A} {s' : S}
    → convert g m s ≡ (ok a, s')
    → m s ≡ (ok a, s')
convert-eq-ok {S} {E} {F} {A} g m s {a} {s'} h = go (m s) h
  where
    go :
        (p : Result E A × S)
        → elim p.0 as (λ _. Result F A × S) [ ok b ↦ (ok b, p.1) | err e ↦ (err (g e), p.1) ]
          ≡ (ok a, s')
        → p ≡ (ok a, s')
    go (ok b, t) k = ap (λ q. (ok q.0, q.1)) (both k)
      where
        both : ◌≡◌ {A = Result F A × S} (ok b, t) (ok a, s') → ◌≡◌ {A = A × S} (b, t) (a, s')
        both e = λ i. (ok-injective (ap (λ p. p.0) e) i, (ap (λ p. p.1) e) i)
    go (err e, t) k = absurd (cc)

-- An insert that succeeded.
pub demanded :
    {S E A : Type 0} (b : Bool) (e : E) (f : S → S) (a : A) (s : S) {a' : A} {s' : S}
    → (demand b e >> (modify f >> pure a)) s ≡ (ok a', s')
    → (b ≡ true) × (a ≡ a') × (f s ≡ s')
demanded true e f a s h = (refl, ok-injective (ap (λ p. p.0) h), ap (λ p. p.1) h)
demanded false e f a s h = absurd (cc)

pub traverse_snoc :
    {E A B : Type 0} (f : A → Result E B) (xs : List A) (ys : List B) (x : A) (y : B)
    → traverse f xs ≡ ok ys
    → f x ≡ ok y
    → traverse f (xs ++ x ∷ []) ≡ ok (ys ++ y ∷ [])
unfolding traverse
traverse_snoc f [] ys x y h k = rw k (ap (λ zs. ok (zs ++ y ∷ [])) (ok-injective h))
traverse_snoc {E} {A} {B} f (a ∷ xs) ys x y h k =
    go (f a) (traverse f xs) refl refl (λ bs q. traverse_snoc f xs bs x y q k)
  where
    go :
        (p : Result E B) (q : Result E (List B))
        → f a ≡ p
        → traverse f xs ≡ q
        → ((bs : List B) → traverse f xs ≡ ok bs → traverse f (xs ++ x ∷ []) ≡ ok (bs ++ y ∷ []))
        → traverse f (a ∷ xs ++ x ∷ []) ≡ ok (ys ++ y ∷ [])
    go (ok b) (ok bs) p q ih =
        let same : b ∷ bs ≡ ys = ok-injective {E = E} (rw (p, q) at h) in
        rw (p, ih bs q) (ap (λ zs. ok (zs ++ y ∷ [])) same)
    go (ok b) (err e) p q ih = absurd (cc (rw (p, q) at h))
    go (err e) q' p q ih = absurd (cc (rw p at h))

abbrev pub row_of :
    (event_id : ℕ) (at kind decision request_id identity ca_id serial : Value) → EventRow
row_of event_id at kind decision request_id identity ca_id serial = record {
  event_id = event_id;
  occurred_at = at;
  kind = kind;
  decision = decision;
  request_id = request_id;
  identity = identity;
  ca_id = ca_id;
  serial = serial;
}

pub event_inserted :
    (at kind decision request_id identity ca_id serial : Value) (t : CaTables) (n : ℕ)
    (t' : CaTables)
    → insert_event_row at kind decision request_id identity ca_id serial t ≡ (ok n, t')
    → (0 < n)
      × (record t {
        events = t.events ++ row_of n at kind decision request_id identity ca_id serial ∷ [];
      }
          ≡ t')
unfolding insert_event_row
event_inserted at kind decision request_id identity ca_id serial t n t' h =
    let id = next_rowid (map (λ (r : EventRow). r.event_id) t.events) in
    let row = row_of id at kind decision request_id identity ca_id serial in
    let (_, same, added) =
      demanded (event_allowed t row) integrity
        (λ (u : CaTables). record u { events = u.events ++ row ∷ [] }) id t h in
    (
      subst (λ k. 0 < k) same (positive_rowid (map (λ (r : EventRow). r.event_id) t.events)),
      ap
            (λ k. record t {
              events = t.events ++ row_of k at kind decision request_id identity ca_id serial ∷ [];
            })
            (sym same)
          ∙ added,
    )
