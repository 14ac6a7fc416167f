-- ===== src/Runtime/Tasks.antt =====
-- The tasks that a shutdown of src/ski/runtime.py waits for.
use server_key_injection.Base.{
  ℕ, ◌≡◌, refl, Bool, true, false, not, ◌||◌, List, [], ◌∷◌, if◌then◌else◌, ◌==◌, nat_eq, list_eq,
  option_eq, contains, contains-filter, beq_refl, filter, all, All, Bool-cases, inl, inr, arith,
}
use server_key_injection.Runtime.{discard}

pub waits_for :
    (current : ℕ) (tasks : List ℕ)
    → All (λ task. (task == current || contains (discard current tasks) task) ≡ true) tasks
unfolding contains
waits_for current tasks = go tasks (λ task h. h)
  where
    go :
        (xs : List ℕ)
        → ((task : ℕ) → contains xs task ≡ true → contains tasks task ≡ true)
        → All (λ task. (task == current || contains (discard current tasks) task) ≡ true) xs
    go [] among = tt
    go (x ∷ xs) among = (
      ground (arith, contains-filter (λ y. not (y == current)) tasks x, beq_refl x, among x),
      go xs (λ task h. among task (ground arith)),
    )

pub if_cases :
    {A : Type 0} (P : A → Type 0) (b : Bool) (x y : A)
    → (b ≡ true → P x)
    → (b ≡ false → P y)
    → P (if b then x else y)
if_cases P true x y h k = h refl
if_cases P false x y h k = k refl

pub All-discard : (P : ℕ → Type 0) (x : ℕ) (xs : List ℕ) → All P xs → All P (discard x xs)
unfolding filter
All-discard P x [] h = tt
All-discard P x (y ∷ ys) h = elim (Bool-cases (not (y == x))) [
  | inl e ↦ rw e (h.0, All-discard P x ys h.1)
  | inr e ↦ rw e (All-discard P x ys h.1)
]

-- The tasks that are left when those that `close` waits for have ended.
pub only_current :
    (current : ℕ) (tasks in_flight : List ℕ)
    → all (λ task. not (contains in_flight task)) tasks ≡ true
    → All (λ task. (task == current || contains tasks task) ≡ true) in_flight
    → All (λ task. task ≡ current) in_flight
unfolding contains all
only_current current tasks in_flight ended h = go in_flight (λ task k. k) h
  where
    ended_one :
        (task : ℕ) (ts : List ℕ)
        → all (λ task. not (contains in_flight task)) ts ≡ true
        → contains ts task ≡ true
        → contains in_flight task ≡ false
    ended_one task [] e k = absurd (cc)
    ended_one task (t ∷ ts) e k = elim (Bool-cases (task == t)) [
      | inl same ↦ let q : task ≡ t = (nat_eq.beq_iff task t).0 same in rw q (ground arith)
      | inr other ↦ ended_one task ts (ground arith) (ground arith)
    ]

    go :
        (xs : List ℕ)
        → ((task : ℕ) → contains xs task ≡ true → contains in_flight task ≡ true)
        → All (λ task. (task == current || contains tasks task) ≡ true) xs
        → All (λ task. task ≡ current) xs
    go [] among h = tt
    go (x ∷ xs) among h = (
      elim (Bool-cases (x == current)) [
        | inl same ↦ (nat_eq.beq_iff x current).0 same
        | inr other ↦ absurd (ground (arith, ended_one x tasks ended, among x, beq_refl x))
      ],
      go xs (λ task k. among task (ground arith)) h.1,
    )

pub true_ne_false : (b : Bool) → b ≡ true → b ≡ false → ⊥
true_ne_false b is_true is_false = cc
