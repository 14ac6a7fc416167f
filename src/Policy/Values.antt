-- ===== src/Policy/Values.antt =====
-- The Python objects that the validators are given: what a caller passes, or a SQLite column holds.
use server_key_injection.Base.{
  equality_laws, Bool, true, false, List, Eq, ◌==◌, nat_eq, list_eq, ◌≡◌, ◌↔◌, arith,
}
use server_key_injection.Base.Int.{ℤ, int_eq, int_beq_iff}
use server_key_injection.Base.Text.{Text}

-- `other_value` stands for a value of any further type, such as a float.
pub data Value : Type 0 where
  none_value : Value
  bool_value : Bool → Value
  int_value : ℤ → Value
  str_value : Text → Value
  bytes_value : Text → Value
  other_value : Value

-- A scalar, or a tuple of scalars.
pub data Object : Type 0 where
  scalar : Value → Object
  tuple_value : List Value → Object

unfoldable pub value_beq : Value → Value → Bool
value_beq none_value none_value = true
value_beq (bool_value true) (bool_value true) = true
value_beq (bool_value false) (bool_value false) = true
value_beq (int_value n) (int_value m) = n == m
value_beq (str_value s) (str_value t) = s == t
value_beq (bytes_value s) (bytes_value t) = s == t
value_beq other_value other_value = true
value_beq _ _ = false

pub value_beq_iff : (v w : Value) → (value_beq v w ≡ true) ↔ (v ≡ w)
unfolding value_beq
value_beq_iff none_value none_value = ground arith
value_beq_iff (bool_value true) (bool_value true) = ground arith
value_beq_iff (bool_value false) (bool_value false) = ground arith
value_beq_iff (int_value n) (int_value m) = ground (arith, int_beq_iff n m)
value_beq_iff (str_value s) (str_value t) = grind equality_laws
value_beq_iff (bytes_value s) (bytes_value t) = grind equality_laws
value_beq_iff other_value other_value = ground arith
value_beq_iff _ _ = ground arith

instance abbrev pub value_eq : Eq Value
value_eq = record { beq = value_beq; beq_iff = value_beq_iff }
