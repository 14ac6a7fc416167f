-- ===== src/State/Json.antt =====
-- `json.dumps(list(principals), separators=(",", ":"))` and `tuple(json.loads(text))`, of arrays of
-- strings in the form that the first writes: no blank, and no character that JSON escapes. Any other
-- document is refused here as malformed, also one that Python reads, such as an array with blanks or
-- escapes or a bare string, which no operation of the state writes.
use server_key_injection.Base.{
  ℕ, ◌≡◌, refl, ap, ◌∙◌, Bool, true, not, ◌&&◌, Option, none, some, List, [], ◌∷◌, ◌++◌, arith, all,
  All, ltb, nat_beq, if◌then◌else◌,
}
use mathlib.Core.List.{append-nil, append_assoc}
use server_key_injection.Base.Text.{Text}

-- The items behind the first, each after a comma, and the closing bracket.
more_items : List Text → Text
more_items [] = b']' ∷ []
more_items (s ∷ ss) = b',' ∷ b'"' ∷ (s ++ (b'"' ∷ more_items ss))

unfoldable pub dumps : List Text → Text
unfolding more_items
dumps [] = b'[' ∷ b']' ∷ []
dumps (s ∷ ss) = b'[' ∷ b'"' ∷ (s ++ (b'"' ∷ more_items ss))

-- A character that stands for itself in a JSON string.
unfoldable pub is_plain : ℕ → Bool
is_plain c = not (ltb c 0x20) && (not (nat_beq c b'"') && not (nat_beq c 0x5c))

abbrev put : Text → Option (List Text) → Option (List Text)
put s none = none
put s (some ss) = some (s ∷ ss)

-- Inside a string, of which `item` has been read.
read_items : Text → Text → Option (List Text)
unfolding is_plain
read_items item [] = none
read_items item (c ∷ []) = none
read_items item (c ∷ d ∷ []) = if nat_beq c b'"' && nat_beq d b']' then some (item ∷ []) else none
read_items item (c ∷ d ∷ e ∷ s) =
    let next = put item (read_items [] s) in
    let on = read_items (item ++ c ∷ []) (d ∷ e ∷ s) in
    if nat_beq c b'"'
    then (if nat_beq d b',' && nat_beq e b'"' then next else none)
    else if is_plain c
    then on
    else none

unfoldable pub loads : Text → Option (List Text)
unfolding read_items
loads (a ∷ b ∷ s) =
    let items = read_items [] s in
    if nat_beq a b'['
    then (if nat_beq b b'"'
        then items
        else if nat_beq b b']'
        then (elim s [ [] ↦ some [] | _ ∷ _ ↦ none ])
        else none)
    else none
loads _ = none

abbrev pub IsPlain : Text → Type 0
IsPlain s = all is_plain s ≡ true

plain_step :
    (item : Text) (x y e : ℕ) (t : Text)
    → is_plain x ≡ true
    → read_items item (x ∷ y ∷ e ∷ t) ≡ read_items (item ++ x ∷ []) (y ∷ e ∷ t)
unfolding read_items
plain_step item x y e t h = ground arith

read_items-plain :
    (item s rest : Text) (c d : ℕ)
    → IsPlain s
    → read_items item (s ++ (c ∷ d ∷ rest)) ≡ read_items (item ++ s) (c ∷ d ∷ rest)
unfolding all
read_items-plain item [] rest c d h = rw append-nil
read_items-plain item (x ∷ []) rest c d h = plain_step item x c d rest (ground arith)
read_items-plain item (x ∷ y ∷ []) rest c d h =
    plain_step item x y c (d ∷ rest) (ground arith)
    ∙ read_items-plain (item ++ x ∷ []) (y ∷ []) rest c d (ground arith)
    ∙ ap (λ t. read_items t (c ∷ d ∷ rest)) (append_assoc item (x ∷ []) (y ∷ []))
read_items-plain item (x ∷ y ∷ z ∷ s) rest c d h =
    plain_step item x y z (s ++ (c ∷ d ∷ rest)) (ground arith)
    ∙ read_items-plain (item ++ x ∷ []) (y ∷ z ∷ s) rest c d (ground arith)
    ∙ ap (λ t. read_items t (c ∷ d ∷ rest)) (append_assoc item (x ∷ []) (y ∷ z ∷ s))

more_items-cons : (ss : List Text) → (d : ℕ) × (rest : Text) × (more_items ss ≡ d ∷ rest)
unfolding more_items
more_items-cons [] = (_, _, refl)
more_items-cons (s ∷ ss) = (_, _, refl)

read_more_items :
    (s : Text) (ss : List Text)
    → IsPlain s
    → All IsPlain ss
    → read_items [] (s ++ (b'"' ∷ more_items ss)) ≡ some (s ∷ ss)
unfolding read_items more_items
read_more_items s [] h hs = read_items-plain [] s [] b'"' b']' h
read_more_items s (t ∷ ts) h hs =
    read_items-plain [] s (b'"' ∷ (t ++ (b'"' ∷ more_items ts))) b'"' b',' h
    ∙ ap (put s) (read_more_items t ts hs.0 hs.1)

-- Reading back a dumped list of strings, whose characters JSON writes as themselves, gives it
-- again.
pub loads-dumps : (ss : List Text) → All IsPlain ss → loads (dumps ss) ≡ some ss
unfolding loads dumps
loads-dumps [] h = refl
loads-dumps (s ∷ ss) h = read_more_items s ss h.0 h.1
