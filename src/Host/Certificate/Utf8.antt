-- ===== src/Host/Certificate/Utf8.antt =====
-- `bytes.decode("utf-8")`, strictly: no overlong form, no surrogate, nothing above U+10FFFF.
use server_key_injection.Base.{
  ℕ, ◌+◌, ◌*◌, ◌-◌, ◌≡◌, refl, Bool, true, ◌&&◌, Option, none, some, List, [], ◌∷◌, arith, ltb, leb,
  all, if◌then◌else◌,
}
use server_key_injection.Base.Text.{Text}

abbrev between : ℕ → ℕ → ℕ → Bool
between lo hi b = leb lo b && leb b hi

-- A continuation byte, which adds six bits.
abbrev follows : ℕ → Bool
follows b = between 0x80 0xbf b

abbrev put : ℕ → Option Text → Option Text
put c none = none
put c (some s) = some (c ∷ s)

-- The second byte's range, by the first byte of three or four.
abbrev second_of_three : ℕ → ℕ → Bool
second_of_three a b =
    if leb a 0xe0
    then between 0xa0 0xbf b
    else if between 0xed 0xed a
    then between 0x80 0x9f b
    else follows b

abbrev second_of_four : ℕ → ℕ → Bool
second_of_four a b =
    if leb a 0xf0
    then between 0x90 0xbf b
    else if leb 0xf4 a
    then between 0x80 0x8f b
    else follows b

unfoldable pub decode_utf8 : List ℕ → Option Text
decode_utf8 [] = some []
decode_utf8 (a ∷ []) = if ltb a 0x80 then some (a ∷ []) else none
decode_utf8 (a ∷ b ∷ []) =
    let one = put a (decode_utf8 (b ∷ [])) in
    if ltb a 0x80
    then one
    else if between 0xc2 0xdf a && follows b
    then some (((a - 0xc0) * 64 + (b - 0x80)) ∷ [])
    else none
decode_utf8 (a ∷ b ∷ c ∷ []) =
    let one = put a (decode_utf8 (b ∷ c ∷ [])) in
    let two = put ((a - 0xc0) * 64 + (b - 0x80)) (decode_utf8 (c ∷ [])) in
    if ltb a 0x80
    then one
    else if between 0xc2 0xdf a && follows b
    then two
    else if between 0xe0 0xef a && (second_of_three a b && follows c)
    then some (((a - 0xe0) * 4096 + (b - 0x80) * 64 + (c - 0x80)) ∷ [])
    else none
decode_utf8 (a ∷ b ∷ c ∷ d ∷ rest) =
    let one = put a (decode_utf8 (b ∷ c ∷ d ∷ rest)) in
    let two = put ((a - 0xc0) * 64 + (b - 0x80)) (decode_utf8 (c ∷ d ∷ rest)) in
    let three = put ((a - 0xe0) * 4096 + (b - 0x80) * 64 + (c - 0x80)) (decode_utf8 (d ∷ rest)) in
    let four =
      put ((a - 0xf0) * 262144 + (b - 0x80) * 4096 + (c - 0x80) * 64 + (d - 0x80))
        (decode_utf8 rest) in
    if ltb a 0x80
    then one
    else if between 0xc2 0xdf a && follows b
    then two
    else if between 0xe0 0xef a && (second_of_three a b && follows c)
    then three
    else if between 0xf0 0xf4 a && (second_of_four a b && (follows c && follows d))
    then four
    else none

-- ASCII bytes are their own text.
pub decode_utf8-ascii : (s : Text) → all (λ c. ltb c 0x80) s ≡ true → decode_utf8 s ≡ some s
unfolding decode_utf8 all
decode_utf8-ascii [] h = refl
decode_utf8-ascii (a ∷ []) h = ground arith
decode_utf8-ascii (a ∷ b ∷ []) h = ground (arith, decode_utf8-ascii (b ∷ []))
decode_utf8-ascii (a ∷ b ∷ c ∷ []) h = ground (arith, decode_utf8-ascii (b ∷ c ∷ []))
decode_utf8-ascii (a ∷ b ∷ c ∷ d ∷ rest) h = ground (arith, decode_utf8-ascii (b ∷ c ∷ d ∷ rest))
