-- ===== src/Parts/Paginate/Base64.antt =====
-- base64 with the alphabet that is safe in a URL, as parts/paginate.py calls it: urlsafe_b64encode
-- without its padding, and urlsafe_b64decode with the padding put back.
use gutencode_test.Prelude.{
  ℕ, ◌+◌, ◌-◌, ◌*◌, ◌/◌, ◌%◌, true, false, ◌&&◌, Option, none, some, [], ◌∷◌, ◌++◌, Text, ℕ-Eq,
  ◌==◌, ltb, leb, if◌then◌else◌, length, all,
}

-- The character of a sextet: A-Z, a-z, 0-9, - and _.
unfoldable pub symbol : ℕ → ℕ
symbol v =
    if ltb v 26
    then v + 65
    else if ltb v 52
    then v + 71
    else if ltb v 62
    then v - 4
    else if ltb v 63
    then 45
    else 95

unfoldable pub b64encode : Text → Text
b64encode [] = []
b64encode (a ∷ []) = symbol (a / 4) ∷ symbol (a % 4 * 16) ∷ []
b64encode (a ∷ b ∷ []) = symbol (a / 4) ∷ symbol (a % 4 * 16 + b / 16) ∷ symbol (b % 16 * 4) ∷ []
b64encode (a ∷ b ∷ c ∷ rest) =
    symbol (a / 4)
    ∷ symbol (a % 4 * 16 + b / 16)
    ∷ symbol (b % 16 * 4 + c / 64)
    ∷ symbol (c % 64)
    ∷ b64encode rest

pub data Symbol : Type 0 where
  padding other : Symbol
  sextet : ℕ → Symbol

-- The translation takes - and _ to + and /, which are read too.
unfoldable pub classify : ℕ → Symbol
classify c =
    if leb 65 c && leb c 90
    then sextet (c - 65)
    else if leb 97 c && leb c 122
    then sextet (c - 71)
    else if leb 48 c && leb c 57
    then sextet (c + 4)
    else if c == 45
    then sextet 62
    else if c == 43
    then sextet 62
    else if c == 95
    then sextet 63
    else if c == 47
    then sextet 63
    else if c == 61
    then padding
    else other

-- The position in a group of four, with the bits that are left over, and the paddings seen at 2.
pub data Quad : Type 0 where
  start : Quad
  one : ℕ → Quad
  two : ℕ → ℕ → Quad
  three : ℕ → Quad

abbrev pub out : ℕ → Option Text → Option Text
out byte none = none
out byte (some rest) = some (byte ∷ rest)

-- binascii.a2b_base64: an incomplete group is an error.
unfoldable pub a2b : Quad → Text → Option Text
a2b start [] = some []
a2b (one l) [] = none
a2b (two l pads) [] = none
a2b (three l) [] = none
a2b start (c ∷ cs) = elim (classify c) [ sextet v ↦ a2b (one v) cs | _ ↦ a2b start cs ]
a2b (one l) (c ∷ cs) = elim (classify c) [
  | sextet v ↦ out (l * 4 + v / 16) (a2b (two (v % 16) 0) cs)
  | _ ↦ a2b (one l) cs
]
a2b (two l pads) (c ∷ cs) = elim (classify c) [
  | sextet v ↦ out (l * 16 + v / 4) (a2b (three (v % 4)) cs)
  | padding ↦ elim (leb 4 (2 + pads + 1)) [ true ↦ some [] | false ↦ a2b (two l (pads + 1)) cs ]
  | other ↦ a2b (two l pads) cs
]
a2b (three l) (c ∷ cs) = elim (classify c) [
  | sextet v ↦ out (l * 64 + v) (a2b start cs)
  | padding ↦ some []
  | other ↦ a2b (three l) cs
]

-- "=" * (-len(cursor) % 4)
unfoldable pub missing : ℕ → Text
missing n =
    let r = n % 4 in
    if r == 1
    then 61 ∷ 61 ∷ 61 ∷ []
    else if r == 2
    then 61 ∷ 61 ∷ []
    else if r == 3
    then 61 ∷ []
    else []

-- A text that is not ASCII is an error.
unfoldable pub b64decode : Text → Option Text
unfolding missing a2b classify
b64decode cursor =
    if all (λ c. ltb c 128) cursor then a2b start (cursor ++ missing (length cursor)) else none
