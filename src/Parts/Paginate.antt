-- ===== src/Parts/Paginate.antt =====
-- parts/paginate.py: the page of a list that is in a stable order, and its opaque cursor. What the code
-- takes of Python is here too: base64 (a2b is the loop of binascii over the characters, which skips what
-- is not in the alphabet and stops at the padding) and `int` on decimal digits. `int` also reads texts
-- with signs, spaces or underscores; no such text is `str` of its number, so both checks for the
-- canonical form refuse them, as they refuse what is none here.
pub mod Base64
pub mod Codec
pub mod Reply
pub mod Walk
use gutencode_test.Prelude.{
  ℕ, ◌+◌, ◌-◌, ◌*◌, ◌^◌, min, Bool, true, false, Option, none, some, List, [], ◌∷◌, ◌++◌, Text,
  Text-Eq, ℕ-Eq, ◌==◌, ltb, leb, if◌then◌else◌, length, take, drop, all, str_ℕ, is_digit, read_from,
}
use gutencode_test.Parts.Paginate.Base64.{b64encode, b64decode}

abbrev pub page_default : ℕ
page_default = 50

abbrev pub page_max : ℕ
page_max = 200

abbrev pub max_offset : ℕ
max_offset = 2 ^ 53 - 1

-- int(text)
unfoldable pub int : Text → Option ℕ
unfolding read_from
int [] = none
int (c ∷ cs) = if all is_digit (c ∷ cs) then some (read_from 0 (c ∷ cs)) else none

-- base64url(str(n)) with no padding
unfoldable pub encode_cursor : ℕ → Text
encode_cursor n = b64encode (str_ℕ n)

-- The offset, if it is bounded and the cursor is its canonical one.
unfoldable pub canonical : Text → Option ℕ → Option ℕ
canonical cursor none = none
canonical cursor (some n) =
    if leb n max_offset then if encode_cursor n == cursor then some n else none else none

unfoldable pub int_or_none : Option Text → Option ℕ
int_or_none none = none
int_or_none (some text) = int text

-- none is the source's -1.
unfoldable pub decode_cursor : Text → Option ℕ
unfolding canonical int_or_none
decode_cursor cursor = canonical cursor (int_or_none (b64decode cursor))

unfoldable pub clamp_int : Text → Option ℕ → ℕ
clamp_int raw none = 0
clamp_int raw (some n) =
    if ltb n 1
    then 0
    else if ltb max_offset n
    then 0
    else if str_ℕ n == raw
    then min n page_max
    else 0

unfoldable pub clamp_limit : Text → ℕ
unfolding clamp_int
clamp_limit [] = page_default
clamp_limit (c ∷ cs) = clamp_int (c ∷ cs) (int (c ∷ cs))

unfoldable pub offset_of : Text → Option ℕ
offset_of [] = some 0
offset_of (c ∷ cs) = decode_cursor (c ∷ cs)

-- (page, next_cursor, ok)
abbrev pub Page {ℓ} : Type ℓ → Type ℓ
Page A = List A × Option Text × Bool

module _ {ℓ} {A : Type ℓ} where
  -- items[offset:offset + lim], and the cursor of the page after it.
  unfoldable pub slice : ℕ → ℕ → List A → Page A
  slice lim start items =
      let offset = min start (length items) in
      (
        take lim (drop offset items),
        if ltb (offset + lim) (length items) then some (encode_cursor (offset + lim)) else none,
        true,
      )

  unfoldable pub slice_at : ℕ → Option ℕ → List A → Page A
  unfolding slice
  slice_at lim none items = ([], none, false)
  slice_at lim (some offset) items = slice lim offset items

  unfoldable pub paginate : List A → Text → Text → Page A
  unfolding slice_at offset_of
  paginate items cursor limit =
      let lim = clamp_limit limit in
      if lim == 0 then ([], none, false) else slice_at lim (offset_of cursor) items
