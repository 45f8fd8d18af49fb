-- ===== src/Parts/Paginate/Walk.antt =====
-- A client that follows the cursors: it reads every item, once and in order, and then it stops.
use gutencode_test.Prelude.{
  ℕ, zero, suc, ◌+◌, ◌-◌, ◌^◌, ◌≤◌, ◌<◌, ◌≡◌, ◌≢◌, ◌↔◌, refl, ap, sym, ◌∙◌, true, false, Option,
  none, some, List, [], ◌∷◌, ◌++◌, Text, Text-Eq, ℕ-Eq, ◌==◌, ==_refl, ==_true, ltb, length,
  length-drop, arith, inl, inr, str_ℕ, str_ℕ-cons, min, take, drop, Bool-cases,
}
use gutencode_test.Parts.Paginate.Base64.{b64encode}
use gutencode_test.Parts.Paginate.{
  int, encode_cursor, decode_cursor, clamp_limit, clamp_int, max_offset, Page, slice, offset_of,
  slice_at, paginate,
}
use gutencode_test.Parts.Paginate.Codec.{decode-encode_cursor}

abbrev Size : Text → ℕ → Type 0
Size raw size = (n : ℕ) × (raw ≡ str_ℕ n) × (1 ≤ n) × (n ≤ 2 ^ 53 - 1) × (size ≡ min n 200)

clamp_int-Size : (raw : Text) (o : Option ℕ) → clamp_int raw o ≢ 0 → Size raw (clamp_int raw o)
unfolding clamp_int
clamp_int-Size raw none h = absurd (h refl)
clamp_int-Size raw (some n) h = elim (Bool-cases (ltb n 1)) [
  | inl small ↦ absurd (h (rw small))
  | inr positive ↦ elim (Bool-cases (ltb max_offset n)) [
    | inl large ↦ absurd (h (rw (positive, large)))
    | inr bounded ↦ elim (Bool-cases (str_ℕ n == raw)) [
      | inr apart ↦ absurd (h (rw (positive, bounded, apart)))
      | inl same ↦ (
        n,
        sym (==_true (str_ℕ n) raw same),
        ground arith,
        ground arith,
        rw (positive, bounded, same),
      )
    ]
  ]
]

clamp_int-str : (n : ℕ) → 1 ≤ n → n ≤ max_offset → clamp_int (str_ℕ n) (some n) ≡ min n 200
unfolding clamp_int
clamp_int-str n h k =
    let a : ltb n 1 ≡ false = ground arith in
    let b : ltb max_offset n ≡ false = ground arith in rw (a, b, ==_refl (str_ℕ n))

clamp_limit-cons : (raw : Text) → raw ≢ [] → clamp_limit raw ≡ clamp_int raw (int raw)
unfolding clamp_limit
clamp_limit-cons [] h = absurd (h refl)
clamp_limit-cons (c ∷ cs) h = refl

str_ℕ-ne-nil : (n : ℕ) → str_ℕ n ≢ []
str_ℕ-ne-nil n h = let (c, cs, e) = str_ℕ-cons n in cc (e, h)

-- A limit that is given is accepted exactly if it is the decimal text of a number from 1 to 2^53 - 1,
-- when the page has that many items but 200 at most; any other gives 0.
clamp_limit_lem : (raw : Text) → raw ≢ [] → clamp_limit raw ≢ 0 ↔ Size raw (clamp_limit raw)
clamp_limit_lem raw there = rw (clamp_limit-cons raw there) (
  clamp_int-Size raw (int raw),
  λ (n, e, low, high, size) zero_. absurd (omega (arith, zero_, size, low)),
)

clamp_limit_bounds :
    (raw : Text) → clamp_limit raw ≢ 0 → (1 ≤ clamp_limit raw) × (clamp_limit raw ≤ 200)
clamp_limit_bounds [] h = unfold clamp_limit in omega arith
clamp_limit_bounds (c ∷ cs) h =
    unfold clamp_limit in
    let (n, e, low, high, size) = clamp_int-Size (c ∷ cs) (int (c ∷ cs)) h in
    omega (arith, size, low, h)

offset_of-cons : (cursor : Text) → cursor ≢ [] → offset_of cursor ≡ decode_cursor cursor
unfolding offset_of
offset_of-cons [] h = absurd (h refl)
offset_of-cons (c ∷ cs) h = refl

b64encode-ne-nil : (s : Text) → s ≢ [] → b64encode s ≢ []
unfolding b64encode
b64encode-ne-nil [] h e = h refl
b64encode-ne-nil (a ∷ []) h e = cc
b64encode-ne-nil (a ∷ b ∷ []) h e = cc
b64encode-ne-nil (a ∷ b ∷ c ∷ s) h e = cc

encode_cursor-offset_of : (o : ℕ) → o ≤ max_offset → offset_of (encode_cursor o) ≡ some o
encode_cursor-offset_of o h =
    offset_of-cons (encode_cursor o)
      (unfold encode_cursor in b64encode-ne-nil (str_ℕ o) (str_ℕ-ne-nil o))
    ∙ (decode-encode_cursor (encode_cursor o) o).1 (refl, h)

module _ {ℓ} {A : Type ℓ} where
  -- A client's loop: it asks for a page, and for the next while the reply has a cursor. None if the
  -- fuel runs out or a page is refused.
  onward : List A → Option (List A) → Option (List A)
  onward page none = none
  onward page (some rest) = some (page ++ rest)

  follow : (Text → Option (List A)) → Page A → Option (List A)
  follow next (page, cursor, false) = none
  follow next (page, none, true) = some page
  follow next (page, some cursor, true) = onward page (next cursor)

  unfoldable pub walk : ℕ → List A → Text → Text → Option (List A)
  unfolding onward follow
  walk zero items limit cursor = none
  walk (suc f) items limit cursor = follow (walk f items limit) (paginate items cursor limit)

  take-append-drop : (n : ℕ) (xs : List A) → take n xs ++ drop n xs ≡ xs
  take-append-drop zero xs = refl
  take-append-drop (suc n) [] = refl
  take-append-drop (suc n) (x ∷ xs) = ap (λ r. x ∷ r) (take-append-drop n xs)

  drop-drop : (n o : ℕ) (xs : List A) → drop n (drop o xs) ≡ drop (o + n) xs
  drop-drop n zero xs = let e : zero + n ≡ n = omega arith in rw e
  drop-drop zero (suc o) [] = let e : suc o + zero ≡ suc o = omega arith in rw e
  drop-drop (suc n) (suc o) [] = let e : suc o + suc n ≡ suc (o + suc n) = omega arith in rw e
  drop-drop n (suc o) (x ∷ xs) =
      let e : suc o + n ≡ suc (o + n) = omega arith in rw e (drop-drop n o xs)

  take_all : (n : ℕ) (xs : List A) → length xs ≤ n → take n xs ≡ xs
  take_all zero [] h = refl
  take_all zero (x ∷ xs) h = absurd (omega arith)
  take_all (suc n) [] h = refl
  take_all (suc n) (x ∷ xs) h = ap (λ r. x ∷ r) (take_all n xs (omega arith))

  paginate_at :
      (items : List A) (cursor limit : Text) (o : ℕ)
      → clamp_limit limit ≢ 0
      → offset_of cursor ≡ some o
      → paginate items cursor limit ≡ slice (clamp_limit limit) o items
  unfolding paginate slice_at
  paginate_at items cursor limit o sized e =
      let positive : (clamp_limit limit == 0) ≡ false = ground arith in rw (positive, e)

  slice_last :
      (lim o : ℕ) (items : List A)
      → o ≤ length items
      → ltb (o + lim) (length items) ≡ false
      → slice lim o items ≡ (drop o items, none, true)
  unfolding slice
  slice_last lim o items within last =
      let place : min o (length items) ≡ o = omega arith in
      let n = length-drop o items in
      rw (place, last)
        (ap (λ (r : List A). (r, none, true)) (take_all lim (drop o items) (ground arith)))

  slice_more :
      (lim o : ℕ) (items : List A)
      → o ≤ length items
      → ltb (o + lim) (length items) ≡ true
      → slice lim o items ≡ (take lim (drop o items), some (encode_cursor (o + lim)), true)
  unfolding slice
  slice_more lim o items within more =
      let place : min o (length items) ≡ o = omega arith in rw (place, more)

  walk_from :
      (f : ℕ) (items : List A) (limit cursor : Text) (o : ℕ)
      → clamp_limit limit ≢ 0
      → length items ≤ 2 ^ 53
      → offset_of cursor ≡ some o
      → length items - o < f
      → o ≤ length items
      → walk f items limit cursor ≡ some (drop o items)
  unfolding walk
  walk_from zero items limit cursor o sized bound e fuel within = absurd (omega arith)
  walk_from (suc f) items limit cursor o sized bound e fuel within =
      let lim = clamp_limit limit in
      let sizes = clamp_limit_bounds limit sized in
      rw (paginate_at items cursor limit o sized e)
        (elim (Bool-cases (ltb (o + lim) (length items))) [
          | inr last ↦ rw (slice_last lim o items within last)
          | inl more ↦ rw (slice_more lim o items within more) (
              rw
                (walk_from f items limit (encode_cursor (o + lim)) (o + lim) sized bound
                  (encode_cursor-offset_of (o + lim) (ground arith)) (ground arith) (ground arith))
                (ap some (
                  ap (λ r. take lim (drop o items) ++ r) (sym (drop-drop lim o items))
                  ∙ take-append-drop lim (drop o items))))
        ])

-- For a list of at most 2^53 items and any accepted limit, a client that starts with no cursor and
-- follows each next cursor gets every item exactly once and in order, and it stops: one request more
-- than there are items is always enough.
pub walk_reads_all {ℓ} :
    {A : Type ℓ} (items : List A) (limit : Text)
    → clamp_limit limit ≢ 0
    → length items ≤ 2 ^ 53
    → walk (suc (length items)) items limit [] ≡ some items
walk_reads_all items limit sized bound =
    walk_from (suc (length items)) items limit [] 0 sized bound (unfold offset_of in refl)
      (omega arith) (omega arith)
