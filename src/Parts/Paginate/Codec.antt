-- ===== src/Parts/Paginate/Codec.antt =====
-- The cursor's codec: a text is decoded to an offset exactly if it is the offset's own cursor, within
-- the bound; and the page sizes that a limit gives.
use gutencode_test.Prelude.{
  ℕ, suc, ◌+◌, ◌-◌, ◌*◌, ◌/◌, ◌%◌, ◌^◌, ◌≤◌, ◌<◌, ◌≡◌, ◌≢◌, ◌↔◌, refl, ap, sym, ◌∙◌, true, Option,
  none, some, [], ◌∷◌, ◌++◌, Text, Text-Eq, ℕ-Eq, ◌==◌, ==_refl, ==_true, ltb, leb, leb→le, le→leb,
  length, all, All, All-map, arith, inl, inr, str_ℕ, str_ℕ-Digits, str_ℕ-cons, read_from,
  read_from-str_ℕ, is_digit, Digits, Bool-cases,
}
use gutencode_test.Parts.Paginate.Base64.{
  symbol, classify, padding, sextet, start, one, two, three, a2b, b64encode, b64decode, missing,
  out,
}
use gutencode_test.Parts.Paginate.{
  int, encode_cursor, decode_cursor, canonical, int_or_none, max_offset,
}

classify-symbol : (v : ℕ) → v < 64 → classify (symbol v) ≡ sextet v
unfolding classify symbol
classify-symbol v h = ground arith

symbol-lt : (v : ℕ) → v < 64 → ltb (symbol v) 128 ≡ true
unfolding symbol
symbol-lt v h = ground arith

classify-padding : classify 61 ≡ padding
unfolding classify
classify-padding = refl

missing_period : (n : ℕ) → missing (suc (suc (suc (suc n)))) ≡ missing n
unfolding missing
missing_period n = let e : suc (suc (suc (suc n))) % 4 ≡ n % 4 = omega arith in rw e

abbrev Bytes : Text → Type 0
Bytes s = All (λ c. c < 256) s

some_cons : {x y : ℕ} {s : Text} → x ≡ y → ◌≡◌ {A = Option Text} (some (x ∷ s)) (some (y ∷ s))
some_cons {s = s} e = ap (λ n. some (n ∷ s)) e

module _ (c : ℕ) (cs : Text) where
  -- A character that stands for a sextet.
  read-start : (v : ℕ) → classify c ≡ sextet v → a2b start (c ∷ cs) ≡ a2b (one v) cs
  unfolding a2b
  read-start v e = rw (e, a2b)

  read-one :
      (l v : ℕ)
      → classify c ≡ sextet v
      → a2b (one l) (c ∷ cs) ≡ out (l * 4 + v / 16) (a2b (two (v % 16) 0) cs)
  unfolding a2b
  read-one l v e = rw (e, a2b)

  read-two :
      (l v p : ℕ)
      → classify c ≡ sextet v
      → a2b (two l p) (c ∷ cs) ≡ out (l * 16 + v / 4) (a2b (three (v % 4)) cs)
  unfolding a2b
  read-two l v p e = rw (e, a2b)

  read-three :
      (l v : ℕ) → classify c ≡ sextet v → a2b (three l) (c ∷ cs) ≡ out (l * 64 + v) (a2b start cs)
  unfolding a2b
  read-three l v e = rw (e, a2b)

-- The paddings end the text.
two-ends : (l : ℕ) → a2b (two l 0) (61 ∷ 61 ∷ []) ≡ some []
unfolding a2b
two-ends l = unfold classify in refl

three-ends : (l : ℕ) → a2b (three l) (61 ∷ []) ≡ some []
unfolding a2b
three-ends l = unfold classify in refl

a2b-encode :
    (s : Text) → Bytes s → a2b start (b64encode s ++ missing (length (b64encode s))) ≡ some s
unfolding b64encode
a2b-encode [] b = unfold a2b missing in refl
a2b-encode (a ∷ []) (h, _) =
    unfold missing in
    read-start _ _ _ (classify-symbol (a / 4) (omega arith))
    ∙ read-one _ _ _ _ (classify-symbol (a % 4 * 16) (omega arith))
    ∙ ap (out _) (two-ends _)
    ∙ some_cons (omega arith)
a2b-encode (a ∷ c ∷ []) (h, (k, _)) =
    unfold missing in
    read-start _ _ _ (classify-symbol (a / 4) (omega arith))
    ∙ read-one _ _ _ _ (classify-symbol (a % 4 * 16 + c / 16) (omega arith))
    ∙ ap (out _) (
        read-two _ _ _ _ _ (classify-symbol (c % 16 * 4) (omega arith))
        ∙ ap (out _) (three-ends _)
        ∙ some_cons (omega arith))
    ∙ some_cons (omega arith)
a2b-encode (a ∷ c ∷ d ∷ s) (h, (k, (l, rest))) = rw (missing_period (length (b64encode s))) (
    read-start _ _ _ (classify-symbol (a / 4) (omega arith))
    ∙ read-one _ _ _ _ (classify-symbol (a % 4 * 16 + c / 16) (omega arith))
    ∙ ap (out _) (
        read-two _ _ _ _ _ (classify-symbol (c % 16 * 4 + d / 64) (omega arith))
        ∙ ap (out _) (
            read-three _ _ _ _ (classify-symbol (d % 64) (omega arith))
            ∙ ap (out _) (a2b-encode s rest)
            ∙ some_cons (omega arith))
        ∙ some_cons (omega arith))
    ∙ some_cons (omega arith))

b64encode-Ascii : (s : Text) → Bytes s → all (λ c. ltb c 128) (b64encode s) ≡ true
unfolding b64encode
b64encode-Ascii [] b = refl
b64encode-Ascii (a ∷ []) (h, _) =
    rw (symbol-lt (a / 4) (omega arith), symbol-lt (a % 4 * 16) (omega arith))
b64encode-Ascii (a ∷ c ∷ []) (h, (k, _)) = rw (
  symbol-lt (a / 4) (omega arith),
  symbol-lt (a % 4 * 16 + c / 16) (omega arith),
  symbol-lt (c % 16 * 4) (omega arith),
)
b64encode-Ascii (a ∷ c ∷ d ∷ s) (h, (k, (l, rest))) =
    rw
      (
        symbol-lt (a / 4) (omega arith),
        symbol-lt (a % 4 * 16 + c / 16) (omega arith),
        symbol-lt (c % 16 * 4 + d / 64) (omega arith),
        symbol-lt (d % 64) (omega arith),
      )
      (b64encode-Ascii s rest)

-- Any bytes are read back.
b64decode-b64encode : (s : Text) → Bytes s → b64decode (b64encode s) ≡ some s
unfolding b64decode
b64decode-b64encode s b = rw (b64encode-Ascii s b) (a2b-encode s b)

Digits-all : (s : Text) → Digits s → all is_digit s ≡ true
Digits-all [] d = refl
Digits-all (c ∷ s) d = rw d.0 (Digits-all s d.1)

int-Digits : (s : Text) → s ≢ [] → Digits s → int s ≡ some (read_from 0 s)
unfolding int
int-Digits [] there d = absurd (there refl)
int-Digits (c ∷ cs) there d = rw (Digits-all (c ∷ cs) d)

pub int-str_ℕ : (n : ℕ) → int (str_ℕ n) ≡ some n
int-str_ℕ n =
    let (c, cs, e) = str_ℕ-cons n in
    int-Digits (str_ℕ n) (λ gone. cc (e, gone)) (str_ℕ-Digits n) ∙ ap some (read_from-str_ℕ n)

str_ℕ-Bytes : (n : ℕ) → Bytes (str_ℕ n)
str_ℕ-Bytes n = All-map (λ c d. ground arith) (str_ℕ n) (str_ℕ-Digits n)

canonical_self : (n : ℕ) → n ≤ max_offset → canonical (encode_cursor n) (some n) ≡ some n
unfolding canonical
canonical_self n h = rw (le→leb n max_offset h, ==_refl (encode_cursor n))

canonical_sound :
    (cursor : Text) (o : Option ℕ) (n : ℕ)
    → canonical cursor o ≡ some n
    → (cursor ≡ encode_cursor n) × (n ≤ max_offset)
unfolding canonical
canonical_sound cursor none n h = absurd (cc)
canonical_sound cursor (some m) n h = elim (Bool-cases (leb m max_offset)) [
  | inr over ↦ absurd (cc (rw over at h))
  | inl within ↦ elim (Bool-cases (encode_cursor m == cursor)) [
    | inr apart ↦ absurd (cc (rw (within, apart) at h))
    | inl same ↦
        let e : m ≡ n = cc (rw (within, same) at h) in
        rw (← e) (sym (==_true (encode_cursor m) cursor same), leb→le m max_offset within)
  ]
]

decode_self : (n : ℕ) → n ≤ max_offset → decode_cursor (encode_cursor n) ≡ some n
unfolding decode_cursor
decode_self n h =
    let decoded : b64decode (encode_cursor n) ≡ some (str_ℕ n) =
      unfold encode_cursor in b64decode-b64encode (str_ℕ n) (str_ℕ-Bytes n) in
    rw (decoded, int-str_ℕ n) (canonical_self n h)

-- A cursor is decoded to an offset exactly if it is the very text that encodes that offset, and the
-- offset is at most 2^53 - 1: no two cursors are accepted for one offset, and each cursor that a page
-- gives is accepted.
pub decode-encode_cursor :
    (cursor : Text) (n : ℕ)
    → (decode_cursor cursor ≡ some n) ↔ ((cursor ≡ encode_cursor n) × (n ≤ 2 ^ 53 - 1))
decode-encode_cursor cursor n = (
  (unfold decode_cursor in λ h. canonical_sound cursor (int_or_none (b64decode cursor)) n h),
  λ (e, bound). rw e (decode_self n bound),
)
