-- ===== src/Domains/LlmUsage/Cost.antt =====
-- The cost is the server's: exact to the nanodollar in each dimension, and never free by omission.
use gutencode_test.Prelude.{
  ℕ, suc, ◌+◌, ◌*◌, ◌/◌, ◌≤◌, ◌<◌, ◌≡◌, ◌⊎◌, refl, none, some, List, [], ◌∷◌, Text, Text-Eq, ℕ-Eq,
  ◌==◌, ltb, All, length, arith, Bool-cases, Option-cases, inl, inr,
}
use gutencode_test.Core.Exec.{Result, ok, err}
use gutencode_test.Domains.LlmUsage.Prices.{
  Tokens, Rates, prices, Line, lines, add_line, bill, derive_from, derive_cost,
}

-- tokens × rate, in thousandths of a nanodollar.
abbrev pub due : Line → ℕ
due (field, dim, n, none) = 0
due (field, dim, n, some rate) = n * rate

unfoldable pub total_due : List Line → ℕ
total_due [] = 0
total_due (l ∷ ls) = due l + total_due ls

-- A line that counts tokens is priced, and within the ceiling.
abbrev pub IsBillable : ℕ → Line → Type 0
IsBillable max_tokens l = (l.2 ≡ 0) ⊎ ((l.2 ≤ max_tokens) × ((rate : ℕ) × (l.3 ≡ some rate)))

abbrev IsBilled : ℕ → List Line → ℕ → Type 0
IsBilled max_tokens ls cost =
    All (IsBillable max_tokens) ls
    × (cost * 1000 ≤ total_due ls)
    × (total_due ls ≤ cost * 1000 + 999 * length ls)

add_line-ok :
    (amount : ℕ) (rest : Result ℕ) (cost : ℕ)
    → add_line amount rest ≡ ok cost
    → (c : ℕ) × (rest ≡ ok c) × (cost ≡ amount + c)
add_line-ok amount (ok c) cost e = (c, refl, cc e)
add_line-ok amount (err p) cost e = absurd (cc)

rounding :
    (q amount c cost : ℕ) (t k : ℕ)
    → amount ≡ q / 1000
    → cost ≡ amount + c
    → c * 1000 ≤ t
    → t ≤ c * 1000 + 999 * k
    → (cost * 1000 ≤ q + t) × (q + t ≤ cost * 1000 + 999 * suc k)
rounding q amount c cost t k a e low high = omega arith

due_zero : (l : Line) → l.2 ≡ 0 → due l ≡ 0
due_zero (field, dim, n, none) e = refl
due_zero (field, dim, n, some rate) e = rw e (omega arith)

bill-IsBilled :
    (max_tokens : ℕ) (ls : List Line) (cost : ℕ)
    → bill max_tokens ls ≡ ok cost
    → IsBilled max_tokens ls cost
unfolding bill total_due
bill-IsBilled max_tokens [] cost e =
    let nothing_ : 0 ≡ cost = cc e in (tt, omega (arith, nothing_), omega (arith, nothing_))
bill-IsBilled max_tokens ((field, dim, n, rate) ∷ later) cost e = elim (Bool-cases (n == 0)) [
  | inl zero_ ↦
      let rest : bill max_tokens later ≡ ok cost = rw zero_ at e in
      let (good, low, high) = bill-IsBilled max_tokens later cost rest in
      let no_tokens : n ≡ 0 = ground arith in
      let free = due_zero (field, dim, n, rate) no_tokens in
      ((inl no_tokens, good), rw free (omega arith), rw free (omega arith))
  | inr some_ ↦ elim (Bool-cases (ltb max_tokens n)) [
    | inl over ↦ absurd (cc (rw (some_, over) at e))
    | inr within ↦ elim (Option-cases rate) [
      | inl unpriced ↦ absurd (cc (rw (some_, within, unpriced) at e))
      | inr (r, priced) ↦
          let priced_e : add_line (n * r / 1000) (bill max_tokens later) ≡ ok cost =
            rw (some_, within, priced) at e in
          let (c, rest, sum) = add_line-ok (n * r / 1000) (bill max_tokens later) cost priced_e in
          let (good, low, high) = bill-IsBilled max_tokens later c rest in
          rw priced (
            let bounds =
              rounding (n * r) (n * r / 1000) c cost (total_due later) (length later) refl sum low
                high in
            ((inr (ground arith, (r, refl)), good), bounds.0, bounds.1))
    ]
  ]
]

-- Whenever a cost is derived, the model is in the price table, every dimension with tokens has a rate
-- and at most the ceiling's count, and the cost is the sum of tokens × rate over all five dimensions, in
-- nanodollars, less than five nanodollars too low and never too high.
pub derive_cost-IsBilled :
    (max_tokens : ℕ) (provider model : Text) (t : Tokens) (cost : ℕ)
    → derive_cost max_tokens provider model t ≡ ok cost
    → (rates : Rates) × (prices provider model ≡ some rates)
      × All (IsBillable max_tokens) (lines t rates)
      × (cost * 1000 ≤ total_due (lines t rates))
      × (total_due (lines t rates) < (cost + 5) * 1000)
unfolding derive_cost derive_from
derive_cost-IsBilled max_tokens provider model t cost e =
    elim (Option-cases (prices provider model)) [
      | inl unknown ↦ absurd (cc (rw unknown at e))
      | inr (rates, known) ↦
          let billed : bill max_tokens (lines t rates) ≡ ok cost = rw known at e in
          let (good, low, high) = bill-IsBilled max_tokens (lines t rates) cost billed in
          let five : length (lines t rates) ≡ 5 = unfold lines in refl in
          (rates, known, good, low, omega (arith, high, five))
    ]
