-- ===== src/Domains/LlmUsage/Asked.antt =====
-- What a summary is asked for, said without its filter and its reading of the bounds, and that those
-- decide it.
use gutencode_test.Prelude.{
  ℕ, suc, ◌≡◌, ◌≢◌, ◌↔◌, refl, ap, ◌∙◌, Bool, true, false, Option, none, some, List, [], ◌∷◌, Text,
  Text-Eq, ℕ-Eq, ◌==◌, ==_true, ==_refl, ℤ, pos, negsuc, ◌-ℤ◌, ◌≤ℤ◌, -ℤ_parts, eq_of_parts, keep,
  all, is_digit, Digits, str_ℕ, str_ℕ-cons, str_ℕ-Digits, read_from, read_from-str_ℕ, arith,
  Bool-cases, inl, inr,
}
use gutencode_test.Core.Exec.{ok}
use gutencode_test.Domains.LlmUsage.{Event}
use gutencode_test.Domains.LlmUsage.Summary.{
  parse_ts, digits_or_invalid, before, after, fits_model, is_counted,
}

-- The text of a bound: absent, or the integer in decimal.
abbrev pub bound_text : Option ℤ → Text
bound_text none = []
bound_text (some (pos n)) = str_ℕ n
bound_text (some (negsuc n)) = b'-' ∷ str_ℕ (suc n)

-- What a summary is asked for: the caller's own events, at or after the one bound, at or before the
-- other, and of the model, if one is named.
abbrev pub AtOrAfter : Option ℤ → ℤ → Type 0
AtOrAfter none at = Unit
AtOrAfter (some from) at = from ≤ℤ at

abbrev pub AtOrBefore : Option ℤ → ℤ → Type 0
AtOrBefore none at = Unit
AtOrBefore (some to) at = at ≤ℤ to

pub record IsAskedFor (owner : Text) (from to : Option ℤ) (model : Text) (rec : Event)
    : Type 0 where
  pub own : rec.owner ≡ owner
  pub starts : AtOrAfter from rec.at
  pub ends : AtOrBefore to rec.at
  pub named : model ≢ [] → rec.model ≡ model

-- The second list is made of exactly those rows of the first that have the property.
pub data Selects (P : Event → Type 0) : List Event → List Event → Type 0 where
  nil : Selects P [] []
  taken :
      {rec : Event} {rows picked : List Event}
      → P rec
      → Selects P rows picked
      → Selects P (rec ∷ rows) (rec ∷ picked)
  passed :
      {rec : Event} {rows picked : List Event}
      → ¬ P rec
      → Selects P rows picked
      → Selects P (rec ∷ rows) picked

all-Digits : (s : Text) → Digits s → all is_digit s ≡ true
all-Digits [] d = refl
all-Digits (c ∷ cs) d = rw (d.0, all-Digits cs d.1)

digits_or_invalid-str_ℕ :
    (n : ℕ) (sign : ℕ → ℤ) → digits_or_invalid (str_ℕ n) sign ≡ ok (some (sign n))
unfolding digits_or_invalid
digits_or_invalid-str_ℕ n sign =
    let (c, cs, e) = str_ℕ-cons n in
    let digits : all is_digit (c ∷ cs) ≡ true = rw e at (all-Digits (str_ℕ n) (str_ℕ-Digits n)) in
    let value : read_from 0 (c ∷ cs) ≡ n = rw e at (read_from-str_ℕ n) in
    rw e (rw digits (ap (λ m. ok (some (sign m))) value))

negated : (n : ℕ) → pos 0 -ℤ pos (suc n) ≡ negsuc n
negated n =
    let parts = -ℤ_parts (pos 0) (pos (suc n)) in
    eq_of_parts (pos 0 -ℤ pos (suc n)) (negsuc n) (omega (arith, parts))

pub parse_ts-bound_text : (bound : Option ℤ) → parse_ts (bound_text bound) ≡ ok bound
unfolding parse_ts
parse_ts-bound_text none = refl
parse_ts-bound_text (some (negsuc n)) =
    digits_or_invalid-str_ℕ (suc n) _ ∙ ap (λ z. ok (some z)) (negated n)
parse_ts-bound_text (some (pos n)) =
    let (c, cs, e) = str_ℕ-cons n in
    let plain : is_digit c ≡ true = (rw e at (str_ℕ-Digits n)).0 in
    let unsigned : (c == b'-') ≡ false = ground arith in
    let read : digits_or_invalid (c ∷ cs) pos ≡ ok (some (pos n)) =
      rw e at (digits_or_invalid-str_ℕ n pos) in
    rw e (rw unsigned read)

before_lem : (from : Option ℤ) (at : ℤ) → (before at from ≡ false) ↔ AtOrAfter from at
before_lem none at = ground arith
before_lem (some f) at = ground arith

after_lem : (to : Option ℤ) (at : ℤ) → (after at to ≡ false) ↔ AtOrBefore to at
after_lem none at = ground arith
after_lem (some t) at = ground arith

fits_model_lem : (model name : Text) → (fits_model model name ≡ true) ↔ (model ≢ [] → name ≡ model)
fits_model_lem [] name = (λ e named. absurd (named refl), λ _. refl)
fits_model_lem (c ∷ cs) name = (
  λ e named. ==_true name (c ∷ cs) e,
  λ named. rw (named (λ e. absurd (cc e))) (==_refl (c ∷ cs)),
)

-- The filter decides the property.
pub is_counted_lem :
    (owner : Text) (from to : Option ℤ) (model : Text) (rec : Event)
    → (is_counted owner from to model rec ≡ true) ↔ IsAskedFor owner from to model rec
is_counted_lem owner from to model rec = (forth, back)
  where
    forth : is_counted owner from to model rec ≡ true → IsAskedFor owner from to model rec
    forth e = record {
      own = ==_true rec.owner owner (ground arith);
      starts = (before_lem from rec.at).0 (ground arith);
      ends = (after_lem to rec.at).0 (ground arith);
      named = (fits_model_lem model rec.model).0 (ground arith);
    }

    back : IsAskedFor owner from to model rec → is_counted owner from to model rec ≡ true
    back p =
        let mine : (rec.owner == owner) ≡ true = rw p.own (==_refl owner) in
        rw (
          mine,
          (before_lem from rec.at).1 p.starts,
          (after_lem to rec.at).1 p.ends,
          (fits_model_lem model rec.model).1 p.named,
        )

pub keep-Selects :
    (P : Event → Type 0) (test : Event → Bool)
    → ((rec : Event) → (test rec ≡ true) ↔ P rec)
    → (rows : List Event) → Selects P rows (keep test rows)
keep-Selects P test decides [] = nil
keep-Selects P test decides (rec ∷ rows) = elim (Bool-cases (test rec)) [
  | inl hit ↦ rw hit (taken ((decides rec).0 hit) (keep-Selects P test decides rows))
  | inr miss ↦
      rw miss
        (passed (λ p. absurd (cc ((decides rec).1 p, miss))) (keep-Selects P test decides rows))
]
