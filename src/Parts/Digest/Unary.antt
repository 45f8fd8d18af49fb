-- ===== src/Parts/Digest/Unary.antt =====
-- A hash that meets the assumptions of `Hash`: each code point in unary, ended by a 1.
use gutencode_test.Prelude.{ℕ, zero, suc, ◌≡◌, refl, ap, true, [], ◌∷◌, Text, All, arith}
use gutencode_test.Parts.Digest.{Hash, is_hex}

unfoldable pub unary : ℕ → Text → Text
unary zero rest = b'1' ∷ rest
unary (suc n) rest = b'0' ∷ unary n rest

unfoldable pub unary_text : Text → Text
unfolding unary
unary_text [] = []
unary_text (c ∷ cs) = unary c (unary_text cs)

abbrev IsHexText : Text → Type 0
IsHexText s = All (λ c. is_hex c ≡ true) s

unary-hex : (n : ℕ) (rest : Text) → IsHexText rest → IsHexText (unary n rest)
unfolding unary
unary-hex zero rest h = (refl, h)
unary-hex (suc n) rest h = (refl, unary-hex n rest h)

pub unary_text-hex : (s : Text) → IsHexText (unary_text s)
unfolding unary_text
unary_text-hex [] = tt
unary_text-hex (c ∷ cs) = unary-hex c (unary_text cs) (unary_text-hex cs)

unary-injective : (m n : ℕ) (s t : Text) → unary m s ≡ unary n t → (m ≡ n) × (s ≡ t)
unfolding unary
unary-injective zero zero s t e = (refl, cc)
unary-injective zero (suc n) s t e = ground arith
unary-injective (suc m) zero s t e = ground arith
unary-injective (suc m) (suc n) s t e =
    let rest = unary-injective m n s t (cc) in (ap suc rest.0, rest.1)

unary-ne_nil : (n : ℕ) (s : Text) → unary n s ≡ [] → ⊥
unfolding unary
unary-ne_nil zero s e = cc
unary-ne_nil (suc n) s e = cc

pub unary_text-injective : (s t : Text) → unary_text s ≡ unary_text t → s ≡ t
unfolding unary_text
unary_text-injective [] [] e = refl
unary_text-injective [] (d ∷ ds) e = absurd (unary-ne_nil d (unary_text ds) (cc))
unary_text-injective (c ∷ cs) [] e = absurd (unary-ne_nil c (unary_text cs) (cc))
unary_text-injective (c ∷ cs) (d ∷ ds) e =
    let parts = unary-injective c d (unary_text cs) (unary_text ds) e in
    cc (parts.0, unary_text-injective cs ds parts.1)

unfoldable pub unary_hash : Hash
unary_hash = record { sha256 = unary_text; hex = unary_text-hex; injective = unary_text-injective }
