-- ===== src/Parts/Digest/Scoped.antt =====
-- The slot of parts/digest.py is private to its route, caller and key.
use gutencode_test.Prelude.{
  [], ℕ, refl, true, false, All, arith, ◌≡◌, ◌∷◌, ◌++◌, ◌∙◌, sym, Text, Free, split_last,
}
use gutencode_test.Parts.Digest.{Hash, is_hex, scoped_key}
use mathlib.Core.List.{append_assoc}

hex-Free : (c : ℕ) (s : Text) → is_hex c ≡ false → All (λ x. is_hex x ≡ true) s → Free c s
hex-Free c [] n h = tt
hex-Free c (x ∷ s) n h = (ground arith, hex-Free c s n h.1)

-- A digest holds no delimiter.
pub sha256-Free : (h : Hash) (c : ℕ) (s : Text) → is_hex c ≡ false → Free c (h.sha256 s)
sha256-Free h c s n = hex-Free c (h.sha256 s) n (h.hex s)

pub scoped_key-Free :
    (h : Hash) (c : ℕ) (route caller key : Text)
    → is_hex c ≡ false
    → Free c (scoped_key h route caller key)
unfolding scoped_key
scoped_key-Free h c route caller key n = sha256-Free h c _ n

-- Three parts joined by a delimiter that the last two do not hold determine the parts.
split_three :
    (c : ℕ) (xs ys zs xs' ys' zs' : Text)
    → Free c ys
    → Free c zs
    → Free c ys'
    → Free c zs'
    → xs ++ (c ∷ (ys ++ (c ∷ zs))) ≡ xs' ++ (c ∷ (ys' ++ (c ∷ zs')))
    → (xs ≡ xs') × (ys ≡ ys') × (zs ≡ zs')
split_three c xs ys zs xs' ys' zs' fy fz fy' fz' e =
    let regrouped : (xs ++ (c ∷ ys)) ++ (c ∷ zs) ≡ (xs' ++ (c ∷ ys')) ++ (c ∷ zs') =
      append_assoc xs (c ∷ ys) (c ∷ zs) ∙ e ∙ sym (append_assoc xs' (c ∷ ys') (c ∷ zs')) in
    let outer = split_last c (xs ++ (c ∷ ys)) zs (xs' ++ (c ∷ ys')) zs' fz fz' regrouped in
    let inner = split_last c xs ys xs' ys' fy fy' outer.0 in (inner.0, inner.1, outer.1)

-- Two slots are equal only if the routes, the callers and the keys are: no choice of a caller or a
-- key, colons included, forges the slot of another.
pub scoped_key-injective :
    (h : Hash) (route caller key route' caller' key' : Text)
    → scoped_key h route caller key ≡ scoped_key h route' caller' key'
    → (route ≡ route') × (caller ≡ caller') × (key ≡ key')
unfolding scoped_key
scoped_key-injective h route caller key route' caller' key' e =
    let colon_free = λ (s : Text). sha256-Free h b':' s refl in
    let parts =
      split_three b':' route (h.sha256 caller) (h.sha256 key) route' (h.sha256 caller')
        (h.sha256 key') (colon_free caller) (colon_free key) (colon_free caller') (colon_free key')
        (h.injective _ _ e) in
    (parts.0, h.injective _ _ parts.1, h.injective _ _ parts.2)
