-- ===== src/Parts/Digest.antt =====
-- parts/digest.py: the canonical fingerprint and the caller-scoped slot.
-- SHA-256 is not computed here: it is the parameter `Hash`, with the two things that the code relies
-- on, that a digest is lower-case hex and that no two inputs in use share a digest.
pub mod Scoped
pub mod Unary
use gutencode_test.Prelude.{
  ℕ, ◌≡◌, Bool, true, ◌&&◌, ◌||◌, List, [], ◌∷◌, ◌++◌, Text, All, all, not, is_digit, leb,
}

abbrev pub is_hex : ℕ → Bool
is_hex c = is_digit c || (leb b'a' c && leb c b'f')

pub record Hash : Type 0 where
  pub sha256 : Text → Text
  pub hex : (s : Text) → All (λ c. is_hex c ≡ true) (sha256 s)
  pub injective : (s t : Text) → sha256 s ≡ sha256 t → s ≡ t

-- str.encode() has the text's bytes; on a lone surrogate it raises.
abbrev pub encodes : Text → Bool
encodes s = all (λ c. not (leb 0xD800 c && leb c 0xDFFF)) s

-- ":".join(parts)
unfoldable pub join_colon : List Text → Text
join_colon [] = []
join_colon (p ∷ []) = p
join_colon (p ∷ q ∷ rest) = p ++ (b':' ∷ join_colon (q ∷ rest))

module _ (h : Hash) where
  -- The digest of parts that encode.
  unfoldable pub digest_hex : List Text → Text
  unfolding join_colon
  digest_hex parts = h.sha256 (join_colon parts)

  unfoldable pub scoped_key : Text → Text → Text → Text
  unfolding digest_hex
  scoped_key route caller key =
      digest_hex (route ∷ digest_hex (caller ∷ []) ∷ digest_hex (key ∷ []) ∷ [])
