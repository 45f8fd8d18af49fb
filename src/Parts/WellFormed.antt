-- ===== src/Parts/WellFormed.antt =====
-- parts/well_formed.py: the identifier rule, and the repair of lone surrogates.
pub mod Keys
use gutencode_test.Prelude.{
  ℕ, Bool, ◌&&◌, map, Text, codes, ◌++◌, ltb, leb, length, all, if◌then◌else◌,
}
use gutencode_test.Core.Problem.{Problem, invalid}
use gutencode_test.Core.Exec.{Exec, require}

abbrev pub max_len : ℕ
max_len = 1024

-- ord(ch) >= 0x20
abbrev pub is_printing : ℕ → Bool
is_printing ch = leb 0x20 ch

unfoldable pub is_well_formed : Text → Bool
is_well_formed value = ltb 0 (length value) && leb (length value) max_len && all is_printing value

unfoldable pub repair : ℕ → ℕ
repair ch = if leb 0xD800 ch && leb ch 0xDFFF then 0xFFFD else ch

unfoldable pub make_well_formed : Text → Text
unfolding repair
make_well_formed value = map repair value

-- `require_well_formed(value, what)`: the value goes on, or a 422 is raised.
abbrev pub require_well_formed {ℓ} : {S : Type ℓ} → Text → Text → Exec S (Unit {0})
require_well_formed value what =
    require (is_well_formed value)
      (invalid (what ++ codes " must be non-empty with no control characters"))
