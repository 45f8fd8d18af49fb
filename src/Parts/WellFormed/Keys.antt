-- ===== src/Parts/WellFormed/Keys.antt =====
-- A well-formed identifier cannot forge a composite key `<owner>\x1f<id>`.
use gutencode_test.Prelude.{
  ℕ, ◌≡◌, refl, true, false, [], ◌∷◌, ◌++◌, arith, Text, Free, split_last, all, leb,
}
use gutencode_test.Parts.WellFormed.{is_printing, is_well_formed, repair, make_well_formed}

all_printing-Free : (c : ℕ) (s : Text) → leb 0x20 c ≡ false → all is_printing s ≡ true → Free c s
all_printing-Free c [] h a = tt
all_printing-Free c (x ∷ s) h a = (ground arith, all_printing-Free c s h (ground arith))

-- A well-formed identifier holds no control character.
pub is_well_formed-Free :
    (c : ℕ) (s : Text) → leb 0x20 c ≡ false → is_well_formed s ≡ true → Free c s
unfolding is_well_formed
is_well_formed-Free c s h w = all_printing-Free c s h (ground arith)

-- f"{owner}\x1f{id}"
unfoldable pub composite : Text → Text → Text
composite owner id = owner ++ (0x1F ∷ id)

-- Where the ids hold no separator, two composite keys are equal only if the owners and the ids are.
pub composite-injective :
    (owner id owner' id' : Text)
    → Free 0x1F id
    → Free 0x1F id'
    → composite owner id ≡ composite owner' id'
    → (owner ≡ owner') × (id ≡ id')
unfolding composite
composite-injective owner id owner' id' free free' e =
    split_last 0x1F owner id owner' id' free free' e

repair_idem : (c : ℕ) → repair (repair c) ≡ repair c
unfolding repair
repair_idem c = ground arith

-- The repair does nothing to a text that it has repaired.
pub make_well_formed_idem : (s : Text) → make_well_formed (make_well_formed s) ≡ make_well_formed s
unfolding make_well_formed
make_well_formed_idem [] = refl
make_well_formed_idem (c ∷ s) = cc (repair_idem c, make_well_formed_idem s)
