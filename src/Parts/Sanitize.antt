-- ===== src/Parts/Sanitize.antt =====
-- parts/well_formed.py: `safe_number` and `sanitize_json` over the JSON values that a body may hold.
-- A float with a fractional part is kept as it is, so only its identity matters: `fraction` carries
-- its text. A float that is a whole number is `whole`, an int is `int`.
use gutencode_test.Prelude.{
  ℕ, ◌-◌, ◌^◌, Bool, ◌++◌, Text, Text-Eq, codes, ◌==◌, ltb, ℤ, abs, if◌then◌else◌,
}
use gutencode_test.Core.Problem.{invalid}
use gutencode_test.Core.Exec.{Result, ok, err}
use gutencode_test.Parts.WellFormed.{make_well_formed}

mutual
  pub data Json : Type 0 where
    null : Json
    boolean : Bool → Json
    int : ℤ → Json
    whole : ℤ → Json
    fraction : Text → Json
    str : Text → Json
    arr : Items → Json
    obj : Fields → Json

  pub data Items : Type 0 where
    nil : Items
    cons : Json → Items → Items

  pub data Fields : Type 0 where
    end : Fields
    field : Text → Json → Fields → Fields

abbrev pub max_safe_int : ℕ
max_safe_int = 2 ^ 53 - 1

-- `safe_number` of a whole number: past the ceiling a 422, else an int.
unfoldable pub safe_number : Text → ℤ → Result Json
safe_number name value =
    if ltb max_safe_int (abs value)
    then err (invalid (codes "field '" ++ (name ++ codes "' is out of the safe integer range")))
    else ok (int value)

-- An assignment to a key of a dict: a key that is there keeps its place.
unfoldable pub set_field : Text → Json → Fields → Fields
set_field k v end = field k v end
set_field k v (field j w fs) = if j == k then field j v fs else field j w (set_field k v fs)

abbrev pub and_then {ℓ κ} : {A : Type ℓ} {B : Type κ} → Result A → (A → Result B) → Result B
and_then (ok a) f = f a
and_then (err p) f = err p

unfoldable mutual
  pub sanitize_json : Text → Json → Result Json
  sanitize_json name null = ok null
  sanitize_json name (boolean b) = ok (boolean b)
  sanitize_json name (int n) = safe_number name n
  sanitize_json name (whole n) = safe_number name n
  sanitize_json name (fraction x) = ok (fraction x)
  sanitize_json name (str s) = ok (str (make_well_formed s))
  sanitize_json name (arr xs) = and_then (sanitize_items name xs) (λ ys. ok (arr ys))
  sanitize_json name (obj fs) = and_then (sanitize_fields name fs end) (λ gs. ok (obj gs))

  pub sanitize_items : Text → Items → Result Items
  sanitize_items name nil = ok nil
  sanitize_items name (cons x xs) =
      and_then (sanitize_json name x)
        (λ y. and_then (sanitize_items name xs) (λ ys. ok (cons y ys)))

  -- The dict comprehension, from the dict that is built so far.
  pub sanitize_fields : Text → Fields → Fields → Result Fields
  sanitize_fields name end built = ok built
  sanitize_fields name (field k v fs) built =
      and_then (sanitize_json name v)
        (λ w. sanitize_fields name fs (set_field (make_well_formed k) w built))
