-- ===== src/Domains/RateLimit/Limit.antt =====
-- The limit holds exactly, per key and window, in every history of checks.
use gutencode_test.Prelude.{
  ℕ, ◌+◌, ◌-◌, ◌/◌, ◌≡◌, refl, ap, ◌∙◌, Bool, true, false, not, ◌&&◌, Option, none, some, List, [],
  ◌∷◌, Text, Text-Eq, ℕ-Eq, ◌==◌, ==_true, ==_refl, Bool-cases, Option-cases, inl, inr, leb, min,
  arith, keep, length, if◌then◌else◌, split_last, str_ℕ-injective, str_ℕ-Digits, Digits-Free, str_ℕ,
}
use gutencode_test.Core.Exec.{Result, ok, err, ◌>>=◌}
use gutencode_test.Core.Table.{get, do_}
use gutencode_test.Core.Table.Laws.{get-do_ne, get-do_self}
use gutencode_test.Parts.WellFormed.{is_well_formed}
use gutencode_test.Domains.RateLimit.{Knobs, window, Windows, or_zero, slot_of, consume, check}

abbrev is_ok : {A : Type 0} → Result A → Bool
is_ok (ok a) = true
is_ok (err p) = false

abbrev is_some : {A : Type 0} → Option A → Bool
is_some none = false
is_some (some a) = true

-- A check is its key and its reading of the clock.
abbrev pub Request : Type 0
Request = Text × ℕ

module _ (k : Knobs) where
  -- The request counts against the key's window.
  abbrev pub counts_against : Text → ℕ → Request → Bool
  counts_against key window_id r = r.0 == key && (r.1 / window k == window_id)

  -- How many checks of a history were allowed against the key's window.
  unfoldable pub allowed_in : Text → ℕ → List Request → Windows → ℕ
  allowed_in key window_id [] t = 0
  allowed_in key window_id ((k', now) ∷ rest) t =
      let (reply, t') = check k k' now t in
      let later = allowed_in key window_id rest t' in
      if counts_against key window_id (k', now) && is_ok reply then later + 1 else later

slot_of-injective :
    (key key' : Text) (n n' : ℕ) → slot_of key n ≡ slot_of key' n' → (key ≡ key') × (n ≡ n')
unfolding slot_of
slot_of-injective key key' n n' e =
    let digits_free = λ (m : ℕ). Digits-Free b':' (str_ℕ m) refl (str_ℕ-Digits m) in
    let (keys, ids) =
      split_last b':' key (str_ℕ n) key' (str_ℕ n') (digits_free n) (digits_free n') e in
    (keys, str_ℕ-injective n n' ids)

module _ (limit : ℕ) (slot : Text) (t : Windows) where
  -- What a consume does to its own count, and whether it is allowed.
  consume-own :
      (or_zero (get slot (do_ slot (consume limit) t).1) ≡ (
        if leb limit (or_zero (get slot t))
        then or_zero (get slot t)
        else or_zero (get slot t) + 1))
      × ((do_ slot (consume limit) t).0 ≡ (
          if leb limit (or_zero (get slot t))
          then none
          else some (limit - (or_zero (get slot t) + 1))))
  consume-own = elim (Bool-cases (leb limit (or_zero (get slot t)))) [
    | inl full ↦
        rw (full, get-do_self slot (consume limit) t) (unfold do_ consume in rw full (refl, refl))
    | inr free ↦
        rw (free, get-do_self slot (consume limit) t) (unfold do_ consume in rw free (refl, refl))
  ]

module _ (k : Knobs) (key : Text) (now : ℕ) (t : Windows) where
  -- A well-formed key's check is the consume of its window.
  check-good :
      is_well_formed key ≡ true
      → let (left, t') = do_ (slot_of key (now / window k)) (consume k.limit) t in
        ((check k key now t).1 ≡ t') × (is_ok (check k key now t).0 ≡ is_some left)
  unfolding check ◌>>=◌
  check-good good = elim (Option-cases (do_ (slot_of key (now / window k)) (consume k.limit) t).0) [
    | inl denied ↦ rw (good, denied) (refl, refl)
    | inr (left, allowed) ↦ rw (good, allowed) (refl, refl)
  ]

  check-bad :
      is_well_formed key ≡ false
      → ((check k key now t).1 ≡ t) × (is_ok (check k key now t).0 ≡ false)
  unfolding check ◌>>=◌
  check-bad bad = rw bad (refl, refl)

  check-own :
      is_well_formed key ≡ true
      → let n = or_zero (get (slot_of key (now / window k)) t) in
        (or_zero (get (slot_of key (now / window k)) (check k key now t).1)
          ≡ (if leb k.limit n then n else n + 1))
        × (is_ok (check k key now t).0 ≡ not (leb k.limit n))
  check-own good =
      let slot = slot_of key (now / window k) in
      let (state, reply) = check-good good in
      let (count, left) = consume-own k.limit slot t in
      (ap (λ t'. or_zero (get slot t')) state ∙ count, reply ∙ ap is_some left ∙ ground arith)

  -- A check that does not count against a window leaves its count.
  check-other :
      (key' : Text) (window_id : ℕ)
      → counts_against k key' window_id (key, now) ≡ false
      → get (slot_of key' window_id) (check k key now t).1 ≡ get (slot_of key' window_id) t
  check-other key' window_id apart = elim (Bool-cases (is_well_formed key)) [
    | inr bad ↦ rw (check-bad bad).0
    | inl good ↦
        ap (get (slot_of key' window_id)) (check-good good).0
        ∙ get-do_ne (slot_of key' window_id) (slot_of key (now / window k)) (consume k.limit) t
            λ same.
              let (keys, ids) = slot_of-injective key key' (now / window k) window_id same in
              cc (rw (keys, ids, ==_refl key', ==_refl window_id) at apart)
  ]

allowed_in-count :
    (k : Knobs) (key : Text) (window_id : ℕ) (requests : List Request) (t : Windows)
    → is_well_formed key ≡ true
    → allowed_in k key window_id requests t
      ≡ min
          (k.limit - or_zero (get (slot_of key window_id) t))
          (length (keep (counts_against k key window_id) requests))
unfolding allowed_in
allowed_in-count k key window_id [] t good = omega arith
allowed_in-count k key window_id ((key', now) ∷ rest) t good =
    let t' = (check k key' now t).1 in
    let later = allowed_in-count k key window_id rest t' good in
    elim (Bool-cases (counts_against k key window_id (key', now))) [
      | inr apart ↦ rw apart (rw (check-other k key' now t key window_id apart) at later)
      | inl counts ↦
          let same_key : key' ≡ key = ==_true key' key (ground arith) in
          let same_id : now / window k ≡ window_id =
            ==_true (now / window k) window_id (ground arith) in
          let slots : slot_of key' (now / window k) ≡ slot_of key window_id =
            cc (same_key, same_id) in
          let (count, reply) = rw slots at (check-own k key' now t (rw same_key good)) in
          rw (counts, reply) (ground (arith, later, count))
    ]

-- In every history of checks from an empty store, at whatever clock readings and with whatever other
-- keys between, the number of checks of a well-formed key that are allowed in one window is the
-- smaller of the limit and the number of checks made.
pub limit_holds :
    (k : Knobs) (key : Text) (window_id : ℕ) (requests : List Request)
    → is_well_formed key ≡ true
    → allowed_in k key window_id requests []
      ≡ min k.limit (length (keep (counts_against k key window_id) requests))
limit_holds k key window_id requests good =
    allowed_in-count k key window_id requests [] good ∙ unfold get in omega arith
