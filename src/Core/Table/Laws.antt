-- ===== src/Core/Table/Laws.antt =====
-- What a key reads after each operation of a namespace.
use mathlib.Core.Path.{subst₂}
use gutencode_test.Prelude.{
  ◌≡◌, ◌≢◌, refl, Option, none, some, [], ◌∷◌, arith, Eq, ◌==◌, if◌then◌else◌, ==_refl, ==_false,
  ==_true, Bool-cases, Option-cases, inl, inr,
}
use gutencode_test.Core.Table.{Table, get, put, delete, do_, write_next}

module _ {κ} {V : Type κ} where
  -- What an update leaves in its row.
  abbrev pub after : Option V → Option V → Option V
  after old none = old
  after old (some v) = some v

module _ {ℓ κ} {K : Type ℓ} ⦃e : Eq K⦄ {V : Type κ} where
  pub get-put :
      (j k : K) (v : V) (t : Table K V) → get j (put k v t) ≡ (if k == j then some v else get j t)
  unfolding get put
  get-put j k v [] = refl
  get-put j k v ((i, w) ∷ t) =
      ground (arith, get-put j k v t, e.beq_iff k j, e.beq_iff i k, e.beq_iff i j)

  pub get-delete :
      (j k : K) (t : Table K V) → get j (delete k t) ≡ (if k == j then none else get j t)
  unfolding get delete
  get-delete j k [] = ground arith
  get-delete j k ((i, w) ∷ t) =
      ground (arith, get-delete j k t, e.beq_iff k j, e.beq_iff i k, e.beq_iff i j)

  pub get-put_self : (k : K) (v : V) (t : Table K V) → get k (put k v t) ≡ some v
  get-put_self k v t = rw (get-put k k v t, ==_refl k)

  pub get-put_ne : (j k : K) (v : V) (t : Table K V) → k ≢ j → get j (put k v t) ≡ get j t
  get-put_ne j k v t h = rw (get-put j k v t, ==_false k j h)

  -- A predicate of every row, as the namespace is read.
  abbrev pub AllAt {μ} : (K → V → Type μ) → Table K V → Type (ℓ ⊔ κ ⊔ μ)
  AllAt P t = (k : K) (v : V) → get k t ≡ some v → P k v

  -- A predicate of every stored value.
  abbrev pub AllRows {μ} : (V → Type μ) → Table K V → Type (ℓ ⊔ κ ⊔ μ)
  AllRows P = AllAt (λ k. P)

  pub AllAt-put {μ} :
      (P : K → V → Type μ) (k : K) (v : V) (t : Table K V) → P k v → AllAt P t → AllAt P (put k v t)
  AllAt-put P k v t p h j w found = elim (Bool-cases (k == j)) [
    | inl same ↦ subst₂ P (==_true k j same) (ground (arith, get-put j k v t)) p
    | inr other ↦ h j w (ground (arith, get-put j k v t))
  ]

  pub AllRows-delete {μ} :
      (P : V → Type μ) (k : K) (t : Table K V) → AllRows P t → AllRows P (delete k t)
  AllRows-delete P k t h j w found = h j w (ground (arith, get-delete j k t))

  pub AllRows-nil {μ} : (P : V → Type μ) → AllRows P []
  unfolding get
  AllRows-nil P k v found = absurd (cc)

  pub AllAt-write_next {μ} :
      (P : K → V → Type μ) (k : K) (next : Option V) (t : Table K V)
      → ((v : V) → next ≡ some v → P k v)
      → AllAt P t
      → AllAt P (write_next k next t)
  AllAt-write_next P k none t p h = h
  AllAt-write_next P k (some v) t p h = AllAt-put P k v t (p v refl) h

  -- An update whose callback keeps the predicate keeps it in the namespace.
  pub AllAt-do_ {μ ν} :
      {R : Type ν} (P : K → V → Type μ) (k : K) (fn : Option V → Option V × R) (t : Table K V)
      → ((v : V) → (fn (get k t)).0 ≡ some v → P k v)
      → AllAt P t
      → AllAt P (do_ k fn t).1
  unfolding do_
  AllAt-do_ P k fn t p h = AllAt-write_next P k (fn (get k t)).0 t p h

  pub AllRows-do_ {μ ν} :
      {R : Type ν} (P : V → Type μ) (k : K) (fn : Option V → Option V × R) (t : Table K V)
      → ((v : V) → (fn (get k t)).0 ≡ some v → P v)
      → AllRows P t
      → AllRows P (do_ k fn t).1
  AllRows-do_ P = AllAt-do_ (λ k. P)

  -- A read-modify-write of one key leaves every other key as it was.
  pub get-do_ne {ν} :
      {R : Type ν} (j k : K) (fn : Option V → Option V × R) (t : Table K V)
      → k ≢ j
      → get j (do_ k fn t).1 ≡ get j t
  unfolding do_
  get-do_ne j k fn t h = elim (Option-cases (fn (get k t)).0) [
    | inl e ↦ rw e
    | inr (v, e) ↦ rw e (get-put_ne j k v t h)
  ]

  -- The row of the key itself: the callback's next value, or what was there.
  pub get-do_self {ν} :
      {R : Type ν} (k : K) (fn : Option V → Option V × R) (t : Table K V)
      → get k (do_ k fn t).1 ≡ elim (fn (get k t)).0 [ none ↦ get k t | some v ↦ some v ]
  unfolding do_
  get-do_self k fn t = elim (Option-cases (fn (get k t)).0) [
    | inl e ↦ rw e
    | inr (v, e) ↦ rw e (get-put_self k v t)
  ]

  do_-at_self {μ ν} :
      {R : Type ν} (Q : Option V → Type μ) (k : K) (fn : Option V → Option V × R) (t : Table K V)
      → ((v : V) → (fn (get k t)).0 ≡ some v → Q (some v))
      → Q (get k t)
      → Q (get k (do_ k fn t).1)
  unfolding do_
  do_-at_self Q k fn t step q = elim (Option-cases (fn (get k t)).0) [
    | inl stays ↦ rw stays q
    | inr (v, e) ↦ rw e (rw (get-put_self k v t) (step v e))
  ]

  -- A statement about one key is kept by an update of any key, if the callback keeps it.
  pub do_-at {μ ν} :
      {R : Type ν} (Q : Option V → Type μ) (j k : K) (fn : Option V → Option V × R) (t : Table K V)
      → ((v : V) → (fn (get j t)).0 ≡ some v → Q (some v))
      → Q (get j t)
      → Q (get j (do_ k fn t).1)
  do_-at Q j k fn t step q = elim (Bool-cases (k == j)) [
    | inl same ↦ rw (==_true k j same) (do_-at_self Q j fn t step q)
    | inr other ↦ rw (get-do_ne j k fn t (λ p. cc (rw p at other, ==_refl j))) q
  ]
