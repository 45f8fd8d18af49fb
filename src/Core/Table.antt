-- ===== src/Core/Table.antt =====
-- core/store.py and core/store_sqlite.py: one namespace of the store, as the rows of `_kv` with that
-- `ns` in rowid order. (De)serialization is the identity on the JSON values that the domains write.
pub mod Laws
use gutencode_test.Prelude.{ℕ, ◌+◌, Option, none, some, List, [], ◌∷◌, map, Eq, ◌==◌, if◌then◌else◌}

abbrev pub Table {ℓ κ} : Type ℓ → Type κ → Type (ℓ ⊔ κ)
Table K V = List (K × V)

abbrev pub empty {ℓ κ} : {K : Type ℓ} {V : Type κ} → Table K V
empty = []

module _ {ℓ κ} {K : Type ℓ} {V : Type κ} where
  -- SELECT v ... ORDER BY rowid
  unfoldable pub values : Table K V → List V
  values t = map (λ row. row.1) t

module _ {ℓ κ} {K : Type ℓ} ⦃e : Eq K⦄ {V : Type κ} where
  -- SELECT v ... WHERE k = ?
  unfoldable pub get : K → Table K V → Option V
  get k [] = none
  get k ((j, v) ∷ t) = if j == k then some v else get k t

  -- INSERT ... ON CONFLICT DO UPDATE: an update keeps the row's place, an insert appends.
  unfoldable pub put : K → V → Table K V → Table K V
  put k v [] = (k, v) ∷ []
  put k v ((j, w) ∷ t) = if j == k then (j, v) ∷ t else (j, w) ∷ put k v t

  -- DELETE ... WHERE k = ?
  unfoldable pub delete : K → Table K V → Table K V
  delete k [] = []
  delete k ((j, w) ∷ t) = let rest = delete k t in if j == k then rest else (j, w) ∷ rest

  -- `raw_next is not None`: write; None leaves the row unwritten.
  abbrev pub write_next : K → Option V → Table K V → Table K V
  write_next k none t = t
  write_next k (some v) t = put k v t

  -- The atomic read-modify-write of one key. The callback is pure, so it is a function of the row.
  unfoldable pub do_ {μ} : {R : Type μ} → K → (Option V → Option V × R) → Table K V → R × Table K V
  do_ k fn t = let (next, ret) = fn (get k t) in (ret, write_next k next t)

-- INSERT INTO _seq ... ON CONFLICT DO UPDATE SET n = n + 1 RETURNING n, at the counter's value
-- (0 for a name that has no row yet): the new value is returned and stored.
unfoldable pub next_id : ℕ → ℕ × ℕ
next_id n = (n + 1, n + 1)
