-- ===== src/Domains/Ledger.antt =====
-- domains/ledger.py: the double-entry ledger. The state is the namespace "ledger_tx", keyed by the
-- transaction's id (`str(tid)` is one to one), and the counter "ledger_tx". The admin check comes
-- before the handlers.
pub mod Books
use gutencode_test.Prelude.{
  ℕ, ◌+◌, ◌-◌, ◌^◌, Bool, ◌&&◌, Option, List, [], ◌∷◌, codes, ℕ-Eq, leb, ltb, if◌then◌else◌, ℤ, pos,
  negsuc, ◌+ℤ◌, abs, length, all, Eq, ◌==◌, ℤ-Eq, keep, map, ◌++◌,
}
use gutencode_test.Core.Problem.{invalid}
use gutencode_test.Core.Exec.{Exec, pure, gets, atomically, require, ◌>>=◌, ◌>>◌}
use gutencode_test.Core.Table.{Table, put, values, next_id}

pub record Entry : Type 0 where
  pub account_id : ℤ
  pub amount : ℤ

pub record Transaction : Type 0 where
  pub id : ℕ
  pub entries : List Entry

pub record Ledger : Type 0 where
  pub txs : Table ℕ Transaction
  pub last_id : ℕ

-- abs(v) > _MAX_SAFE_INT is refused.
abbrev pub is_safe : ℤ → Bool
is_safe v = leb (abs v) (2 ^ 53 - 1)

-- sum(e.amount for e in entries)
unfoldable pub total : List Entry → ℤ
total [] = pos 0
total (e ∷ es) = e.amount +ℤ total es

-- The body: safe integers, at least two entries, and a balance of 0.
unfoldable pub must_balance : List Entry → Bool
must_balance es =
    all (λ e. is_safe e.account_id && is_safe e.amount) es && leb 2 (length es) && total es == pos 0

-- The next id, and the whole transaction in one write.
unfoldable pub insert : List Entry → Ledger → Transaction × Ledger
insert es l =
    let (tid, last) = next_id l.last_id in
    let tx : Transaction = record { id = tid; entries = es } in
    (tx, record { txs = put tid tx l.txs; last_id = last })

unfoldable pub post_transaction : List Entry → Exec Ledger Transaction
post_transaction es = do
  require (must_balance es) (invalid (codes "invalid body"))
  atomically (insert es)

-- The amounts that a transaction moves on an account.
abbrev pub moved : ℤ → Transaction → ℤ
moved account_id tx = total (keep (λ e. e.account_id == account_id) tx.entries)

unfoldable pub sum_moved : ℤ → List Transaction → ℤ
unfolding total
sum_moved account_id [] = pos 0
sum_moved account_id (tx ∷ txs) = moved account_id tx +ℤ sum_moved account_id txs

-- The balance is derived from the stored entries.
unfoldable pub balance : ℤ → Exec Ledger ℤ
balance account_id = do txs ← gets (λ (l : Ledger). values l.txs); pure (sum_moved account_id txs)
