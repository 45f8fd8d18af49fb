-- ===== src/Domains/Ledger/Books.antt =====
-- The books balance after every history, and a post moves exactly its own entries.
use gutencode_test.Prelude.{
  ℕ, ◌+◌, ◌<◌, ◌≤◌, ◌≡◌, refl, ap, ◌∙◌, true, List, [], ◌∷◌, ◌++◌, ℕ-Eq, ◌==◌, ==_true, ==_false,
  Bool-cases, inl, inr, arith, if◌then◌else◌, All, All-map, ℤ, pos, ◌+ℤ◌, int_laws, ℤ-Eq, keep,
}
use gutencode_test.Core.Exec.{ok, ◌>>=◌}
use gutencode_test.Core.Table.{Table, put, values, next_id}
use gutencode_test.Domains.Ledger.{
  Entry, Transaction, Ledger, total, must_balance, insert, post_transaction, moved, sum_moved,
  balance,
}

abbrev pub no_ledger : Ledger
no_ledger = record { txs = []; last_id = 0 }

-- The ledger after a history of posts.
unfoldable pub serve : List (List Entry) → Ledger → Ledger
serve [] l = l
serve (es ∷ rest) l = serve rest (post_transaction es l).1

-- Every row balances, and its key was minted.
abbrev pub IsBalanced : Ledger → Type 0
IsBalanced l = All (λ row. (row.0 ≤ l.last_id) × (total row.1.entries ≡ pos 0)) l.txs

-- A row that is new goes to the end.
put-new :
    (k last : ℕ) (tx : Transaction) (t : Table ℕ Transaction)
    → last < k
    → All (λ row. (row.0 ≤ last) × (total row.1.entries ≡ pos 0)) t
    → put k tx t ≡ t ++ ((k, tx) ∷ [])
unfolding put
put-new k last tx [] fresh below = refl
put-new k last tx ((j, w) ∷ t) fresh below =
    rw (==_false j k (λ e. omega (arith, e, below.0.0)))
      (ap (λ r. (j, w) ∷ r) (put-new k last tx t fresh below.1))

values-new :
    (k : ℕ) (tx : Transaction) (t : Table ℕ Transaction)
    → values (t ++ ((k, tx) ∷ [])) ≡ values t ++ (tx ∷ [])
unfolding values
values-new k tx [] = refl
values-new k tx (row ∷ t) = ap (λ r. row.1 ∷ r) (values-new k tx t)

+ℤ_assoc : (a b c : ℤ) → a +ℤ (b +ℤ c) ≡ a +ℤ b +ℤ c
+ℤ_assoc a b c = omega int_laws

sum_moved-append :
    (account_id : ℤ) (txs : List Transaction) (tx : Transaction)
    → sum_moved account_id (txs ++ (tx ∷ [])) ≡ sum_moved account_id txs +ℤ moved account_id tx
unfolding sum_moved
sum_moved-append account_id [] tx = omega int_laws
sum_moved-append account_id (x ∷ txs) tx =
    ap (λ n. moved account_id x +ℤ n) (sum_moved-append account_id txs tx)
    ∙ +ℤ_assoc (moved account_id x) (sum_moved account_id txs) (moved account_id tx)

must_balance-total : (es : List Entry) → must_balance es ≡ true → total es ≡ pos 0
unfolding must_balance
must_balance-total es e = ==_true (total es) (pos 0) (ground arith)

All-append_row :
    (P : ℕ × Transaction → Type 0) (t : Table ℕ Transaction) (row : ℕ × Transaction)
    → All P t
    → P row
    → All P (t ++ (row ∷ []))
All-append_row P [] row a p = (p, tt)
All-append_row P (x ∷ t) row a p = (a.0, All-append_row P t row a.1 p)

All-below :
    (t : Table ℕ Transaction) (n : ℕ)
    → All (λ row. (row.0 ≤ n) × (total row.1.entries ≡ pos 0)) t
    → All (λ row. (row.0 ≤ n + 1) × (total row.1.entries ≡ pos 0)) t
All-below t n = All-map (λ row p. (omega (arith, p.0), p.1)) t

insert-txs :
    (es : List Entry) (l : Ledger)
    → IsBalanced l
    → (insert es l).1.txs
      ≡ l.txs ++ ((l.last_id + 1, record { id = l.last_id + 1; entries = es }) ∷ [])
unfolding insert next_id
insert-txs es l b = put-new (l.last_id + 1) l.last_id _ l.txs (omega arith) b

insert-IsBalanced :
    (es : List Entry) (l : Ledger) → total es ≡ pos 0 → IsBalanced l → IsBalanced (insert es l).1
insert-IsBalanced es l e b = rw (insert-txs es l b) (
    unfold insert next_id in
    All-append_row _ l.txs _ (All-below l.txs l.last_id b) (omega arith, e))

post-IsBalanced :
    (es : List Entry) (l : Ledger) → IsBalanced l → IsBalanced (post_transaction es l).1
unfolding post_transaction ◌>>=◌
post-IsBalanced es l b = elim (Bool-cases (must_balance es)) [
  | inl good ↦ rw good (insert-IsBalanced es l (must_balance-total es good) b)
  | inr bad ↦ rw bad b
]

serve-IsBalanced :
    (history : List (List Entry)) (l : Ledger) → IsBalanced l → IsBalanced (serve history l)
unfolding serve
serve-IsBalanced [] l b = b
serve-IsBalanced (es ∷ rest) l b =
    serve-IsBalanced rest (post_transaction es l).1 (post-IsBalanced es l b)

-- After any history of posts, valid or not, every stored transaction balances; and one more post
-- changes the derived balance of each account by exactly its own entries for that account if it is
-- valid, and by nothing if it is not.
pub post_moves :
    (history : List (List Entry)) (es : List Entry) (account_id : ℤ)
    → let l = serve history no_ledger in
      let l' = (post_transaction es l).1 in
      All (λ row. total row.1.entries ≡ pos 0) l.txs
      × ((balance account_id l').0
          ≡ ok (
              if must_balance es
              then sum_moved account_id (values l.txs)
                +ℤ total (keep (λ e. e.account_id == account_id) es)
              else sum_moved account_id (values l.txs)))
unfolding post_transaction ◌>>=◌ balance
post_moves history es account_id =
    let l = serve history no_ledger in
    let b = serve-IsBalanced history no_ledger tt in
    (
      All-map (λ row p. p.1) l.txs b,
      elim (Bool-cases (must_balance es)) [
        | inr bad ↦ rw bad
        | inl good ↦ rw good (
            ap ok (
              ap (λ t. sum_moved account_id (values t)) (insert-txs es l b)
              ∙ ap (sum_moved account_id) (values-new (l.last_id + 1) _ l.txs)
              ∙ sum_moved-append account_id (values l.txs) _))
      ],
    )
