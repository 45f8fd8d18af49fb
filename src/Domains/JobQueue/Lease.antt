-- ===== src/Domains/JobQueue/Lease.antt =====
-- A lease is exclusive while it runs, and its token is worth nothing to a job's later deliveries.
use gutencode_test.Prelude.{
  ℕ, ◌≤◌, ◌<◌, ◌≡◌, ◌≢◌, sym, ◌∙◌, Option, none, some, List, [], Text, Text-Eq, true, ◌==◌, ==_true,
  ==_false, ℕ-Eq, All, All-map, ==_refl, arith, str_ℕ-injective, Bool-cases, inl, inr,
}
use gutencode_test.Core.Exec.{ok, ◌>>=◌}
use gutencode_test.Core.Table.{get, do_, next_id}
use gutencode_test.Core.Table.Laws.{do_-at, get-do_ne, get-put_ne}
use gutencode_test.Parts.Digest.{Hash}
use gutencode_test.Parts.Digest.Scoped.{scoped_key-injective}
use gutencode_test.Domains.JobQueue.{
  Config, Job, Queue, is_running, lease_token_of, take_fn, complete_fn, fail_fn, done, view,
  insert_job, on_jobs, claimable, complete,
}
use gutencode_test.Domains.JobQueue.Requests.{Request, IsKept, Presents, serve, serve-kept}

-- The token names the job and the delivery.
pub lease_token_of-injective :
    (h : Hash) (id a id' a' : ℕ)
    → lease_token_of h id a ≡ lease_token_of h id' a'
    → (id ≡ id') × (a ≡ a')
unfolding lease_token_of
lease_token_of-injective h id a id' a' e =
    let parts = scoped_key-injective h _ _ _ _ _ _ e in
    (str_ℕ-injective id id' parts.1, str_ℕ-injective a a' parts.2)

module _ (h : Hash) (c : Config) (id : ℕ) (j : Job) where
  -- The job is stored as it was claimed.
  abbrev Stays : Queue → Type 0
  Stays q = (get id q.jobs ≡ some j) × (id ≤ q.last_id)

  -- Not the token of this lease.
  abbrev pub NotOurs : ℕ → Text → Type 0
  NotOurs id' token = (id' ≡ id) × (token ≡ j.lease_token) → ⊥

  do_-Stays :
      {R : Type 0} (k : ℕ) (fn : Option Job → Option Job × R) (q : Queue)
      → (k ≡ id → (fn (some j)).0 ≡ none)
      → Stays q
      → Stays (on_jobs (do_ k fn) q).1
  unfolding on_jobs
  do_-Stays k fn q quiet (held, minted) = elim (Bool-cases (k == id)) [
    | inl same ↦
        let e = ==_true k id same in
        (
          rw e (
              do_-at (λ o. o ≡ some j) id id fn q.jobs (λ v s. absurd (cc (rw held at s, quiet e)))
                held),
          minted,
        )
    | inr other ↦ (get-do_ne id k fn q.jobs (λ e. cc (rw e at other, ==_refl id)) ∙ held, minted)
  ]

  -- A running job is not taken before its lease ends.
  take-quiet :
      (now : ℕ)
      → is_running j.status ≡ true
      → now < j.lease_until
      → (take_fn h c now (some j)).0 ≡ none
  unfolding take_fn claimable
  take-quiet now runs early = ground arith

  complete-quiet :
      (now : ℕ) (token : Text) → token ≢ j.lease_token → (complete_fn now token (some j)).0 ≡ none
  unfolding complete_fn
  complete-quiet now token differ =
      rw (==_false j.lease_token token (λ e. differ (sym e))) (ground arith)

  fail-quiet :
      (now : ℕ) (token error : Text)
      → token ≢ j.lease_token
      → (fail_fn c now token error (some j)).0 ≡ none
  unfolding fail_fn
  fail-quiet now token error differ =
      rw (==_false j.lease_token token (λ e. differ (sym e))) (ground arith)

  Stays-IsKept :
      (now : ℕ) → is_running j.status ≡ true → now < j.lease_until → IsKept h c Stays NotOurs now
  unfolding insert_job next_id
  Stays-IsKept now runs early = record {
    by_insert = λ body payload m d owner low high q (held, minted).
        (get-put_ne id _ _ q.jobs (λ e. omega arith) ∙ held, omega arith);
    by_take = λ k q. do_-Stays k _ q (λ e. take-quiet now runs early);
    by_complete =
        λ k token other q. do_-Stays k _ q (λ e. complete-quiet now token (λ t. other (e, t)));
    by_fail =
        λ k token error other q. do_-Stays k _ q (λ e. fail-quiet now token _ (λ t. other (e, t)));
  }

  -- While the lease of a running job lasts, no request but one that presents this very lease's token
  -- changes the job: after any such requests of any caller at readings before `lease_until`, the row is
  -- still as it was, and a completion under its token is accepted at any later reading.
  pub lease_protects :
      (requests : List (ℕ × Request)) (q : Queue) (later : ℕ)
      → get id q.jobs ≡ some j
      → id ≤ q.last_id
      → is_running j.status ≡ true
      → All (λ r. (r.0 < j.lease_until) × Presents NotOurs r.1) requests
      → (get id (serve h c requests q).jobs ≡ some j)
        × ((complete id j.lease_token later (serve h c requests q)).0
            ≡ ok (view (record j { status = done; lease_token = []; updated_at = later })))
  unfolding complete ◌>>=◌ on_jobs do_ complete_fn
  lease_protects requests q later held minted runs fine =
      let kept =
        serve-kept h c Stays NotOurs requests
          (All-map (λ r. λ (early, other). (Stays-IsKept r.0 runs early, other)) requests fine) q
          (held, minted) in
      (kept.0, rw (kept.0, runs, ==_refl j.lease_token))
