-- ===== src/Domains/JobQueue/Sound.antt =====
-- The invariant of the stored jobs: attempts within their bound, and tokens that name their delivery.
use gutencode_test.Prelude.{ℕ, ◌≤◌, ◌≡◌, [], true, ℕ-Eq}
use gutencode_test.Core.Table.Laws.{AllAt}
use gutencode_test.Parts.Digest.{Hash}
use gutencode_test.Domains.JobQueue.{Job, Queue, is_running, max_attempts_cap, lease_token_of}

pub record IsSound (h : Hash) (id : ℕ) (j : Job) : Type 0 where
  pub keyed : j.id ≡ id
  pub bounded : j.attempts ≤ j.max_attempts
  pub capped : (1 ≤ j.max_attempts) × (j.max_attempts ≤ max_attempts_cap)
  pub leased :
      is_running j.status ≡ true
      → (1 ≤ j.attempts) × (j.lease_token ≡ lease_token_of h j.id j.attempts)

-- Every row is sound under its key, and its key was minted.
abbrev pub IsSoundQueue : Hash → Queue → Type 0
IsSoundQueue h q = AllAt (λ id j. IsSound h id j × (id ≤ q.last_id)) q.jobs

abbrev pub empty_queue : Queue
empty_queue = record { jobs = []; last_id = 0 }
