-- ===== src/Tests/QueueRuns.antt =====
-- The job queue: a job that is enqueued and claimed, and other workers beside it.
use gutencode_test.Prelude.{ℕ, ◌≡◌, refl, arith, List, [], ◌∷◌, Text, Text-Eq, ℕ-Eq, none, some}
use gutencode_test.Core.Exec.{ok}
use gutencode_test.Core.Table.{get}
use gutencode_test.Parts.Digest.Unary.{unary_hash}
use gutencode_test.Parts.Sanitize.{Json, Fields}
use gutencode_test.Domains.JobQueue.{
  Config, Job, EnqueueIn, Queue, running, done, view, lease_token_of, complete, enqueue, claim,
}
use gutencode_test.Domains.JobQueue.Requests.{Request, serve}
use gutencode_test.Domains.JobQueue.Lease.{lease_protects}

abbrev config : Config
config = record { default_max_attempts = 3; backoff_base = 2; backoff_cap = 60; visibility = 30 }

abbrev alice : Text
alice = b'a' ∷ []

abbrev mail : EnqueueIn
mail = record {
  kind = alice;
  payload = Fields.end;
  queue = alice;
  max_attempts = none;
  delay_seconds = none;
}

abbrev story : List (ℕ × Request)
story = (100, Request.enqueue mail alice) ∷ (101, Request.claim) ∷ (140, Request.claim) ∷ []

-- A job that a worker holds until 131.
abbrev held_job : Job
held_job = record {
  id = 1;
  owner = alice;
  kind = alice;
  payload = Json.obj Fields.end;
  queue = alice;
  status = running;
  attempts = 2;
  max_attempts = 3;
  run_at = 100;
  lease_until = 131;
  lease_token = alice;
  created_at = 100;
  updated_at = 101;
  last_error = [];
}

abbrev held_queue : Queue
held_queue = record { jobs = (1, held_job) ∷ []; last_id = 1 }

-- Another worker's claim, an old token, and a new job.
abbrev others : List (ℕ × Request)
others =
    (110, Request.claim) ∷ (120, Request.complete 1 []) ∷ (130, Request.enqueue mail alice) ∷ []

lease_protects_example :
    (get 1 (serve unary_hash config others held_queue).jobs ≡ some held_job)
    × ((complete 1 alice 135 (serve unary_hash config others held_queue)).0
        ≡ ok (view (record held_job { status = done; lease_token = []; updated_at = 135 })))
lease_protects_example =
    lease_protects unary_hash config 1 held_job others held_queue 135 (unfold get in refl)
      (omega arith) refl
      ((omega arith, tt), ((omega arith, λ e. ground arith), ((omega arith, tt), tt)))

abbrev claimed_story : List (ℕ × Request)
claimed_story = (100, Request.enqueue mail alice) ∷ (101, Request.claim) ∷ []

-- The job after its first claim.
abbrev claimed_job : Job
claimed_job = record held_job { attempts = 1; lease_token = lease_token_of unary_hash 1 1 }
