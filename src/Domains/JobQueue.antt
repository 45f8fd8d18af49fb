-- ===== src/Domains/JobQueue.antt =====
-- domains/job_queue.py: the queue of jobs. The state is the namespace "job_queue_records", keyed by
-- the job's id (`str(id)` is one to one), and the counter "job_queue_job". The clock's reading comes
-- as `now`; the limits that the environment sets come as `Config`.
pub mod Lists
pub mod Requests
pub mod Sound
pub mod Lease
use gutencode_test.Prelude.{
  ℕ, suc, ◌+◌, ◌*◌, ◌^◌, min, Bool, true, false, not, ◌&&◌, ◌||◌, Option, none, some, List, [], ◌∷◌,
  Text, codes, Text-Eq, ℕ-Eq, ◌==◌, leb, ℤ, pos, negsuc, if◌then◌else◌, str_ℕ, keep,
}
use gutencode_test.Core.Problem.{Problem, not_found, invalid, conflict}
use gutencode_test.Core.Exec.{
  Result, ok, err, Exec, pure, raise, gets, lift, atomically, or_raise, require, ◌>>=◌, ◌>>◌,
}
use gutencode_test.Core.Table.{Table, get, put, values, do_, next_id}
use gutencode_test.Parts.Digest.{Hash, scoped_key}
use gutencode_test.Parts.Sanitize.{Json, Fields, obj, sanitize_json}
use gutencode_test.Parts.WellFormed.{require_well_formed, make_well_formed}

pub record Config : Type 0 where
  pub default_max_attempts : ℕ
  pub backoff_base : ℕ
  pub backoff_cap : ℕ
  pub visibility : ℕ

pub data Status : Type 0 where
  queued running done dead : Status

abbrev pub is_queued : Status → Bool
is_queued queued = true
is_queued _ = false

abbrev pub is_running : Status → Bool
is_running running = true
is_running _ = false

pub record Job : Type 0 where
  pub id : ℕ
  pub owner : Text
  pub kind : Text
  pub payload : Json
  pub queue : Text
  pub status : Status
  pub attempts : ℕ
  pub max_attempts : ℕ
  pub run_at : ℕ
  pub lease_until : ℕ
  pub lease_token : Text
  pub created_at : ℕ
  pub updated_at : ℕ
  pub last_error : Text

-- `_public`: every field but the lease token.
pub record JobView : Type 0 where
  pub id : ℕ
  pub owner : Text
  pub kind : Text
  pub payload : Json
  pub queue : Text
  pub status : Status
  pub attempts : ℕ
  pub max_attempts : ℕ
  pub run_at : ℕ
  pub lease_until : ℕ
  pub created_at : ℕ
  pub updated_at : ℕ
  pub last_error : Text

abbrev pub view : Job → JobView
view rec = record {
  id = rec.id;
  owner = rec.owner;
  kind = rec.kind;
  payload = rec.payload;
  queue = rec.queue;
  status = rec.status;
  attempts = rec.attempts;
  max_attempts = rec.max_attempts;
  run_at = rec.run_at;
  lease_until = rec.lease_until;
  created_at = rec.created_at;
  updated_at = rec.updated_at;
  last_error = rec.last_error;
}

abbrev pub Jobs : Type 0
Jobs = Table ℕ Job

pub record Queue : Type 0 where
  pub jobs : Jobs
  pub last_id : ℕ

abbrev pub max_attempts_cap : ℕ
max_attempts_cap = 1000

abbrev pub delay_cap : ℕ
delay_cap = 31536000

abbrev pub shift_cap : ℕ
shift_cap = 30

-- An update of the records, in the whole state.
unfoldable pub on_jobs {ℓ} : {A : Type ℓ} → (Jobs → A × Jobs) → Queue → A × Queue
on_jobs m q = let (a, t) = m q.jobs in (a, record q { jobs = t })

unfoldable pub backoff : Config → ℕ → ℕ
backoff c attempts = min (c.backoff_base * 2 ^ min attempts shift_cap) c.backoff_cap

unfoldable pub claimable : Job → ℕ → Bool
claimable rec now =
    (is_queued rec.status && leb rec.run_at now)
    || (is_running rec.status && leb rec.lease_until now)

-- `not lo <= n <= hi` is refused; a negative number is below every `lo`.
unfoldable pub in_bounds : ℕ → ℕ → ℤ → Option ℕ
in_bounds lo hi (pos n) = if leb lo n && leb n hi then some n else none
in_bounds lo hi (negsuc n) = none

abbrev pub or_default : ℕ → Option ℤ → ℤ
or_default d none = pos d
or_default d (some n) = n

pub record EnqueueIn : Type 0 where
  pub kind : Text
  pub payload : Fields
  pub queue : Text
  pub max_attempts : Option ℤ
  pub delay_seconds : Option ℤ

-- The record of a new job; owner, id, status and lease are the server's.
unfoldable pub new_job : ℕ → EnqueueIn → Json → ℕ → ℕ → ℕ → Text → Job
new_job jid body payload max_attempts delay now owner = record {
  id = jid;
  owner = owner;
  kind = body.kind;
  payload = payload;
  queue = body.queue;
  status = queued;
  attempts = 0;
  max_attempts = max_attempts;
  run_at = now + delay;
  lease_until = 0;
  lease_token = [];
  created_at = now;
  updated_at = now;
  last_error = [];
}

-- next_id and the put of the new record.
unfoldable pub insert_job : (ℕ → Job) → Queue → Job × Queue
insert_job make q =
    let (jid, last) = next_id q.last_id in
    let rec = make jid in (rec, record { jobs = put jid rec q.jobs; last_id = last })

unfoldable pub enqueue : Config → EnqueueIn → ℕ → Text → Exec Queue JobView
enqueue c body now owner = do
  require_well_formed body.kind (codes "kind")
  require_well_formed body.queue (codes "queue")
  payload ← lift (sanitize_json (codes "payload") (obj body.payload))
  max_attempts ←
      or_raise (in_bounds 1 max_attempts_cap (or_default c.default_max_attempts body.max_attempts))
        (invalid (codes "max_attempts must be between 1 and 1000"))
  delay ←
      or_raise (in_bounds 0 delay_cap (or_default 0 body.delay_seconds))
        (invalid (codes "delay_seconds must be between 0 and 31536000"))
  rec ← atomically (insert_job (λ jid. new_job jid body payload max_attempts delay now owner))
  pure (view rec)

-- sorted(..., key=id): a stable insertion sort.
unfoldable pub insert_by_id : Job → List Job → List Job
insert_by_id j [] = j ∷ []
insert_by_id j (k ∷ ks) = if leb j.id k.id then j ∷ k ∷ ks else k ∷ insert_by_id j ks

unfoldable pub sort_by_id : List Job → List Job
unfolding insert_by_id
sort_by_id [] = []
sort_by_id (j ∷ js) = insert_by_id j (sort_by_id js)

module _ (h : Hash) where
  unfoldable pub lease_token_of : ℕ → ℕ → Text
  lease_token_of id attempts = scoped_key h (codes "/job_queue/lease") (str_ℕ id) (str_ℕ attempts)

  -- The claim of one candidate, inside the lock.
  unfoldable pub take_fn : Config → ℕ → Option Job → Option Job × Option Job
  take_fn c now none = (none, none)
  take_fn c now (some cur) =
      let attempts = cur.attempts + 1 in
      let dead_job = record cur {
        status = dead;
        lease_token = [];
        lease_until = 0;
        updated_at = now;
      } in
      let claimed = record cur {
        status = running;
        attempts = attempts;
        lease_until = now + c.visibility;
        lease_token = lease_token_of cur.id attempts;
        updated_at = now;
      } in
      if claimable cur now
      then if leb cur.max_attempts cur.attempts
        then (some dead_job, none)
        else (some claimed, some claimed)
      else (none, none)

  -- The candidates in turn, until one is claimed.
  unfoldable pub claim_first : Config → ℕ → List Job → Jobs → Option Job × Jobs
  claim_first c now [] t = (none, t)
  claim_first c now (cand ∷ rest) t =
      let (claimed, t') = do_ cand.id (take_fn c now) t in
      elim claimed [ some j ↦ (some j, t') | none ↦ claim_first c now rest t' ]

  unfoldable pub candidates : ℕ → Jobs → List Job
  candidates now t = sort_by_id (keep (λ j. claimable j now) (values t))

  -- The reply of a claim: nothing ready (204), or the view with the token.
  unfoldable pub claim : Config → ℕ → Exec Queue (Option (JobView × Text))
  claim c now = do
    claimed ← atomically (on_jobs (λ t. claim_first c now (candidates now t) t))
    pure (elim claimed [ none ↦ none | some j ↦ some (view j, j.lease_token) ])

abbrev pub not_held : Problem
not_held = conflict (codes "job is not held under this lease")

-- cur["status"] != "running" or cur["lease_token"] != token, the other way round
abbrev pub holds_lease : Job → Text → Bool
holds_lease cur token = is_running cur.status && cur.lease_token == token

unfoldable pub complete_fn : ℕ → Text → Option Job → Option Job × Result Job
complete_fn now token none = (none, err (not_found (codes "job")))
complete_fn now token (some cur) =
    let finished = record cur { status = done; lease_token = []; updated_at = now } in
    if holds_lease cur token then (some finished, ok finished) else (none, err not_held)

unfoldable pub fail_fn : Config → ℕ → Text → Text → Option Job → Option Job × Result Job
fail_fn c now token error none = (none, err (not_found (codes "job")))
fail_fn c now token error (some cur) =
    let dead_job = record cur {
      status = dead;
      lease_token = [];
      last_error = error;
      updated_at = now;
    } in
    let requeued = record cur {
      status = queued;
      lease_token = [];
      run_at = now + backoff c cur.attempts;
      last_error = error;
      updated_at = now;
    } in
    if holds_lease cur token
    then if leb cur.max_attempts cur.attempts
      then (some dead_job, ok dead_job)
      else (some requeued, ok requeued)
    else (none, err not_held)

unfoldable pub complete : ℕ → Text → ℕ → Exec Queue JobView
complete job_id token now = do
  outcome ← atomically (on_jobs (do_ job_id (complete_fn now token)))
  rec ← lift outcome
  pure (view rec)

unfoldable pub fail : Config → ℕ → Text → Text → ℕ → Exec Queue JobView
fail c job_id token error now = do
  outcome ← atomically (on_jobs (do_ job_id (fail_fn c now token (make_well_formed error))))
  rec ← lift outcome
  pure (view rec)

-- Another owner's job is not found.
unfoldable pub get_job : ℕ → Text → Exec Queue JobView
get_job job_id owner = do
  found ← gets (λ q. get job_id q.jobs)
  rec ← or_raise found (not_found (codes "job"))
  require (rec.owner == owner) (not_found (codes "job"))
  pure (view rec)
