-- ===== src/Domains/JobQueue/Requests.antt =====
-- The routes of domains/job_queue.py as requests with their clock readings, and histories of them.
use gutencode_test.Prelude.{
  ℕ, ◌≡◌, ◌≤◌, none, some, List, [], ◌∷◌, Text, ℕ-Eq, All, ℤ, pos, negsuc, arith, Option-cases, inl,
  inr,
}
use gutencode_test.Core.Exec.{atomically}
use gutencode_test.Core.Exec.Keeps.{
  Keeps, Keeps-bind, Keeps-atomically, Keeps-require, Keeps-lift, Keeps-found, Keeps-or_raise,
  Keeps-pure, keeps_rules,
}
use gutencode_test.Core.Table.{do_}
use gutencode_test.Parts.Digest.{Hash}
use gutencode_test.Parts.Sanitize.{Json}
use gutencode_test.Parts.WellFormed.{make_well_formed}
use gutencode_test.Domains.JobQueue
use gutencode_test.Domains.JobQueue.{
  Config, EnqueueIn, Job, JobView, Jobs, Queue, new_job, insert_job, on_jobs, take_fn, claim_first,
  candidates, complete_fn, fail_fn, max_attempts_cap, in_bounds,
}

pub data Request : Type 0 where
  enqueue : EnqueueIn → Text → Request
  claim : Request
  complete : ℕ → Text → Request
  fail : ℕ → Text → Text → Request
  get_job : ℕ → Text → Request

-- A request presents no token, or an allowed one.
abbrev pub Presents : (ℕ → Text → Type 0) → Request → Type 0
Presents Allows (Request.complete id token) = Allows id token
Presents Allows (Request.fail id token error) = Allows id token
Presents Allows _ = Unit

abbrev pub AnyToken : ℕ → Text → Type 0
AnyToken id token = Unit

pub AnyToken-Presents : (r : Request) → Presents AnyToken r
AnyToken-Presents (Request.complete id token) = tt
AnyToken-Presents (Request.fail id token error) = tt
AnyToken-Presents _ = tt

-- An accepted number lies within the bounds.
pub in_bounds-some : (lo hi : ℕ) (n : ℤ) (m : ℕ) → in_bounds lo hi n ≡ some m → (lo ≤ m) × (m ≤ hi)
unfolding in_bounds
in_bounds-some lo hi (pos n) m e = ground arith
in_bounds-some lo hi (negsuc n) m e = absurd (cc)

module _ (h : Hash) (c : Config) where
  -- What a request leaves in the store; its reply is the handler's first part.
  unfoldable pub step : ℕ → Request → Queue → Queue
  step now (Request.enqueue body owner) q = (JobQueue.enqueue c body now owner q).1
  step now Request.claim q = (JobQueue.claim h c now q).1
  step now (Request.complete id token) q = (JobQueue.complete id token now q).1
  step now (Request.fail id token error) q = (JobQueue.fail c id token error now q).1
  step now (Request.get_job id owner) q = (JobQueue.get_job id owner q).1

  unfoldable pub serve : List (ℕ × Request) → Queue → Queue
  serve [] q = q
  serve ((now, r) ∷ rest) q = serve rest (step now r q)

  -- What keeps a statement about the store at the reading `now`, if only allowed tokens are presented.
  pub record IsKept {ℓ} (P : Queue → Type ℓ) (Allows : ℕ → Text → Type 0) (now : ℕ) : Type ℓ where
    pub by_insert :
        (body : EnqueueIn) (payload : Json) (max_attempts delay : ℕ) (owner : Text)
        → 1 ≤ max_attempts
        → max_attempts ≤ max_attempts_cap
        → (q : Queue) → P q
        → P (insert_job (λ jid. new_job jid body payload max_attempts delay now owner) q).1
    pub by_take : (id : ℕ) (q : Queue) → P q → P (on_jobs (do_ id (take_fn h c now)) q).1
    pub by_complete :
        (id : ℕ) (token : Text)
        → Allows id token
        → (q : Queue) → P q
        → P (on_jobs (do_ id (complete_fn now token)) q).1
    pub by_fail :
        (id : ℕ) (token error : Text)
        → Allows id token
        → (q : Queue) → P q
        → P (on_jobs (do_ id (fail_fn c now token (make_well_formed error))) q).1

  module _ (now : ℕ) (cand : Job) (rest : List Job) (t : Jobs) where
    pub claim_first-skip :
        (do_ cand.id (take_fn h c now) t).0 ≡ none
        → claim_first h c now (cand ∷ rest) t
          ≡ claim_first h c now rest (do_ cand.id (take_fn h c now) t).1
    unfolding claim_first
    claim_first-skip skipped = rw (skipped, claim_first)

    pub claim_first-take :
        {j : Job}
        → (do_ cand.id (take_fn h c now) t).0 ≡ some j
        → claim_first h c now (cand ∷ rest) t ≡ (some j, (do_ cand.id (take_fn h c now) t).1)
    unfolding claim_first
    claim_first-take took = rw (took, claim_first)

  module _ {ℓ} {P : Queue → Type ℓ} {Allows : ℕ → Text → Type 0} (now : ℕ)
      (kept : IsKept P Allows now) where
    claim_first-kept :
        (cands : List Job) (q : Queue) → P q → P (on_jobs (claim_first h c now cands) q).1
    unfolding on_jobs
    claim_first-kept [] q p = unfold claim_first in p
    claim_first-kept (cand ∷ rest) q p =
        let t' = (do_ cand.id (take_fn h c now) q.jobs).1 in
        elim (Option-cases (do_ cand.id (take_fn h c now) q.jobs).0) [
          | inl skipped ↦
              rw (claim_first-skip now cand rest q.jobs skipped)
                (claim_first-kept rest (record q { jobs = t' }) (kept.by_take cand.id q p))
          | inr (j, took) ↦
              rw (claim_first-take now cand rest q.jobs took) (kept.by_take cand.id q p)
        ]

    claim-kept :
        (q : Queue) → P q → P (on_jobs (λ t. claim_first h c now (candidates h now t) t) q).1
    unfolding on_jobs
    claim-kept q p = claim_first-kept (candidates h now q.jobs) q p

    claim-Keeps : Keeps P (JobQueue.claim h c now)
    unfolding JobQueue.claim
    claim-Keeps = search (keeps_rules, Keeps-atomically, claim-kept)

    complete-Keeps :
        (id : ℕ) (token : Text) → Allows id token → Keeps P (JobQueue.complete id token now)
    unfolding JobQueue.complete
    complete-Keeps id token a = search (keeps_rules, Keeps-atomically, kept.by_complete id token a)

    fail-Keeps :
        (id : ℕ) (token error : Text)
        → Allows id token
        → Keeps P (JobQueue.fail c id token error now)
    unfolding JobQueue.fail
    fail-Keeps id token error a =
        search (keeps_rules, Keeps-atomically, kept.by_fail id token error a)

    get_job-Keeps : (id : ℕ) (owner : Text) → Keeps P (JobQueue.get_job id owner)
    unfolding JobQueue.get_job
    get_job-Keeps id owner = search keeps_rules

    insert-Keeps :
        (body : EnqueueIn) (payload : Json) (max_attempts delay : ℕ) (owner : Text)
        → 1 ≤ max_attempts
        → max_attempts ≤ max_attempts_cap
        → Keeps P
            (atomically (insert_job (λ jid. new_job jid body payload max_attempts delay now owner)))
    insert-Keeps body payload max_attempts delay owner low high =
        Keeps-atomically _ (kept.by_insert body payload max_attempts delay owner low high)

    enqueue-Keeps : (body : EnqueueIn) (owner : Text) → Keeps P (JobQueue.enqueue c body now owner)
    unfolding JobQueue.enqueue
    enqueue-Keeps body owner = Keeps-bind _ _ (Keeps-require _ _) λ fine_kind.
        Keeps-bind _ _ (Keeps-require _ _) λ fine_queue. Keeps-bind _ _ (Keeps-lift _) λ payload.
          Keeps-found _ _ _ λ max_attempts chosen.
            let (low, high) = in_bounds-some 1 max_attempts_cap _ max_attempts chosen in
            Keeps-bind _ _ (Keeps-or_raise _ _) λ delay.
              Keeps-bind _ _ (insert-Keeps body payload max_attempts delay owner low high)
                λ rec. Keeps-pure _

    pub step-kept : (r : Request) → Presents Allows r → (q : Queue) → P q → P (step now r q)
    unfolding step
    step-kept (Request.enqueue body owner) a q p = (enqueue-Keeps body owner).at q p
    step-kept Request.claim a q p = claim-Keeps.at q p
    step-kept (Request.complete id token) a q p = (complete-Keeps id token a).at q p
    step-kept (Request.fail id token error) a q p = (fail-Keeps id token error a).at q p
    step-kept (Request.get_job id owner) a q p = (get_job-Keeps id owner).at q p

  module _ {ℓ} (P : Queue → Type ℓ) (Allows : ℕ → Text → Type 0) where
    -- What the operations keep at their readings, every history keeps.
    pub serve-kept :
        (requests : List (ℕ × Request))
        → All (λ r. IsKept P Allows r.0 × Presents Allows r.1) requests
        → (q : Queue) → P q
        → P (serve requests q)
    unfolding serve
    serve-kept [] k q p = p
    serve-kept ((now, r) ∷ rest) k q p =
        serve-kept rest k.1 (step now r q) (step-kept now k.0.0 r k.0.1 q p)
