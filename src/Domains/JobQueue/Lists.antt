-- ===== src/Domains/JobQueue/Lists.antt =====
-- GET /job_queue of domains/job_queue.py: the caller's jobs, by id, a page at a time.
use gutencode_test.Prelude.{Option, List, Text, Text-Eq, ◌==◌, map, keep, sort_by}
use gutencode_test.Core.Exec.{Exec, gets, ◌>>=◌}
use gutencode_test.Core.Table.{values}
use gutencode_test.Parts.Paginate.Reply.{reply_page}
use gutencode_test.Domains.JobQueue.{Job, JobView, Queue, view}

unfoldable pub list_jobs : Text → Text → Text → Exec Queue (List JobView × Option Text)
list_jobs owner limit cursor = do
  rows ← gets (λ (q : Queue). sort_by (λ (j : Job). j.id) (values q.jobs))
  reply_page (map view (keep (λ (j : Job). j.owner == owner) rows)) cursor limit
