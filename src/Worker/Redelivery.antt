-- ===== src/Worker/Redelivery.antt =====
-- `processJob` of morf/worker/worker.go on a job that is delivered again, or that cannot be read.
use morf.Prelude.{ℕ, ◌≡◌, refl, true, String, List, [], ◌∷◌, arith, if◌then◌else◌, str_eq}
use morf.Prelude.Text.{str_eq_other}
use morf.Redis.{Redis, World, Reply, ok, refused, Fault}
use morf.Job.{Codec, ScanJob, from_hash, status_cancelled, status_completed, status_failed}
use morf.Queue.{get_job, ack_job, is_terminal_status}
use morf.Queue.Keys.{job_key, processing_key}
use morf.Worker.{ScanResult, deleted_artifact, process_job, process_body, loaded}

module _ (r : Redis) (c : Codec) (max_retries : ℕ)
    (scan : ScanJob c → World r.Store → Reply (ScanResult r c max_retries) × World r.Store)
    (worker_id id : String) (now later : c.Time) (s : r.Store) where
  abbrev world : List Fault → r.Store → World r.Store
  world faults t = record { store = t; faults = faults }

  abbrev recorded : ScanJob c
  recorded = from_hash c ((r.view s).hashes (job_key id))

  -- Over a connection that works, a job whose record is final already is only acknowledged: the
  -- scan does not run, the record and the sets stay, and the artifact of a cancelled job is
  -- deleted.
  pub process_job-redelivered :
      (r.view s).hash_exists (job_key id) ≡ true
      → is_terminal_status recorded.status ≡ true
      → process_job r c max_retries scan worker_id id now later (world [] s) ≡ (
        ok (if str_eq recorded.status status_cancelled then deleted_artifact ∷ [] else []),
        world [] (r.lrem_one (processing_key worker_id) id s),
      )
  unfolding process_job process_body loaded get_job ack_job is_terminal_status
  process_job-redelivered found final = ground (
    arith,
    str_eq_other recorded.status status_cancelled status_completed,
    str_eq_other recorded.status status_cancelled status_failed,
  )

  -- A job whose record cannot be read for one round trip is acknowledged without a scan.
  pub process_job-unread :
      process_job r c max_retries scan worker_id id now later (world (refused ∷ []) s)
      ≡ (ok [], world [] (r.lrem_one (processing_key worker_id) id s))
  unfolding process_job process_body loaded get_job ack_job
  process_job-unread = refl
