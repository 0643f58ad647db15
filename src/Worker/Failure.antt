-- ===== src/Worker/Failure.antt =====
-- `handleJobFailure` of morf/worker/worker.go: when a failed job is retried, buried or left alone.
use morf.Prelude.{ℕ, ◌≡◌, Bool, true, false, String, List, [], ◌∷◌, arith}
use morf.Redis.{Redis, World, Reply, ok, err}
use morf.Job.{Codec, ScanJob}
use morf.Queue.{update_job, check_job_lease}
use morf.Queue.Frames.{list_at, update_job-Keeps, check_job_lease-Keeps}
use morf.Worker.{
  Effect, deleted_artifact, handle_job_failure, retry_persisted, dead_persisted, failed_job,
  requeued_job, fail_owned,
}
use morf.Worker.Retry.{ScanError}

abbrev pub deletes : List Effect → Bool
deletes [] = false
deletes (deleted_artifact ∷ es) = true
deletes (e ∷ es) = deletes es

module _ (r : Redis) (c : Codec) (max_retries : ℕ) (worker_id : String) (job : ScanJob c)
    (now : c.Time) (e : ScanError) where
  abbrev fail : World r.Store → Reply (Bool × List Effect) × World r.Store
  fail = handle_job_failure r c max_retries worker_id job now e

  retry_persisted-unacked :
      (failed : ScanJob c) (p : Reply (Unit {0})) (w : World r.Store) (effects : List Effect)
      → (retry_persisted r c max_retries failed p w).0 ≡ ok (false, effects)
      → ((retry_persisted r c max_retries failed p w).1 ≡ w) × (deletes effects ≡ false)
  unfolding retry_persisted
  retry_persisted-unacked failed (ok u) w effects h = ground arith
  retry_persisted-unacked failed (err x) w effects h = ground arith

  dead_persisted-unacked :
      (failed : ScanJob c) (p : Reply (Unit {0})) (w : World r.Store) (effects : List Effect)
      → (dead_persisted r c max_retries failed p w).0 ≡ ok (false, effects)
      → ((dead_persisted r c max_retries failed p w).1 ≡ w) × (deletes effects ≡ false)
  unfolding dead_persisted
  dead_persisted-unacked failed (ok u) w effects h = ground arith
  dead_persisted-unacked failed (err x) w effects h = ground arith

  abbrev failed : ScanJob c
  failed = failed_job r c max_retries job now e

  abbrev requeued : ScanJob c
  requeued = requeued_job r c max_retries failed

  abbrev saved : ScanJob c → World r.Store → Reply (Unit {0}) × World r.Store
  saved j w = update_job r c j w

  fail_owned-unacked :
      (key : String) (w : World r.Store) (effects : List Effect)
      → (fail_owned r c max_retries job now e w).0 ≡ ok (false, effects)
      → (list_at r c key (fail_owned r c max_retries job now e w).1.store ≡ list_at r c key w.store)
        × (deletes effects ≡ false)
  unfolding fail_owned
  fail_owned-unacked key w effects h = ground (
    arith,
    retry_persisted-unacked requeued (saved requeued w).0 (saved requeued w).1 effects,
    dead_persisted-unacked failed (saved failed w).0 (saved failed w).1 effects,
    (update_job-Keeps r c key requeued).at w,
    (update_job-Keeps r c key failed).at w,
  )

  -- A failed job that is not acknowledged has been left alone, whatever became of the commands: every
  -- list of the server holds what it held, and the uploaded artifact is not deleted.
  pub handle_job_failure-unacked :
      (key : String) (w : World r.Store) (effects : List Effect)
      → (fail w).0 ≡ ok (false, effects)
      → (list_at r c key (fail w).1.store ≡ list_at r c key w.store) × (deletes effects ≡ false)
  unfolding handle_job_failure
  handle_job_failure-unacked key w effects h =
      let leased = (check_job_lease r c job.id worker_id w).1 in
      ground (
        arith,
        fail_owned-unacked key leased effects,
        (check_job_lease-Keeps r c key job.id worker_id).at w,
      )
