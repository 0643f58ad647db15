-- ===== src/Worker.antt =====
-- morf/worker/worker.go: what a worker does with a job that it took from the queue. The scan itself
-- (decompilation and detection) is an argument; what leaves the process other than Redis commands is
-- listed as effects.
pub mod Retry
pub mod Backoff
pub mod Failure
pub mod Redelivery
pub mod Settled
pub mod Delivery
pub mod Verdict
mod Tests
use Prim.Native.String
use text.Mathlib.Text.{find?}
use morf.Prelude.{
  ℕ, zero, suc, ◌+◌, ◌*◌, String, Bool, true, false, not, ◌&&◌, ◌||◌, Option, none, some, List, [],
  ◌∷◌, ◌++◌, if◌then◌else◌, str_eq, ltb, leb, any,
}
use morf.Redis.{Redis, Net, Reply, ok, err, pure, raise, trip, write, attempt, ◌>>=◌, ◌>>◌}
use morf.Job.{
  Codec, ScanJob, status_queued, status_processing, status_completed, status_failed,
  status_cancelled,
}
use Retry.{ScanError, Marshalled, marshalled, unmarshallable, is_retryable, prefixed, opaque}
use morf.Queue.{
  update_job, push_job, move_to_dlq, ack_job, get_job, check_job_lease, set_job_lease,
  clear_job_lease,
}

pub data Effect : Type 0 where
  deleted_artifact : Effect
  recorded_scan : String → Effect
  -- whether the delivery reports a failure
  webhook : Bool → Effect

-- whether to acknowledge the job, and what else happened
abbrev pub Outcome : Type 0
Outcome = Bool × List Effect

module _ (r : Redis) (c : Codec) (max_retries : ℕ) where
  open r use {Store}

  abbrev pub Act : Type 0 → Type 0
  Act A = Net Store A

  abbrev lost_lease : Reply Bool → Bool
  lost_lease (ok owns) = not owns
  lost_lease (err e) = false

  abbrev pub notify : ScanJob c → Bool → List Effect
  notify job failure = if str_eq job.webhook_url "" then [] else webhook failure ∷ []

  abbrev failure_tail : ScanJob c → Bool → List Effect → Act Outcome
  failure_tail job ack effects = pure (ack, effects ++ recorded_scan "failed" ∷ notify job true)

  unfoldable pub retry_persisted : ScanJob c → Reply (Unit {0}) → Act Outcome
  retry_persisted job (ok u) = do attempt (push_job r c job.id); failure_tail job true []
  retry_persisted job (err e) = failure_tail job false []

  unfoldable pub dead_persisted : ScanJob c → Reply (Unit {0}) → Act Outcome
  dead_persisted job (ok u) = do
    attempt (move_to_dlq r c job.id)
    failure_tail job true (deleted_artifact ∷ [])
  dead_persisted job (err e) = failure_tail job false []

  abbrev pub failed_job : ScanJob c → c.Time → ScanError → ScanJob c
  failed_job job now e = record job {
    status = status_failed;
    failed_at = some now;
    error = e.text;
    retry_count = job.retry_count + 1;
  }

  abbrev pub requeued_job : ScanJob c → ScanJob c
  requeued_job job = record job { status = status_queued; started_at = none; worker_id = "" }

  fail_owned : ScanJob c → c.Time → ScanError → Act Outcome
  fail_owned job now e =
      let failed = failed_job job now e in
      if is_retryable e && ltb failed.retry_count max_retries
      then (attempt (update_job r c (requeued_job failed))
          >>= retry_persisted (requeued_job failed))
      else (attempt (update_job r c failed) >>= dead_persisted failed)

  -- The wait before a retry changes nothing, and a shutdown only cuts it short.
  unfoldable pub handle_job_failure : String → ScanJob c → c.Time → ScanError → Act Outcome
  unfolding fail_owned
  handle_job_failure worker_id job now e = do
    owns ← attempt (check_job_lease r c job.id worker_id)
    if lost_lease owns then pure (true, []) else fail_owned job now e

  abbrev pub completed_job : ScanJob c → c.Time → String → ScanJob c
  completed_job job now result = record job {
    status = status_completed;
    completed_at = some now;
    result = result;
  }

  success_persisted : ScanJob c → Reply (Unit {0}) → Act Outcome
  success_persisted job (err e) = pure (false, [])
  success_persisted job (ok u) = do
    clear_job_lease r c job.id
    pure (true, recorded_scan "success" ∷ deleted_artifact ∷ notify job false)

  succeed_owned : String → ScanJob c → c.Time → Marshalled → Act Outcome
  unfolding success_persisted
  succeed_owned worker_id job now (unmarshallable e) =
      handle_job_failure worker_id job now (prefixed "failed to marshal result: " e)
  succeed_owned worker_id job now (marshalled result) =
      let done = completed_job job now result in
      attempt (update_job r c done) >>= success_persisted done

  unfoldable pub handle_job_success : String → ScanJob c → c.Time → Marshalled → Act Outcome
  unfolding succeed_owned
  handle_job_success worker_id job now result = do
    owns ← attempt (check_job_lease r c job.id worker_id)
    if lost_lease owns then pure (true, []) else succeed_owned worker_id job now result

  -- How the scan ended; the text is the timeout, if the
  -- deadline of its context had passed.
  pub data ScanResult : Type 0 where
    scanned : Marshalled → ScanResult
    scan_failed : ScanError → Option String → ScanResult
    panicked : ScanError → ScanResult

  -- The timeout is put round the error by `%v`, which hides the sentinels from errors.Is.
  abbrev reported : ScanError → Option String → ScanError
  reported e none = e
  reported e (some timeout) =
      prefixed (String.◌++◌ "scan timeout exceeded (" (String.◌++◌ timeout "): ")) (opaque e)

  abbrev was_cancelled : Reply (ScanJob c) → Bool
  was_cancelled (ok job) = str_eq job.status status_cancelled
  was_cancelled (err e) = false

  abbrev after_failed_scan :
      String → ScanJob c → c.Time → ScanError → Reply (ScanJob c) → Act Outcome
  after_failed_scan worker_id job now e current =
      if was_cancelled current
      then pure (true, deleted_artifact ∷ [])
      else handle_job_failure worker_id job now e

  after_scan : String → String → ScanJob c → c.Time → ScanResult → Act Outcome
  after_scan worker_id id job now (scanned result) = handle_job_success worker_id job now result
  after_scan worker_id id job now (panicked value) =
      handle_job_failure worker_id job now (prefixed "panic in scan: " (opaque value))
  after_scan worker_id id job now (scan_failed e timed_out) =
      attempt (get_job r c id) >>= after_failed_scan worker_id job now (reported e timed_out)

  module _ (scan : ScanJob c → Act ScanResult) where
    run_scan : String → String → ScanJob c → c.Time → Act Outcome
    unfolding after_scan
    run_scan worker_id id job now = do
      attempt (set_job_lease r c id worker_id)
      owns ← attempt (check_job_lease r c id worker_id)
      if lost_lease owns then pure (true, []) else (scan job >>= after_scan worker_id id job now)

    abbrev pub started_job : String → ScanJob c → c.Time → ScanJob c
    started_job worker_id job now = record job {
      status = status_processing;
      started_at = some now;
      worker_id = worker_id;
    }

    start_persisted : String → String → ScanJob c → c.Time → Reply (Unit {0}) → Act Outcome
    unfolding run_scan
    start_persisted worker_id id job now (err e) = pure (true, [])
    start_persisted worker_id id job now (ok u) = run_scan worker_id id job now

    loaded : String → String → c.Time → c.Time → Reply (ScanJob c) → Act Outcome
    unfolding start_persisted
    loaded worker_id id now later (err e) = pure (true, [])
    loaded worker_id id now later (ok job) =
        let started = started_job worker_id job now in
        let go = attempt (update_job r c started) >>= start_persisted worker_id id started later in
        if str_eq job.status status_completed || str_eq job.status status_failed
        then pure (true, [])
        else if str_eq job.status status_cancelled
        then pure (true, deleted_artifact ∷ [])
        else go

    -- `now` is the start and `later` the end of the scan; the part of `processJob` before its deferred acknowledgement
    unfoldable pub process_body : String → String → c.Time → c.Time → Act Outcome
    unfolding loaded
    process_body worker_id id now later = attempt (get_job r c id) >>= loaded worker_id id now later

    abbrev acknowledge : String → String → Outcome → Act (List Effect)
    acknowledge worker_id id (true, effects) = do attempt (ack_job r c worker_id id); pure effects
    acknowledge worker_id id (false, effects) = pure effects

    unfoldable pub process_job : String → String → c.Time → c.Time → Act (List Effect)
    process_job worker_id id now later =
        process_body worker_id id now later >>= acknowledge worker_id id
