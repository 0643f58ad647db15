-- ===== src/Queue.antt =====
-- morf/queue/queue.go: the job queue on Redis. Each method sends commands or atomic scripts to the
-- server; the fate of every round trip comes from the world it runs in.
pub mod Keys
pub mod Scripts
pub mod Admission
pub mod Delivery
pub mod Frames
pub mod Updates
pub mod Cancel
pub mod Retry
pub mod Reaper
mod Tests
use morf.Prelude.{
  ℕ, zero, String, Bool, true, false, not, ◌&&◌, ◌||◌, none, List, [], ◌∷◌, if◌then◌else◌, str_eq,
  length,
}
use morf.Redis.{
  Redis, Net, Reply, ok, err, no_job, queue_full, job_not_found, not_in_dlq, not_cancellable, pure,
  raise, trip, write, attempt, ◌>>=◌, ◌>>◌, has, MapValues,
}
use morf.Job.{
  Codec, ScanJob, to_hash, from_hash, status_queued, status_processing, status_completed,
  status_failed, status_cancelled,
}
use Scripts.{
  job_ttl, field, both, text_of, CancelReply, cancel_missing, cancel_refused, cancel_done,
  enqueue_script, enqueue_with_limit_script, move_to_dlq_script, retry_dlq_remove_script,
  cancel_job_script,
}
use Keys.{job_queue_key, job_key, status_key, processing_key, worker_key, job_lease_key}

abbrev pub webhook_dlq_key : String
webhook_dlq_key = "morf:webhook_dlq"

abbrev pub webhook_dlq_max_len : ℕ
webhook_dlq_max_len = 1000

unfoldable pub is_terminal_status : String → Bool
is_terminal_status s =
    str_eq s status_completed || str_eq s status_failed || str_eq s status_cancelled

-- the value that a Go call leaves beside an error: the empty string
abbrev pub or_empty : Reply String → String
or_empty (ok s) = s
or_empty (err e) = ""

module _ (r : Redis) (c : Codec) where
  open r use {
    Store, view, rpush, lpush, blmove, lrem_one, ltrim_last, sadd, srem, hset, expire, set, del,
  }

  abbrev pub Act : Type 0 → Type 0
  Act A = Net Store A

  unfoldable pub create_job : ScanJob c → Act (Unit {0})
  create_job job = do
    write (hset (job_key job.id) (to_hash c job))
    write (sadd (status_key job.status) job.id)
    attempt (write (expire (job_key job.id) job_ttl))
    pure tt

  unfoldable pub enqueue_job_atomic : ScanJob c → Act (Unit {0})
  enqueue_job_atomic job = write (enqueue_script r c job)

  abbrev or_queue_full : ℕ → Act (Unit {0})
  or_queue_full zero = raise queue_full
  or_queue_full n = pure tt

  unfoldable pub enqueue_job_atomic_with_limit : ScanJob c → ℕ → ℕ → Act (Unit {0})
  enqueue_job_atomic_with_limit job limit count = do
    admitted ← trip (enqueue_with_limit_script r c job limit count)
    or_queue_full admitted

  -- `body` is the record in JSON
  unfoldable pub record_failed_webhook : String → Act (Unit {0})
  record_failed_webhook body = do
    write (rpush webhook_dlq_key body)
    attempt (write (ltrim_last webhook_dlq_key webhook_dlq_max_len))
    pure tt

  unfoldable pub set_job_lease : String → String → Act (Unit {0})
  set_job_lease id worker_id = write (set (job_lease_key id) worker_id)

  -- A lease that is absent, or empty, counts as owned.
  unfoldable pub check_job_lease : String → String → Act Bool
  check_job_lease id worker_id = do
    owner ← trip (λ s. (text_of ((view s).strings (job_lease_key id)), s))
    pure (if str_eq owner "" then true else str_eq owner worker_id)

  unfoldable pub clear_job_lease : String → Act (Unit {0})
  clear_job_lease id = do attempt (write (del (job_lease_key id))); pure tt

  unfoldable pub push_job : String → Act (Unit {0})
  push_job id = write (rpush job_queue_key id)

  abbrev or_no_job : List String → Act String
  or_no_job [] = raise no_job
  or_no_job (id ∷ rest) = pure id

  -- The wait for a job is over: the queue is looked at once.
  unfoldable pub pop_job_reliable : String → Act String
  pop_job_reliable worker_id = do
    head ←
        trip
          (λ s. ((view s).lists job_queue_key, blmove job_queue_key (processing_key worker_id) s))
    or_no_job head

  unfoldable pub ack_job : String → String → Act (Unit {0})
  ack_job worker_id id = write (lrem_one (processing_key worker_id) id)

  abbrev requeue_removed : String → Bool → Act (Unit {0})
  requeue_removed id true = write (rpush job_queue_key id)
  requeue_removed id false = pure tt

  unfoldable pub requeue_processing : String → String → Act (Unit {0})
  requeue_processing worker_id id = do
    removed ← trip (λ s. (
      has id ((view s).lists (processing_key worker_id)),
      lrem_one (processing_key worker_id) id s,
    ))
    requeue_removed id removed

  abbrev found_job : Bool × MapValues → Act (ScanJob c)
  found_job (true, m) = pure (from_hash c m)
  found_job (false, m) = raise job_not_found

  unfoldable pub get_job : String → Act (ScanJob c)
  get_job id = do
    found ← trip (λ s. (((view s).hash_exists (job_key id), (view s).hashes (job_key id)), s))
    found_job found

  -- a best-effort command, whose error is dropped
  unfoldable pub try_write : (Store → Store) → Act (Unit {0})
  try_write f = do attempt (write f); pure tt

  unfoldable pub move_status : String → ScanJob c → Act (Unit {0})
  move_status old job =
      if not (str_eq old "") && not (str_eq old job.status)
      then (try_write (srem (status_key old) job.id)
          >> try_write (sadd (status_key job.status) job.id))
      else pure tt

  unfoldable pub leave_non_terminal : ScanJob c → Act (Unit {0})
  leave_non_terminal job =
      if is_terminal_status job.status
      then (try_write (srem (status_key status_queued) job.id)
          >> try_write (srem (status_key status_processing) job.id))
      else pure tt

  unfoldable pub update_job : ScanJob c → Act (Unit {0})
  update_job job = do
    old ← attempt (trip (λ s. (text_of ((view s).hashes (job_key job.id) "status"), s)))
    write (hset (job_key job.id) (to_hash c job))
    try_write (expire (job_key job.id) job_ttl)
    move_status (or_empty old) job
    leave_non_terminal job

  unfoldable pub move_to_dlq : String → Act (Unit {0})
  move_to_dlq id = write (move_to_dlq_script r c id)

  unfoldable pub set_job_phase : String → String → Act (Unit {0})
  set_job_phase id phase = write (hset (job_key id) (field "phase" phase))

  -- `now` is the time in RFC 3339
  unfoldable pub register_worker : String → String → Act (Unit {0})
  register_worker worker_id now = write (
      hset (worker_key worker_id)
        (both (field "id" worker_id) (both (field "started_at" now) (field "last_heartbeat" now))))

  unfoldable pub unregister_worker : String → Act (Unit {0})
  unregister_worker worker_id = write (del (worker_key worker_id))

  unfoldable pub update_worker_heartbeat : String → String → Act (Unit {0})
  update_worker_heartbeat worker_id now =
      write (hset (worker_key worker_id) (field "last_heartbeat" now))

  unfoldable pub get_queue_depth : Act ℕ
  get_queue_depth = trip (λ s. (length ((view s).lists job_queue_key), s))

  abbrev or_not_in_dlq : ℕ → Act (Unit {0})
  or_not_in_dlq zero = raise not_in_dlq
  or_not_in_dlq n = pure tt

  abbrev pub reset_for_retry : ScanJob c → ScanJob c
  reset_for_retry job = record job {
    status = status_queued;
    retry_count = 0;
    error = "";
    started_at = none;
    failed_at = none;
    worker_id = "";
  }

  unfoldable pub retry_dlq_job : String → Act (Unit {0})
  retry_dlq_job id = do
    removed ← trip (retry_dlq_remove_script r c id)
    or_not_in_dlq removed
    job ← get_job id
    enqueue_job_atomic (reset_for_retry job)

  abbrev cancel_result : CancelReply r c → Act (Unit {0})
  cancel_result cancel_missing = raise job_not_found
  cancel_result cancel_refused = raise not_cancellable
  cancel_result cancel_done = pure tt

  unfoldable pub cancel_job : String → String → Act (Unit {0})
  cancel_job id now = do res ← trip (cancel_job_script r c id now); cancel_result res
