-- ===== src/Worker/Verdict.antt =====
-- What a job's verdict leaves on the server, over a connection that works (`handleJobSuccess` and
-- `handleJobFailure` of morf/worker/worker.go).
use morf.Prelude.{
  ℕ, ◌≡◌, refl, ap, ◌∙◌, ◌+◌, Bool, true, false, ◌&&◌, ◌||◌, String, none, some, [], ◌∷◌, ◌++◌,
  arith, str_eq, ltb,
}
use morf.Redis.{Redis, World, ok, with_list, without_key, with_member, Contents}
use morf.Job.{Codec, ScanJob, from_hash, status_queued, status_processing, status_failed}
use morf.Queue.{check_job_lease, clear_job_lease, push_job, move_to_dlq}
use morf.Queue.Scripts.{move_to_dlq_script, text_of}
use morf.Queue.Keys.{job_queue_key, dlq_key, job_lease_key, job_key, status_key}
use morf.Queue.Updates.{updated, updated-hash, update_job-delivered}
use morf.Job.RoundTrip.{from_hash-overlay}
use morf.Worker.{
  deleted_artifact, recorded_scan, notify, handle_job_failure, handle_job_success, fail_owned,
  retry_persisted, dead_persisted, failed_job, requeued_job, completed_job, succeed_owned,
  success_persisted,
}
use morf.Worker.Retry.{Marshalled, marshalled, ScanError, is_retryable}

module _ (r : Redis) (c : Codec) (max_retries : ℕ) (worker_id : String) (job : ScanJob c)
    (now : c.Time) where
  abbrev pub owner_of : r.Store → String
  owner_of s = text_of ((r.view s).strings (job_lease_key job.id))

  -- a lease that is absent or empty counts as owned
  abbrev pub owns : r.Store → Bool
  owns s = str_eq (owner_of s) "" || str_eq (owner_of s) worker_id

  abbrev at_rest : r.Store → World r.Store
  at_rest s = record { store = s; faults = [] }

  module _ (e : ScanError) where
    abbrev pub failed : ScanJob c
    failed = failed_job r c max_retries job now e

    abbrev pub requeued : ScanJob c
    requeued = requeued_job r c max_retries failed

    fail-owned :
        (s : r.Store)
        → owns s ≡ true
        → handle_job_failure r c max_retries worker_id job now e (at_rest s)
          ≡ fail_owned r c max_retries job now e (at_rest s)
    unfolding handle_job_failure check_job_lease
    fail-owned s own = ground arith

    -- Over a connection that works, for a worker that owns the job, a failure that may be retried,
    -- with attempts left: the job is stored as queued, with one more attempt, the error and the time of
    -- the failure, and without a worker or a time of start; its identifier goes to the tail of the
    -- queue, the other data change as `UpdateJob` changes them, the artifact stays, and the old
    -- delivery is acknowledged.
    pub handle_job_failure-retries :
        (s : r.Store)
        → owns s ≡ true
        → is_retryable e ≡ true
        → ltb (job.retry_count + 1) max_retries ≡ true
        → (t : r.Store) × (let k = from_hash c ((r.view t).hashes (job_key job.id)) in
            (handle_job_failure r c max_retries worker_id job now e (at_rest s)
              ≡ (ok (true, recorded_scan "failed" ∷ notify r c max_retries job true), at_rest t))
            × (k.status ≡ status_queued)
            × (k.retry_count ≡ job.retry_count + 1)
            × (k.error ≡ e.text)
            × (k.worker_id ≡ "")
            × (k.started_at ≡ none)
            × (k.failed_at ≡ some (c.to_second now))
            × (r.view t ≡ (
                let v = updated c requeued (r.view s) in
                with_list v job_queue_key (v.lists job_queue_key ++ job.id ∷ []))))
    unfolding fail_owned retry_persisted push_job
    handle_job_failure-retries s own may left =
        let (t, ran, seen) = update_job-delivered c requeued r s in
        let view =
          r.view-rpush job_queue_key job.id t
          ∙ ap (λ v. with_list v job_queue_key (v.lists job_queue_key ++ job.id ∷ [])) seen in
        let read =
          ap (λ v. from_hash c (v.hashes (job_key job.id))) view
          ∙ ap (from_hash c) (updated-hash c requeued (r.view s)) in
        let (ids, statuses, errors, workers, counts, keys, starts, completions, failures) =
          from_hash-overlay c requeued ((r.view s).hashes (job_key job.id)) in
        (
          r.rpush job_queue_key job.id t,
          (
            fail-owned s own ∙ rw (may, left) (rw ran refl),
            ap (λ k. k.status) read ∙ statuses,
            ap (λ k. k.retry_count) read ∙ counts,
            ap (λ k. k.error) read ∙ errors,
            ap (λ k. k.worker_id) read ∙ workers,
            ap (λ k. k.started_at) read ∙ starts,
            ap (λ k. k.failed_at) read ∙ failures,
            view,
          ),
        )

    -- The effect of `moveToDLQScript`.
    abbrev pub buried : Contents → Contents
    buried v =
        let pushed = with_list v dlq_key (job.id ∷ v.lists dlq_key) in
        with_member
          (with_member (with_member pushed (status_key status_queued) job.id false)
            (status_key status_processing) job.id false)
          (status_key status_failed) job.id false

    view-move_to_dlq_script :
        (s : r.Store) → r.view (move_to_dlq_script r c job.id s) ≡ buried (r.view s)
    unfolding move_to_dlq_script
    view-move_to_dlq_script s = simp (r.view-srem, r.view-lpush)

    -- Over a connection that works, for a worker that owns the job, any other failure: the job is
    -- stored as failed, its identifier goes to the head of the dead-letter list and leaves the
    -- sets of queued, processing and failed jobs, the artifact is deleted, and the delivery is
    -- acknowledged.
    pub handle_job_failure-buries :
        (s : r.Store)
        → owns s ≡ true
        → is_retryable e && ltb (job.retry_count + 1) max_retries ≡ false
        → (t : r.Store) × (handle_job_failure r c max_retries worker_id job now e (at_rest s) ≡ (
          ok (true, deleted_artifact ∷ recorded_scan "failed" ∷ notify r c max_retries job true),
          at_rest t,
        ))
          × (r.view t ≡ buried (updated c failed (r.view s)))
    unfolding fail_owned dead_persisted move_to_dlq
    handle_job_failure-buries s own over =
        let (t, ran, seen) = update_job-delivered c failed r s in
        (
          move_to_dlq_script r c job.id t,
          fail-owned s own ∙ rw over (rw ran refl),
          view-move_to_dlq_script t ∙ ap buried seen,
        )

  succeed-owned :
      (s : r.Store) (result : Marshalled)
      → owns s ≡ true
      → handle_job_success r c max_retries worker_id job now result (at_rest s)
        ≡ succeed_owned r c max_retries worker_id job now result (at_rest s)
  unfolding handle_job_success check_job_lease
  succeed-owned s result own = ground arith

  -- Over a connection that works, for a worker that owns the job, a scan that succeeds: the result
  -- is stored with the completed job, the lease is removed, the artifact is deleted, and the
  -- delivery is acknowledged.
  pub handle_job_success-completes :
      (s : r.Store) (result : String)
      → owns s ≡ true
      → (t : r.Store) × (handle_job_success r c max_retries worker_id job now
            (marshalled result)
            (at_rest s)
          ≡ (
            ok (
              true,
              recorded_scan "success" ∷ deleted_artifact ∷ notify r c max_retries job false,
            ),
            at_rest t,
          ))
        × (r.view t
            ≡ without_key
                (updated c (completed_job r c max_retries job now result) (r.view s))
                (job_lease_key job.id))
  unfolding succeed_owned success_persisted clear_job_lease
  handle_job_success-completes s result own =
      let (t, ran, seen) =
        update_job-delivered c (completed_job r c max_retries job now result) r s in
      (
        r.del (job_lease_key job.id) t,
        succeed-owned s (marshalled result) own ∙ rw ran refl,
        r.view-del (job_lease_key job.id) t ∙ ap (λ v. without_key v (job_lease_key job.id)) seen,
      )
