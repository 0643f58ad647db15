-- ===== src/Queue/Retry.antt =====
-- `RetryDLQJob` of morf/queue/queue.go: out of the dead-letter list, back into the queue.
use morf.Prelude.{
  ◌≡◌, refl, ap, ◌∙◌, Bool, true, false, String, List, [], ◌∷◌, ◌++◌, if◌then◌else◌, str_eq,
  eq_refl,
}
use morf.Redis.{
  Redis, ok, err, Contents, refused, delivered, redis_failed, remove_first, has, with_list, overlay,
}
use morf.Job.{Codec, ScanJob, from_hash, to_hash, status_queued}
use morf.Queue.{retry_dlq_job, get_job, enqueue_job_atomic, reset_for_retry}
use morf.Queue.Scripts.{retry_dlq_remove_script, enqueue_script}
use morf.Queue.Keys.{job_key, status_key, job_queue_key, dlq_key}
use morf.Queue.Admission.{published, view-enqueue_script}
use morf.Job.RoundTrip.{from_hash-overlay}
use morf.Queue.Updates.{with_member-sets}

module _ (r : Redis) (c : Codec) (id : String) (s : r.Store) where
  abbrev pub dead : List String
  dead = (r.view s).lists dlq_key

  abbrev pub retried : ScanJob c
  retried = reset_for_retry r c (from_hash c ((r.view s).hashes (job_key id)))

  abbrev removed : r.Store
  removed = r.lrem_one dlq_key id s

  abbrev removed_view : Contents
  removed_view = with_list (r.view s) dlq_key (remove_first id dead)

  -- The job leaves the dead-letter list before its record is read: where that read fails, the caller
  -- gets an error, the dead-letter list has lost the job, and the queue is as it was.
  pub retry_dlq_job-strands :
      has id dead ≡ true
      → (t : r.Store) × (retry_dlq_job r c id
            (record { store = s; faults = delivered ∷ refused ∷ [] })
          ≡ (err redis_failed, record { store = t; faults = [] }))
        × ((r.view t).lists dlq_key ≡ remove_first id dead)
        × ((r.view t).lists job_queue_key ≡ (r.view s).lists job_queue_key)
  unfolding retry_dlq_job retry_dlq_remove_script get_job
  retry_dlq_job-strands h = (
    removed,
    rw h refl,
    ap (λ v. v.lists dlq_key) (r.view-lrem_one dlq_key id s),
    ap (λ v. v.lists job_queue_key) (r.view-lrem_one dlq_key id s),
  )

  retry_dlq_job-delivered :
      has id dead ≡ true
      → (r.view s).hash_exists (job_key id) ≡ true
      → retry_dlq_job r c id (record { store = s; faults = [] })
        ≡ (ok tt, record { store = enqueue_script r c retried removed; faults = [] })
  unfolding retry_dlq_job retry_dlq_remove_script get_job enqueue_job_atomic
  retry_dlq_job-delivered h found = rw (h, r.view-lrem_one, found) refl

  retried-view : r.view (enqueue_script r c retried removed) ≡ published r c retried removed_view
  retried-view =
      view-enqueue_script r c retried removed
      ∙ ap (published r c retried) (r.view-lrem_one dlq_key id s)

  module _ (named : (from_hash c ((r.view s).hashes (job_key id))).id ≡ id) where
    if-true-false : (b : Bool) → (if b then true else false) ≡ b
    if-true-false true = refl
    if-true-false false = refl

    requeued-hash :
        (r.view (enqueue_script r c retried removed)).hashes (job_key id)
        ≡ overlay (to_hash c retried) ((r.view s).hashes (job_key id))
    requeued-hash =
        ap (λ v. v.hashes (job_key id)) retried-view ∙ rw (named, eq_refl (job_key id)) refl

    requeued-sets :
        ((x : String) → (r.view s).sets (status_key x) id ≡ false)
        → (x : String)
        → (r.view (enqueue_script r c retried removed)).sets (status_key x) id
          ≡ str_eq status_queued x
    requeued-sets unlisted x =
        ap (λ v. v.sets (status_key x) id) retried-view
        ∙ rw named (
            with_member-sets (r.view s) status_queued x id true
            ∙ rw (unlisted x) (if-true-false (str_eq status_queued x)))

    -- A retry over a connection that works moves a stored job, whose record carries its
    -- identifier, from the dead-letter list to the tail of the queue, with its attempts counted
    -- from zero and its error and worker cleared. Its record says that it is queued, and the status sets, which
    -- held it nowhere, hold it as queued alone.
    pub retry_dlq_job-requeues :
        has id dead ≡ true
        → (r.view s).hash_exists (job_key id) ≡ true
        → ((x : String) → (r.view s).sets (status_key x) id ≡ false)
        → (t : r.Store) × (retry_dlq_job r c id (record { store = s; faults = [] })
            ≡ (ok tt, record { store = t; faults = [] }))
          × ((r.view t).lists dlq_key ≡ remove_first id dead)
          × ((r.view t).lists job_queue_key ≡ (r.view s).lists job_queue_key ++ id ∷ [])
          × ((x : String) → (r.view t).sets (status_key x) id ≡ str_eq status_queued x)
          × ((from_hash c ((r.view t).hashes (job_key id))).status ≡ status_queued)
          × ((from_hash c ((r.view t).hashes (job_key id))).retry_count ≡ 0)
          × ((from_hash c ((r.view t).hashes (job_key id))).error ≡ "")
          × ((from_hash c ((r.view t).hashes (job_key id))).worker_id ≡ "")
    unfolding to_hash
    retry_dlq_job-requeues h found unlisted =
        let (ids, statuses, errors, workers, counts, keys, starts, completions, failures) =
          from_hash-overlay c retried ((r.view s).hashes (job_key id)) in
        (
          enqueue_script r c retried removed,
          retry_dlq_job-delivered h found,
          ap (λ v. v.lists dlq_key) retried-view,
          ap (λ v. v.lists job_queue_key) retried-view
              ∙ ap (λ i. (r.view s).lists job_queue_key ++ i ∷ []) named,
          requeued-sets unlisted,
          ap (λ g. (from_hash c g).status) requeued-hash ∙ statuses,
          ap (λ g. (from_hash c g).retry_count) requeued-hash ∙ counts,
          ap (λ g. (from_hash c g).error) requeued-hash ∙ errors,
          ap (λ g. (from_hash c g).worker_id) requeued-hash ∙ workers,
        )
