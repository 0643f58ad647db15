-- ===== src/Queue/Admission.antt =====
-- The depth check of morf/queue/queue.go: `EnqueueJobAtomicWithLimit` against its limit.
use morf.Prelude.{
  ℕ, ◌+◌, ◌≤◌, ◌<◌, ◌≡◌, ap, true, String, List, [], ◌∷◌, ◌++◌, arith, length, length-append,
}
use morf.Redis.{Contents, with_fields, with_member, with_list, Redis, World, err, queue_full}
use morf.Job.{Codec, to_hash, ScanJob}
use morf.Queue.{enqueue_job_atomic_with_limit}
use morf.Queue.Scripts.{enqueue_script, enqueue_with_limit_script}
use morf.Queue.Keys.{job_queue_key, job_key, status_key}

module _ (r : Redis) (c : Codec) where
  abbrev pub queue_of : r.Store → List String
  queue_of s = (r.view s).lists job_queue_key

  -- what the script has written once it is done
  abbrev pub published : ScanJob c → Contents → Contents
  published job v =
      let hashed = with_fields v (job_key job.id) (to_hash c job) in
      let listed = with_member hashed (status_key job.status) job.id true in
      with_list listed job_queue_key (listed.lists job_queue_key ++ job.id ∷ [])

  pub view-enqueue_script :
      (job : ScanJob c) (s : r.Store) → r.view (enqueue_script r c job s) ≡ published job (r.view s)
  unfolding enqueue_script
  view-enqueue_script job s = simp (r.view-rpush, r.view-expire, r.view-sadd, r.view-hset)

  pub queue_of-enqueue_script :
      (job : ScanJob c) (s : r.Store)
      → queue_of (enqueue_script r c job s) ≡ queue_of s ++ job.id ∷ []
  queue_of-enqueue_script job s = ap (λ v. v.lists job_queue_key) (view-enqueue_script job s)

  script_depth :
      (job : ScanJob c) (limit count : ℕ) (s : r.Store)
      → length (queue_of s) ≤ limit
      → 0 < limit
      → 0 < count
      → length (queue_of (enqueue_with_limit_script r c job limit count s).1) ≤ limit
  unfolding enqueue_with_limit_script
  script_depth job limit count s h pos n =
      ground (arith, queue_of-enqueue_script job s, length-append (queue_of s) (job.id ∷ []))

  script_full :
      (job : ScanJob c) (limit count : ℕ) (s : r.Store)
      → (enqueue_with_limit_script r c job limit count s).0 ≡ 0
      → (0 < limit)
        × (limit < length (queue_of s) + count)
        × ((enqueue_with_limit_script r c job limit count s).1 ≡ s)
  unfolding enqueue_with_limit_script
  script_full job limit count s h = ground arith

  -- Whatever becomes of the round trip, an admission of at least one job against a positive limit
  -- leaves the queue within the limit if it was within it before.
  pub enqueue_job_atomic_with_limit-bounded :
      (job : ScanJob c) (limit count : ℕ) (w : World r.Store)
      → length (queue_of w.store) ≤ limit
      → 0 < limit
      → 0 < count
      → length (queue_of (enqueue_job_atomic_with_limit r c job limit count w).1.store) ≤ limit
  unfolding enqueue_job_atomic_with_limit
  enqueue_job_atomic_with_limit-bounded job limit count w h pos n =
      ground (arith, script_depth job limit count w.store h pos n)

  -- An admission that reports a full queue has written nothing, and the queue had no room for the
  -- jobs it stands for.
  pub enqueue_job_atomic_with_limit-queue_full :
      (job : ScanJob c) (limit count : ℕ) (w : World r.Store)
      → (enqueue_job_atomic_with_limit r c job limit count w).0 ≡ err queue_full
      → (0 < limit)
        × (limit < length (queue_of w.store) + count)
        × ((enqueue_job_atomic_with_limit r c job limit count w).1.store ≡ w.store)
  unfolding enqueue_job_atomic_with_limit
  enqueue_job_atomic_with_limit-queue_full job limit count w h =
      ground (arith, script_full job limit count w.store)
