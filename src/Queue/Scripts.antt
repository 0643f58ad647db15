-- ===== src/Queue/Scripts.antt =====
-- The Lua scripts of morf/queue/queue.go: each runs on the server as one step.
use morf.Prelude.{
  ℕ, ◌+◌, ◌*◌, String, not, ◌&&◌, Option, none, some, if◌then◌else◌, str_eq, ltb, length,
}
use morf.Redis.{Redis, has, MapValues}
use morf.Job.{
  Codec, ScanJob, to_hash, status_queued, status_processing, status_failed, status_cancelled,
}
use morf.Queue.Keys.{job_queue_key, dlq_key, job_key, status_key}

-- seven days and two hours, in seconds
abbrev pub job_ttl : ℕ
job_ttl = 7 * 24 * 3600

-- Only the literal fields that a command sets.
abbrev pub field : String → String → MapValues
field f v g = if str_eq f g then some v else none

abbrev pub both : MapValues → MapValues → MapValues
both m n g = elim (m g) [ none ↦ n g | some v ↦ some v ]

abbrev pub text_of : Option String → String
text_of none = ""
text_of (some s) = s

module _ (r : Redis) (c : Codec) where
  open r use {
    Store, view, rpush, lpush, blmove, lrem_one, ltrim_last, sadd, srem, hset, expire, set, del,
  }

  -- enqueueScript
  unfoldable pub enqueue_script : ScanJob c → Store → Store
  enqueue_script job s = rpush job_queue_key job.id (
      expire (job_key job.id) job_ttl
        (sadd (status_key job.status) job.id (hset (job_key job.id) (to_hash c job) s)))

  -- enqueueWithLimitScript; a limit that is not positive is 0 here
  unfoldable pub enqueue_with_limit_script : ScanJob c → ℕ → ℕ → Store → ℕ × Store
  enqueue_with_limit_script job limit count s =
      let depth = length ((view s).lists job_queue_key) in
      if ltb 0 limit && ltb limit (depth + count) then (0, s) else (1, enqueue_script job s)

  -- moveToDLQScript
  unfoldable pub move_to_dlq_script : String → Store → Store
  move_to_dlq_script id s = srem (status_key status_failed) id (
      srem (status_key status_processing) id
        (srem (status_key status_queued) id (lpush dlq_key id s)))

  -- retryDLQRemoveScript
  unfoldable pub retry_dlq_remove_script : String → Store → ℕ × Store
  retry_dlq_remove_script id s =
      if has id ((view s).lists dlq_key)
      then (1, lrem_one dlq_key id s)
      else (0, lrem_one dlq_key id s)

  pub data CancelReply : Type 0 where
    cancel_missing cancel_refused cancel_done : CancelReply

  -- cancelJobScript
  unfoldable pub cancel_job_script : String → String → Store → CancelReply × Store
  cancel_job_script id now s =
      let status = text_of ((view s).hashes (job_key id) "status") in
      let fields =
        both (field "status" status_cancelled)
          (both (field "failed_at" now) (field "error" "Job cancelled by user")) in
      let moved = sadd (status_key status_cancelled) id (
        srem (status_key status_processing) id
          (srem (status_key status_queued) id (hset (job_key id) fields s))) in
      if not ((view s).hash_exists (job_key id))
      then (cancel_missing, s)
      else if not (str_eq status status_queued) && not (str_eq status status_processing)
      then (cancel_refused, s)
      else (
        cancel_done,
        if str_eq status status_queued then lrem_one job_queue_key id moved else moved,
      )
