-- ===== src/Queue/Tests.antt =====
-- The theorems on morf/queue at concrete inputs, on a server in memory.
use morf.Prelude.{
  ℕ, ◌+◌, ◌-◌, ◌≤◌, ◌≡◌, refl, ◌∙◌, Bool, true, false, none, some, [], ◌∷◌, ◌++◌, arith,
  if◌then◌else◌, str_eq, length, String,
}
use morf.Redis.{
  Contents, World, ok, err, redis_failed, delivered, refused, reply_lost, with_list, with_fields,
  with_member,
}
use morf.Redis.Memory.{memory, empty}
use morf.Job.{
  ScanJob, empty_job, to_hash, from_hash, status_queued, status_failed, status_completed,
  status_cancelled,
}
use morf.Job.Plain.{plain}
use morf.Queue.{
  pop_job_reliable, requeue_processing, enqueue_job_atomic_with_limit, update_job, cancel_job,
  retry_dlq_job,
}
use morf.Queue.Scripts.{field, text_of}
use morf.Queue.Keys.{job_queue_key, dlq_key, job_key, status_key, processing_key, worker_key}
use morf.Queue.Admission.{enqueue_job_atomic_with_limit-bounded}
use morf.Queue.Delivery.{places, requeue_processing-moves, requeue_processing-loses}
use morf.Queue.Reaper.{reap_worker}
use morf.Queue.Reaper.Sweep.{reap_worker-recovers}
use morf.Queue.Updates.{IsIndexed, with_member-sets, update_job-IsIndexed}
use morf.Queue.Cancel.{cancel_job-IsIndexed}
use morf.Queue.Retry.{retry_dlq_job-requeues}

program : Unit {0}
unfolding to_hash from_hash processing_key job_key worker_key pop_job_reliable requeue_processing
program = tt

abbrev job : ScanJob plain
job = record (empty_job plain) { id = "j1"; status = status_queued }

abbrev calm : Contents → World Contents
calm s = record { store = s; faults = [] }

-- two jobs wait, and worker "w" holds a third
abbrev shared : Contents
shared = with_list (with_list empty job_queue_key ("a" ∷ "b" ∷ [])) (processing_key "w") ("c" ∷ [])

abbrev flaky : World Contents
flaky = record { store = shared; faults = reply_lost ∷ [] }

enqueue_job_atomic_with_limit-bounded_example :
    length ((enqueue_job_atomic_with_limit memory plain job 3 1 flaky).1.store.lists job_queue_key)
    ≤ 3
unfolding program
enqueue_job_atomic_with_limit-bounded_example =
    enqueue_job_atomic_with_limit-bounded memory plain job 3 1 flaky (omega arith) (omega arith)
      (omega arith)

requeue_processing-moves_example :
    (t : Contents) × (requeue_processing memory plain "w" "c" (calm shared) ≡ (ok tt, calm t))
    × (t.lists (processing_key "w") ≡ [])
    × (t.lists job_queue_key ≡ "a" ∷ "b" ∷ "c" ∷ [])
    × ((u : String) → places "w" u t ≡ places "w" u shared)
unfolding program
requeue_processing-moves_example = requeue_processing-moves "w" memory plain "c" shared

requeue_processing-loses_example :
    let (reply, after) =
      requeue_processing memory plain "w" "c"
        (record { store = shared; faults = delivered ∷ refused ∷ [] }) in
    (reply ≡ err redis_failed) × (places "w" "c" after.store + 1 ≡ places "w" "c" shared)
unfolding program
requeue_processing-loses_example = requeue_processing-loses "w" memory plain "c" shared [] refl

-- worker "w" was last seen at time 2
abbrev registered : Contents
registered = with_fields shared (worker_key "w") (field "last_heartbeat" (plain.format 2))

abbrev late_since : ℕ → ℕ
late_since t = 10 - t

last_seen : registered.hashes (worker_key "w") "last_heartbeat" ≡ some (plain.format 2)
unfolding program
last_seen = refl

reap_worker-recovers_example :
    let t = (reap_worker memory plain late_since 5 (worker_key "w") (calm registered)).1.store in
    (t.lists job_queue_key
      ≡ registered.lists job_queue_key ++ registered.lists (processing_key "w"))
    × (t.lists (processing_key "w") ≡ [])
    × (t.hashes (worker_key "w") "last_heartbeat" ≡ none)
reap_worker-recovers_example =
    reap_worker-recovers memory plain "w" late_since 5 registered (plain.format 2) 2 refl last_seen
      (plain.parse-format 2) (omega arith)

-- job "j1" is stored as queued, and indexed so
abbrev stored : Contents
stored = with_fields empty (job_key "j1") (field "status" status_queued)

abbrev indexed : Contents
indexed = with_member stored (status_key status_queued) "j1" true

same_bool : (b : Bool) → (if b then true else false) ≡ b
same_bool true = refl
same_bool false = refl

indexed-IsIndexed : IsIndexed indexed "j1"
unfolding program
indexed-IsIndexed x =
    with_member-sets stored status_queued x "j1" true ∙ same_bool (str_eq status_queued x)

stored_status : (indexed.hashes (job_key "j1") "status") ≡ some status_queued
unfolding program
stored_status = refl

abbrev finished : ScanJob plain
finished = record job { status = status_completed }

update_job-IsIndexed_example :
    (t : Contents) × (update_job memory plain finished (calm indexed) ≡ (ok tt, calm t))
    × (t.hashes (job_key "j1") "status" ≡ some status_completed)
    × IsIndexed t "j1"
unfolding program
update_job-IsIndexed_example =
    update_job-IsIndexed plain finished memory indexed indexed-IsIndexed refl

abbrev waiting : Contents
waiting = with_list indexed job_queue_key ("a" ∷ "j1" ∷ [])

cancel_job-IsIndexed_example :
    (t : Contents) × (cancel_job memory plain "j1" "now" (calm waiting) ≡ (ok tt, calm t))
    × (text_of (t.hashes (job_key "j1") "status") ≡ status_cancelled)
    × IsIndexed t "j1"
    × (t.lists job_queue_key ≡ "a" ∷ [])
unfolding program
cancel_job-IsIndexed_example =
    cancel_job-IsIndexed memory plain "j1" "now" waiting refl indexed-IsIndexed

-- job "j1" was buried after two attempts
abbrev dead_job : ScanJob plain
dead_job = record job { status = status_failed; retry_count = 2; error = "no space" }

abbrev graveyard : Contents
graveyard =
    with_list (with_fields empty (job_key "j1") (to_hash plain dead_job)) dlq_key ("j1" ∷ [])

retry_dlq_job-requeues_example :
    (t : Contents) × (retry_dlq_job memory plain "j1" (calm graveyard) ≡ (ok tt, calm t))
    × (t.lists dlq_key ≡ [])
    × (t.lists job_queue_key ≡ "j1" ∷ [])
    × ((x : String) → t.sets (status_key x) "j1" ≡ str_eq status_queued x)
    × ((from_hash plain (t.hashes (job_key "j1"))).status ≡ status_queued)
    × ((from_hash plain (t.hashes (job_key "j1"))).retry_count ≡ 0)
    × ((from_hash plain (t.hashes (job_key "j1"))).error ≡ "")
    × ((from_hash plain (t.hashes (job_key "j1"))).worker_id ≡ "")
unfolding program
retry_dlq_job-requeues_example =
    retry_dlq_job-requeues memory plain "j1" graveyard refl refl refl (λ x. refl)
