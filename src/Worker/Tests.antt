-- ===== src/Worker/Tests.antt =====
-- The theorems on morf/worker/worker.go at concrete inputs, on a server in memory.
use morf.Prelude.{
  ◌≡◌, refl, ◌∙◌, Bool, true, false, some, none, [], ◌∷◌, ◌++◌, if◌then◌else◌, str_eq,
}
use morf.Redis.{
  Contents, World, Reply, ok, refused, with_list, with_fields, with_member, pure, delivered, ◌>>◌,
}
use morf.Redis.Memory.{memory, empty}
use morf.Job.{ScanJob, empty_job, to_hash, from_hash, status_queued, status_processing}
use morf.Job.Plain.{plain}
use morf.Queue.{is_terminal_status, check_job_lease, update_job, set_job_phase}
use morf.Queue.Scripts.{field}
use morf.Queue.Keys.{job_queue_key, job_key, processing_key, job_lease_key, status_key}
use morf.Queue.Updates.{updated, IsIndexed, with_member-sets}
use morf.Queue.Frames.{list_at}
use morf.Worker.{
  ScanResult, scanned, deleted_artifact, recorded_scan, webhook, handle_job_failure, process_job,
  failed_job, requeued_job, retry_persisted,
}
use morf.Worker.Retry.{marshalled, ScanError, is_retryable}
use morf.Worker.Failure.{handle_job_failure-unacked, deletes}
use morf.Worker.Settled.{IsCompleted, KeepsButPhase-trans, with_fields-KeepsButPhase}
use morf.Worker.Delivery.{process_job-completes, Succeeds}
use morf.Worker.Verdict.{handle_job_failure-retries}

program : Unit {0}
unfolding to_hash from_hash processing_key job_key job_lease_key process_job handle_job_failure
    is_retryable is_terminal_status check_job_lease retry_persisted update_job
program = tt

-- with the settings that are used where none is given
abbrev calm : Contents → World Contents
calm s = record { store = s; faults = [] }

abbrev running : ScanJob plain
running = record (empty_job plain) {
  id = "j1";
  status = status_processing;
  worker_id = "w";
  webhook_url = "https://example.test";
}

abbrev claimed : Contents
claimed =
    with_list (with_fields empty (job_key "j1") (to_hash plain running)) (processing_key "w")
      ("j1" ∷ [])

abbrev timeout : ScanError
timeout = record {
  text = "context deadline exceeded";
  lowered = "context deadline exceeded";
  non_retryable = false;
  retryable = true;
}

-- the lease is read, and then the server does not answer
abbrev down : World Contents
down = record { store = claimed; faults = delivered ∷ refused ∷ refused ∷ [] }

handle_job_failure-unacked_example :
    (list_at memory plain
        (processing_key "w")
        (handle_job_failure memory plain 3 "w" running 9 timeout down).1.store
      ≡ list_at memory plain (processing_key "w") claimed)
    × (deletes (recorded_scan "failed" ∷ webhook true ∷ []) ≡ false)
unfolding program
handle_job_failure-unacked_example =
    handle_job_failure-unacked memory plain 3 "w" running 9 timeout (processing_key "w") down
      (recorded_scan "failed" ∷ webhook true ∷ []) refl

-- a scan that reports two phases
abbrev reports_phases :
    ScanJob plain → World Contents → Reply (ScanResult memory plain 3) × World Contents
reports_phases job = do
  set_job_phase memory plain job.id "unpacking"
  set_job_phase memory plain job.id "scanning"
  pure (scanned (marshalled "{}"))

abbrev waiting : Contents
waiting =
    with_member
      (with_list
        (with_fields empty (job_key "j1")
          (to_hash plain (record running { status = status_queued; worker_id = "" })))
        (processing_key "w") ("j1" ∷ []))
      (status_key status_queued) "j1" true

b-true-false : (b : Bool) → (if b then true else false) ≡ b
b-true-false true = refl
b-true-false false = refl

waiting-IsIndexed : IsIndexed waiting "j1"
unfolding program
waiting-IsIndexed x =
    with_member-sets
      (with_list
        (with_fields empty (job_key "j1")
          (to_hash plain (record running { status = status_queued; worker_id = "" })))
        (processing_key "w") ("j1" ∷ []))
      status_queued x "j1" true
    ∙ b-true-false (str_eq status_queued x)

reports_phases-Succeeds : Succeeds memory plain 3 reports_phases "w" "j1" 5 9 waiting "{}"
unfolding program set_job_phase
reports_phases-Succeeds t =
    let first = with_fields t (job_key "j1") (field "phase" "unpacking") in
    (
      with_fields first (job_key "j1") (field "phase" "scanning"),
      refl,
      KeepsButPhase-trans t first _ (with_fields-KeepsButPhase t (job_key "j1") "unpacking")
          (with_fields-KeepsButPhase first (job_key "j1") "scanning"),
    )

process_job-completes_example :
    (u : Contents) × (process_job memory plain 3 reports_phases "w" "j1" 5 9 (calm waiting)
      ≡ (ok (recorded_scan "success" ∷ deleted_artifact ∷ webhook false ∷ []), calm u))
    × IsCompleted plain "w" "j1" 9 "{}" waiting u
unfolding program
process_job-completes_example =
    process_job-completes memory plain 3 reports_phases "w" "j1" 5 9 waiting "{}" refl
      reports_phases-Succeeds refl refl waiting-IsIndexed refl refl

abbrev failed : ScanError → ScanJob plain
failed e = failed_job memory plain 3 running 9 e

handle_job_failure-retries_example :
    (t : Contents) × (let k = from_hash plain (t.hashes (job_key "j1")) in
      (handle_job_failure memory plain 3 "w" running 9 timeout (calm claimed)
        ≡ (ok (true, recorded_scan "failed" ∷ webhook true ∷ []), calm t))
      × (k.status ≡ status_queued)
      × (k.retry_count ≡ 1)
      × (k.error ≡ "context deadline exceeded")
      × (k.worker_id ≡ "")
      × (k.started_at ≡ none)
      × (k.failed_at ≡ some 9)
      × (t ≡ (
          let v = updated plain (requeued_job memory plain 3 (failed timeout)) claimed in
          with_list v job_queue_key (v.lists job_queue_key ++ "j1" ∷ []))))
unfolding program
handle_job_failure-retries_example =
    handle_job_failure-retries memory plain 3 "w" running 9 timeout claimed refl refl refl
