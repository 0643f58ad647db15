-- ===== src/Job/Tests.antt =====
-- A job of morf/models/ScanJob.go written to its hash and read back.
use morf.Prelude.{◌≡◌, none, some}
use morf.Redis.{overlay}
use morf.Job.{ScanJob, empty_job, to_hash, from_hash, status_failed, status_queued}
use morf.Job.Plain.{plain}
use morf.Job.RoundTrip.{from_hash-overlay}

abbrev failed : ScanJob plain
failed = record (empty_job plain) {
  id = "j1";
  status = status_failed;
  error = "decompilation failed";
  failed_at = some 7;
  retry_count = 2;
  trace_context = 3;
}

abbrev retried : ScanJob plain
retried = record failed { status = status_queued; error = ""; failed_at = none; retry_count = 0 }

from_hash-overlay_example :
    let k = from_hash plain (overlay (to_hash plain retried) (to_hash plain failed)) in
    (k.id ≡ "j1")
    × (k.status ≡ status_queued)
    × (k.error ≡ "")
    × (k.worker_id ≡ "")
    × (k.retry_count ≡ 0)
    × (k.storage_key ≡ "")
    × (k.started_at ≡ none)
    × (k.completed_at ≡ none)
    × (k.failed_at ≡ none)
from_hash-overlay_example = from_hash-overlay plain retried (to_hash plain failed)
