-- ===== src/Upload/Tests.antt =====
-- Runs of the upload handlers of morf/router/routers.go, and their theorems at concrete inputs.
use Prim.Native.String
use morf.Prelude.{
  ℕ, ◌+◌, ◌≤◌, ◌-◌, ◌==◌, ◌≡◌, refl, String, true, false, none, some, List, [], ◌∷◌, ◌++◌,
  if◌then◌else◌, length, arith,
}
use morf.Redis.{Contents, World, reply_lost, with_list}
use morf.Redis.Memory.{memory, empty}
use morf.Job.{ScanJob, empty_job, to_hash, status_queued}
use morf.Job.Plain.{plain}
use morf.Queue.Scripts.{enqueue_with_limit_script, enqueue_script}
use morf.Queue.Keys.{job_queue_key, job_key}
use morf.Queue.Admission.{queue_of}
use morf.Storage.{Storage}
use morf.Storage.Local.{resolve_key, sanitize_key, commit, local_put, local_delete, local_objects}
use morf.Storage.Atomic.{local_storage}
use morf.Storage.Plain.{Tree, in_memory, flat}
use morf.Upload.{
  FileHeader, UploadForm, BulkForm, Services, Fresh, upload, store_upload, bulk_upload, storage_key,
  is_supported_package_ext, has_traversal,
}
use morf.Upload.Outcome.{upload-accepted, store_upload-dangles}
use morf.Upload.Bulk.{bulk_upload-IsAccounted}

program : Unit {0}
unfolding enqueue_with_limit_script enqueue_script upload store_upload bulk_upload local_put
    local_delete local_objects resolve_key sanitize_key commit to_hash job_key
program = tt

abbrev store : Storage
store = local_storage in_memory flat "/data"

abbrev svc : Services
svc = record {
  database_ready = true;
  queue_ready = true;
  store_ready = true;
  is_valid_webhook = λ u. false;
  ext = λ s. String.slice s (String.len s - 4) (String.len s);
  to_lower = λ s. s;
  positive_int = λ s. none;
  max_upload_size = 100;
  max_bulk_upload_size = 1000;
  queue_depth_threshold = 3;
}

abbrev app : FileHeader
app = record { filename = "app.apk"; size = 5; content = some "bytes" }

abbrev form : UploadForm
form = record {
  content_length = 50;
  file = some app;
  webhook_url = "";
  webhook_secret = "";
  scan_timeout = "";
}

abbrev fresh : ℕ → Fresh
fresh n = record { storage_id = "s"; job_id = if n == 0 then "j" else "k" }

abbrev waiting : World Contents
waiting = record { store = with_list empty job_queue_key ("a" ∷ []); faults = [] }

abbrev no_files : Tree
no_files p = none

accepted : (upload memory plain store svc form (fresh 0) "r" 0 0 (waiting, no_files)).0 ≡ 202
unfolding program
accepted = refl

upload-accepted_example :
    let (status, (after, objects)) =
      upload memory plain store svc form (fresh 0) "r" 0 0 (waiting, no_files) in
    (f : FileHeader) × (bytes : String) × (form.file ≡ some f)
    × (f.content ≡ some bytes)
    × (f.size ≤ svc.max_upload_size)
    × (is_supported_package_ext svc f.filename ≡ true)
    × (has_traversal svc f.filename ≡ false)
    × (queue_of memory plain after.store ≡ queue_of memory plain waiting.store ++ "j" ∷ [])
    × (store.objects objects (storage_key svc (fresh 0) f) ≡ some bytes)
upload-accepted_example =
    upload-accepted memory plain store svc form (fresh 0) "r" 0 0 waiting no_files accepted

abbrev lossy : World Contents
lossy = record { store = waiting.store; faults = reply_lost ∷ [] }

abbrev job : ScanJob plain
job = record (empty_job plain) { id = "j"; status = status_queued }

abbrev stored : Tree
stored = (store.put "s.apk" "bytes" no_files).1

put_works : (store.put "s.apk" "bytes" no_files).0 ≡ true
unfolding program
put_works = refl

delete_works : (store.delete "s.apk" stored).0 ≡ true
unfolding program
delete_works = refl

store_upload-dangles_example :
    let (status, (after, objects)) =
      store_upload memory plain store svc app "s.apk" job (lossy, no_files) in
    (status ≡ 500)
    × (queue_of memory plain after.store ≡ "a" ∷ "j" ∷ [])
    × (store.objects objects "s.apk" ≡ none)
store_upload-dangles_example =
    store_upload-dangles memory plain store svc app "s.apk" "bytes" job waiting.store no_files []
      refl put_works delete_works (omega arith)

-- the second file has no package extension
abbrev bulk_form : BulkForm
bulk_form = record {
  content_length = 100;
  files = some (app ∷ record app { filename = "notes" } ∷ []);
  webhook_url = "";
  webhook_secret = "";
}

abbrev two_files : List FileHeader
two_files = app ∷ record app { filename = "notes" } ∷ []

bulk_accepted :
    (bulk_upload memory plain store svc bulk_form fresh "r" 0 (waiting, no_files)).0 ≡ 202
unfolding program
bulk_accepted = refl

bulk_upload-IsAccounted_example :
    let (status, ids, failed, (after, objects)) =
      bulk_upload memory plain store svc bulk_form fresh "r" 0 (waiting, no_files) in
    (2 ≤ 50)
    × (length ids + failed ≡ 2)
    × (queue_of memory plain after.store ≡ queue_of memory plain waiting.store ++ ids)
bulk_upload-IsAccounted_example =
    bulk_upload-IsAccounted memory plain store svc bulk_form fresh "r" 0 waiting.store no_files
      two_files refl bulk_accepted
