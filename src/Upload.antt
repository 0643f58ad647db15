-- ===== src/Upload.antt =====
-- The upload handlers of morf/router/routers.go: a package is stored and a job for it is published,
-- with the checks before both. The multipart form, fresh identifiers and the path functions of the
-- Go library are arguments.
pub mod Admission
pub mod Outcome
pub mod Bulk
mod Tests
use Prim.Native.String
use morf.Prelude.{
  ℕ, zero, suc, ◌+◌, ◌*◌, ◌^◌, String, Bool, true, false, not, ◌&&◌, ◌||◌, Option, none, some, List,
  [], ◌∷◌, ◌++◌, if◌then◌else◌, str_eq, ltb, ◌==◌, length,
}
use morf.Worker.Retry.{contains}
use morf.Redis.{Redis, World, Reply, ok, err, Error, queue_full}
use morf.Job.{Codec, ScanJob, empty_job, status_queued}
use morf.Queue.{get_queue_depth, enqueue_job_atomic_with_limit}
use morf.Storage.{Storage}

-- a file of the form, with its content if it can be opened
pub record FileHeader : Type 0 where
  pub filename : String
  pub size : ℕ
  pub content : Option String

-- the form of a single upload; a file that cannot be read from the body is `none`
pub record UploadForm : Type 0 where
  pub content_length : ℕ
  pub file : Option FileHeader
  pub webhook_url : String
  pub webhook_secret : String
  pub scan_timeout : String

pub record BulkForm : Type 0 where
  pub content_length : ℕ
  pub files : Option (List FileHeader)
  pub webhook_url : String
  pub webhook_secret : String

-- the services behind the handlers, and functions of the Go library
pub record Services : Type 0 where
  pub database_ready : Bool
  pub queue_ready : Bool
  pub store_ready : Bool
  pub is_valid_webhook : String → Bool
  pub ext : String → String
  pub to_lower : String → String
  pub positive_int : String → Option ℕ
  pub max_upload_size : ℕ
  pub max_bulk_upload_size : ℕ
  pub queue_depth_threshold : ℕ

-- the fresh identifiers of an upload
pub record Fresh : Type 0 where
  pub storage_id : String
  pub job_id : String

module _ (svc : Services) where
  unfoldable pub is_supported_package_ext : String → Bool
  is_supported_package_ext filename =
      let e = svc.to_lower (svc.ext filename) in str_eq e ".apk" || str_eq e ".ipa"

  unfoldable pub package_file_type : String → String
  package_file_type filename =
      if str_eq (svc.to_lower (svc.ext filename)) ".ipa" then "ipa" else "apk"

  abbrev pub has_traversal : String → Bool
  has_traversal name = contains name ".." || (contains name "/" || contains name "\\")

  abbrev pub storage_key : Fresh → FileHeader → String
  storage_key fresh f = String.◌++◌ fresh.storage_id (svc.ext f.filename)

  -- the status of the first check on the request and its file that fails
  unfoldable pub rejection : UploadForm → FileHeader → Option ℕ
  unfolding is_supported_package_ext
  rejection form f =
      if ltb svc.max_upload_size f.size
      then some 413
      else if not (is_supported_package_ext f.filename)
      then some 400
      else if has_traversal f.filename
      then some 400
      else if not svc.database_ready
      then some 503
      else if not svc.queue_ready
      then some 503
      else none

module _ (r : Redis) (c : Codec) (st : Storage) where
  -- the server behind the connection, and the object store
  abbrev pub Site : Type 0
  Site = World r.Store × st.State

  abbrev pub Publication : Type 0
  Publication = Reply (Unit {0}) × Site

  -- The job is published within the limit; on any error the stored object is deleted.
  unfoldable pub publish : Services → ScanJob c → String → Site → Publication
  unfolding enqueue_job_atomic_with_limit
  publish svc job key (w, s) =
      let (reply, published) =
        enqueue_job_atomic_with_limit r c job svc.queue_depth_threshold 1 w in
      elim reply [
        | ok u ↦ (ok u, (published, s))
        | err e ↦ (err e, (published, (st.delete key s).1))
      ]

  abbrev pub publish_status : Reply (Unit {0}) → ℕ
  publish_status (ok u) = 202
  publish_status (err queue_full) = 429
  publish_status (err _) = 500

  abbrev pub upload_job :
      Services → UploadForm → FileHeader → Fresh → String → c.Time → c.Carrier → ScanJob c
  upload_job svc form f fresh request_id now carrier = record (empty_job c) {
    id = fresh.job_id;
    status = status_queued;
    storage_key = storage_key svc fresh f;
    apk_path = storage_key svc fresh f;
    file_type = package_file_type svc f.filename;
    original_filename = f.filename;
    created_at = now;
    retry_count = 0;
    scan_timeout = elim (svc.positive_int form.scan_timeout) [ none ↦ 0 | some n ↦ n ];
    webhook_url = form.webhook_url;
    webhook_secret = form.webhook_secret;
    request_id = request_id;
    trace_context = carrier;
  }

  -- the file is stored, and then its job is published
  unfoldable pub store_upload : Services → FileHeader → String → ScanJob c → Site → ℕ × Site
  unfolding publish
  store_upload svc f key job (w, s) = elim f.content [
    | none ↦ (500, (w, s))
    | some bytes ↦
        let (stored, after) = st.put key bytes s in
        let (reply, site) = publish svc job key (w, after) in
        if not stored then (500, (w, after)) else (publish_status reply, site)
  ]

  -- the handler of POST /upload
  unfoldable pub upload :
      Services → UploadForm → Fresh → String → c.Time → c.Carrier → Site → ℕ × Site
  unfolding rejection get_queue_depth store_upload package_file_type
  upload svc form fresh request_id now carrier (w, s) =
      if ltb svc.max_upload_size form.content_length then (413, (w, s)) else elim form.file [
        | none ↦ (400, (w, s))
        | some f ↦ elim (rejection svc form f) [
          | some status ↦ (status, (w, s))
          | none ↦
              let (depth, probed) = get_queue_depth r c w in
              elim depth [
                | err e ↦ (429, (probed, s))
                | ok n ↦
                    if ltb svc.queue_depth_threshold n
                    then (429, (probed, s))
                    else if not (str_eq form.webhook_url "")
                        && not (svc.is_valid_webhook form.webhook_url)
                    then (400, (probed, s))
                    else if not svc.store_ready
                    then (500, (probed, s))
                    else store_upload svc f (storage_key svc fresh f)
                        (upload_job svc form f fresh request_id now carrier) (probed, s)
              ]
        ]
      ]

  abbrev pub bulk_job : Services → BulkForm → FileHeader → Fresh → String → c.Time → ScanJob c
  bulk_job svc form f fresh request_id now = record (empty_job c) {
    id = fresh.job_id;
    status = status_queued;
    storage_key = storage_key svc fresh f;
    apk_path = storage_key svc fresh f;
    file_type = package_file_type svc f.filename;
    original_filename = f.filename;
    created_at = now;
    retry_count = 0;
    webhook_url = form.webhook_url;
    webhook_secret = form.webhook_secret;
    request_id = request_id;
  }

  abbrev pub is_published : Reply (Unit {0}) → Bool
  is_published (ok u) = true
  is_published (err e) = false

  -- one file of a bulk upload, and whether its job has been published
  unfoldable pub bulk_file :
      Services → BulkForm → FileHeader → Fresh → String → c.Time → Site → Bool × Site
  unfolding publish is_supported_package_ext package_file_type
  bulk_file svc form f fresh request_id now (w, s) =
      let key = storage_key svc fresh f in
      if not (is_supported_package_ext svc f.filename)
      then (false, (w, s))
      else if ltb svc.max_upload_size f.size
      then (false, (w, s))
      else if has_traversal svc f.filename
      then (false, (w, s))
      else elim f.content [
        | none ↦ (false, (w, s))
        | some bytes ↦
            let (stored, after) = st.put key bytes s in
            let (reply, site) =
              publish svc (bulk_job svc form f fresh request_id now) key (w, after) in
            if not stored then (false, (w, after)) else (is_published reply, site)
      ]

  -- the files with their fresh identifiers, the ids of the published jobs, and the failures
  unfoldable pub bulk_loop :
      Services
      → BulkForm
      → String
      → c.Time
      → List (FileHeader × Fresh)
      → Site
      → List String × ℕ × Site
  unfolding bulk_file
  bulk_loop svc form request_id now [] site = ([], 0, site)
  bulk_loop svc form request_id now ((f, fresh) ∷ rest) site =
      let (published, after) = bulk_file svc form f fresh request_id now site in
      let (ids, failed, last) = bulk_loop svc form request_id now rest after in
      if published then (fresh.job_id ∷ ids, failed, last) else (ids, suc failed, last)

  abbrev pub bulk_status : List String → ℕ
  bulk_status [] = 400
  bulk_status (id ∷ rest) = 202

  abbrev pub refuse : ℕ → Site → ℕ × List String × ℕ × Site
  refuse status site = (status, [], 0, site)

  abbrev pub with_fresh : (ℕ → Fresh) → ℕ → List FileHeader → List (FileHeader × Fresh)
  with_fresh fresh n [] = []
  with_fresh fresh n (f ∷ rest) = (f, fresh n) ∷ with_fresh fresh (suc n) rest

  -- the handler of POST /bulk-upload
  unfoldable pub bulk_upload :
      Services → BulkForm → (ℕ → Fresh) → String → c.Time → Site → ℕ × List String × ℕ × Site
  unfolding bulk_loop get_queue_depth
  bulk_upload svc form fresh request_id now (w, s) =
      if ltb svc.max_bulk_upload_size form.content_length
      then refuse 413 (w, s)
      else elim form.files [
        | none ↦ refuse 400 (w, s)
        | some files ↦
            let (depth, probed) = get_queue_depth r c w in
            let (ids, failed, site) =
              bulk_loop svc form request_id now (with_fresh fresh 0 files) (probed, s) in
            if length files == 0 || ltb 50 (length files)
            then refuse 400 (w, s)
            else if not (str_eq form.webhook_url "") && not (svc.is_valid_webhook form.webhook_url)
            then refuse 400 (w, s)
            else if not svc.database_ready || not svc.queue_ready
            then refuse 503 (w, s)
            else elim depth [
              | err e ↦ refuse 429 (probed, s)
              | ok n ↦
                  if ltb svc.queue_depth_threshold (n + length files)
                  then refuse 429 (probed, s)
                  else if not svc.store_ready
                  then refuse 500 (probed, s)
                  else (bulk_status ids, ids, failed, site)
            ]
      ]
