-- ===== src/Upload/Admission.antt =====
-- The depth of the queue under the upload handlers of morf/router/routers.go.
use morf.Prelude.{
  ℕ, ◌≤◌, ◌<◌, String, List, [], ◌∷◌, arith, inl, inr, Bool-cases, Option-cases, length, ltb,
}
use morf.Redis.{Redis, World}
use morf.Job.{Codec, ScanJob}
use morf.Queue.{get_queue_depth}
use morf.Queue.Admission.{queue_of, enqueue_job_atomic_with_limit-bounded}
use morf.Storage.{Storage}
use morf.Upload.{
  storage_key, bulk_job, is_supported_package_ext, has_traversal, upload_job, FileHeader,
  UploadForm, BulkForm, Services, Fresh, Site, publish, store_upload, upload, bulk_file, bulk_loop,
  bulk_upload, with_fresh,
}

module _ (r : Redis) (c : Codec) (st : Storage) (svc : Services)
    (pos : 0 < svc.queue_depth_threshold) where
  -- the queue is within the threshold
  abbrev pub IsWithin : World r.Store → Type 0
  IsWithin w = length (queue_of r c w.store) ≤ svc.queue_depth_threshold

  publish-IsWithin :
      (job : ScanJob c) (key : String) (w : World r.Store) (s : st.State)
      → IsWithin w
      → IsWithin (publish r c st svc job key (w, s)).1.0
  unfolding publish
  publish-IsWithin job key w s h = ground (
    arith,
    enqueue_job_atomic_with_limit-bounded r c job svc.queue_depth_threshold 1 w h pos (omega arith),
  )

  store_upload-IsWithin :
      (f : FileHeader) (key : String) (job : ScanJob c) (w : World r.Store) (s : st.State)
      → IsWithin w
      → IsWithin (store_upload r c st svc f key job (w, s)).1.0
  unfolding store_upload
  store_upload-IsWithin f key job w s h = elim (Option-cases f.content) [
    | inl e ↦ rw (store_upload, e) h
    | inr (bytes, e) ↦ elim (Bool-cases (st.put key bytes s).0) [
      | inr d ↦ rw (store_upload, e, d) h
      | inl d ↦ rw (store_upload, e, d) (publish-IsWithin job key w (st.put key bytes s).1 h)
    ]
  ]

  probe-IsWithin : (w : World r.Store) → IsWithin w → IsWithin (get_queue_depth r c w).1
  unfolding get_queue_depth
  probe-IsWithin w h = ground arith

  bulk_file-IsWithin :
      (form : BulkForm) (f : FileHeader) (fresh : Fresh) (request_id : String) (now : c.Time)
      (w : World r.Store) (s : st.State)
      → IsWithin w
      → IsWithin (bulk_file r c st svc form f fresh request_id now (w, s)).1.0
  unfolding bulk_file
  bulk_file-IsWithin form f fresh request_id now w s h =
      let key = storage_key svc fresh f in
      let job = bulk_job r c st svc form f fresh request_id now in
      elim (Bool-cases (is_supported_package_ext svc f.filename)) [
        | inr a ↦ rw (bulk_file, a) h
        | inl a ↦ elim (Bool-cases (ltb svc.max_upload_size f.size)) [
          | inl b ↦ rw (bulk_file, a, b) h
          | inr b ↦ elim (Bool-cases (has_traversal svc f.filename)) [
            | inl d ↦ rw (bulk_file, a, b, d) h
            | inr d ↦ elim (Option-cases f.content) [
              | inl e ↦ rw (bulk_file, a, b, d, e) h
              | inr (bytes, e) ↦ elim (Bool-cases (st.put key bytes s).0) [
                | inr i ↦ rw (bulk_file, a, b, d, e, i) h
                | inl i ↦
                    rw (bulk_file, a, b, d, e, i)
                      (publish-IsWithin job key w (st.put key bytes s).1 h)
              ]
            ]
          ]
        ]
      ]

  bulk_loop-IsWithin :
      (form : BulkForm) (request_id : String) (now : c.Time) (files : List (FileHeader × Fresh))
      (site : Site r c st)
      → IsWithin site.0
      → IsWithin (bulk_loop r c st svc form request_id now files site).2.0
  unfolding bulk_loop
  bulk_loop-IsWithin form request_id now [] site h = h
  bulk_loop-IsWithin form request_id now ((f, fresh) ∷ rest) site h =
      let one = bulk_file r c st svc form f fresh request_id now site in
      let later =
        bulk_loop-IsWithin form request_id now rest one.1
          (bulk_file-IsWithin form f fresh request_id now site.0 site.1 h) in
      elim (Bool-cases one.0) [ inl e ↦ rw (bulk_loop, e) later | inr e ↦ rw (bulk_loop, e) later ]

  -- Whatever becomes of the round trips to the queue and of the store, an upload leaves the queue
  -- within a positive threshold if it was within it before.
  pub upload-bounded :
      (form : UploadForm) (fresh : Fresh) (request_id : String) (now : c.Time) (carrier : c.Carrier)
      (w : World r.Store) (s : st.State)
      → IsWithin w
      → IsWithin (upload r c st svc form fresh request_id now carrier (w, s)).1.0
  unfolding upload
  upload-bounded form fresh request_id now carrier w s h = elim (Option-cases form.file) [
    | inl e ↦ ground (arith, e, h)
    | inr (f, e) ↦ ground (
      arith,
      e,
      h,
      probe-IsWithin w h,
      store_upload-IsWithin f (storage_key svc fresh f)
          (upload_job r c st svc form f fresh request_id now carrier) (get_queue_depth r c w).1 s
          (probe-IsWithin w h),
    )
  ]

  -- So does a bulk upload, whose files are published one by one.
  pub bulk_upload-bounded :
      (form : BulkForm) (fresh : ℕ → Fresh) (request_id : String) (now : c.Time) (w : World r.Store)
      (s : st.State)
      → IsWithin w
      → IsWithin (bulk_upload r c st svc form fresh request_id now (w, s)).3.0
  unfolding bulk_upload
  bulk_upload-bounded form fresh request_id now w s h = elim (Option-cases form.files) [
    | inl e ↦ ground (arith, e, h)
    | inr (files, e) ↦ ground (
      arith,
      e,
      h,
      probe-IsWithin w h,
      bulk_loop-IsWithin form request_id now (with_fresh r c st fresh 0 files)
          ((get_queue_depth r c w).1, s) (probe-IsWithin w h),
    )
  ]
