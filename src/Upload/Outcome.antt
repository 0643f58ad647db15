-- ===== src/Upload/Outcome.antt =====
-- What POST /upload of morf/router/routers.go leaves behind, by its answer.
use morf.Prelude.{
  ℕ, ◌≤◌, ◌<◌, ◌≡◌, ◌≢◌, refl, sym, ap, ◌∙◌, String, true, false, none, some, List, [], ◌∷◌, ◌++◌,
  arith, inl, inr, Bool-cases, Option-cases, length, ltb, ◌⊎◌,
}
use morf.Redis.{
  Redis, World, Reply, Error, no_job, job_not_found, not_in_dlq, not_cancellable, ok, err,
  redis_failed, queue_full, Fault, reply_lost,
}
use morf.Job.{Codec, ScanJob}
use morf.Queue.{enqueue_job_atomic_with_limit, get_queue_depth}
use morf.Queue.Scripts.{enqueue_with_limit_script}
use morf.Queue.Admission.{queue_of, queue_of-enqueue_script}
use morf.Storage.{Storage}
use morf.Upload.{
  FileHeader, UploadForm, Services, Fresh, storage_key, rejection, is_supported_package_ext,
  has_traversal, publish, publish_status, upload_job, store_upload, upload,
}

module _ (r : Redis) (c : Codec) (st : Storage) (svc : Services) where
  enqueue-appends :
      (job : ScanJob c) (limit : ℕ) (w : World r.Store)
      → (enqueue_job_atomic_with_limit r c job limit 1 w).0 ≡ ok tt
      → queue_of r c (enqueue_job_atomic_with_limit r c job limit 1 w).1.store
        ≡ queue_of r c w.store ++ job.id ∷ []
  unfolding enqueue_job_atomic_with_limit enqueue_with_limit_script
  enqueue-appends job limit w h = ground (arith, queue_of-enqueue_script r c job w.store)

  probe-store : (w : World r.Store) → (get_queue_depth r c w).1.store ≡ w.store
  unfolding get_queue_depth
  probe-store w = ground arith

  Reply-cases : (x : Reply (Unit {0})) → (x ≡ ok tt) ⊎ ((e : Error) × (x ≡ err e))
  Reply-cases (ok tt) = inl refl
  Reply-cases (err e) = inr (e, refl)

  publish_status-err : (e : Error) → publish_status r c st (err e) ≢ 202
  publish_status-err redis_failed = λ h. omega (arith, h)
  publish_status-err no_job = λ h. omega (arith, h)
  publish_status-err queue_full = λ h. omega (arith, h)
  publish_status-err job_not_found = λ h. omega (arith, h)
  publish_status-err not_in_dlq = λ h. omega (arith, h)
  publish_status-err not_cancellable = λ h. omega (arith, h)

  store_upload-accepted :
      (f : FileHeader) (key : String) (job : ScanJob c) (w : World r.Store) (s : st.State)
      → let (status, (after, objects)) = store_upload r c st svc f key job (w, s) in
        status ≡ 202
        → (bytes : String) × (f.content ≡ some bytes)
          × (queue_of r c after.store ≡ queue_of r c w.store ++ job.id ∷ [])
          × (st.objects objects key ≡ some bytes)
  unfolding store_upload publish
  store_upload-accepted f key job w s accepted = elim (Option-cases f.content) [
    | inl e ↦ absurd (ground (arith, e, accepted))
    | inr (bytes, e) ↦ elim (Bool-cases (st.put key bytes s).0) [
      | inr failed ↦ absurd (ground (arith, e, failed, accepted))
      | inl stored ↦
          elim (Reply-cases
            (enqueue_job_atomic_with_limit r c job svc.queue_depth_threshold 1 w).0) [
              | inr (x, d) ↦ absurd (publish_status-err x (ground (arith, e, stored, d, accepted)))
              | inl d ↦
                  rw (store_upload, e, stored, publish, d)
                    (
                      bytes,
                      refl,
                      enqueue-appends job svc.queue_depth_threshold w d,
                      st.put-stores key bytes s stored,
                    )
            ]
    ]
  ]

  rejection-passed :
      (form : UploadForm) (f : FileHeader)
      → rejection svc form f ≡ none
      → (f.size ≤ svc.max_upload_size)
        × (is_supported_package_ext svc f.filename ≡ true)
        × (has_traversal svc f.filename ≡ false)
  unfolding rejection
  rejection-passed form f passed = ground (arith, passed)

  rejection-status :
      (form : UploadForm) (f : FileHeader) (n : ℕ) → rejection svc form f ≡ some n → n ≢ 202
  unfolding rejection
  rejection-status form f n e = λ h. ground (arith, e, h)

  -- An accepted upload has passed every check before the store, and done nothing but probe the queue.
  upload-stores :
      (form : UploadForm) (fresh : Fresh) (request_id : String) (now : c.Time) (carrier : c.Carrier)
      (w : World r.Store) (s : st.State)
      → (upload r c st svc form fresh request_id now carrier (w, s)).0 ≡ 202
      → (f : FileHeader) × (form.file ≡ some f)
        × (rejection svc form f ≡ none)
        × (upload r c st svc form fresh request_id now carrier (w, s)
            ≡ store_upload r c st svc f
                (storage_key svc fresh f)
                (upload_job r c st svc form f fresh request_id now carrier)
                ((get_queue_depth r c w).1, s))
  unfolding upload
  upload-stores form fresh request_id now carrier w s accepted =
      elim (Bool-cases (ltb svc.max_upload_size form.content_length)) [
        | inl big ↦ absurd (ground (arith, big, accepted))
        | inr fits ↦ elim (Option-cases form.file) [
          | inl e ↦ absurd (ground (arith, fits, e, accepted))
          | inr (f, e) ↦ elim (Option-cases (rejection svc form f)) [
            | inr (n, d) ↦
                absurd (rejection-status form f n d (ground (arith, fits, e, d, accepted)))
            | inl d ↦ (f, e, d, ground (arith, fits, e, d, accepted))
          ]
        ]
      ]

  -- An upload that is answered with 202 has passed the checks on its file, its content is stored
  -- under its storage key, and its job has been appended to the queue, once.
  pub upload-accepted :
      (form : UploadForm) (fresh : Fresh) (request_id : String) (now : c.Time) (carrier : c.Carrier)
      (w : World r.Store) (s : st.State)
      → let (status, (after, objects)) =
          upload r c st svc form fresh request_id now carrier (w, s) in
        status ≡ 202
        → (f : FileHeader) × (bytes : String) × (form.file ≡ some f)
          × (f.content ≡ some bytes)
          × (f.size ≤ svc.max_upload_size)
          × (is_supported_package_ext svc f.filename ≡ true)
          × (has_traversal svc f.filename ≡ false)
          × (queue_of r c after.store ≡ queue_of r c w.store ++ fresh.job_id ∷ [])
          × (st.objects objects (storage_key svc fresh f) ≡ some bytes)
  upload-accepted form fresh request_id now carrier w s accepted =
      let (f, e, passed, same) = upload-stores form fresh request_id now carrier w s accepted in
      let (small, supported, plain) = rejection-passed form f passed in
      let job = upload_job r c st svc form f fresh request_id now carrier in
      let (bytes, content, queued, stored) =
        store_upload-accepted f (storage_key svc fresh f) job (get_queue_depth r c w).1 s
          (ap (λ x. x.0) (sym same) ∙ accepted) in
      (
        f,
        bytes,
        e,
        content,
        small,
        supported,
        plain,
        ap (λ x. queue_of r c x.1.0.store) same
            ∙ queued
            ∙ ap (λ v. queue_of r c v ++ fresh.job_id ∷ []) (probe-store w),
        ap (λ x. st.objects x.1.1 (storage_key svc fresh f)) same ∙ stored,
      )

  -- Let the queue have room and the store work. If the reply to the publication of an upload is lost,
  -- the upload is answered with 500 and its object is deleted, but its job is in the queue.
  pub store_upload-dangles :
      (f : FileHeader) (key bytes : String) (job : ScanJob c) (v : r.Store) (s : st.State)
      (later : List Fault)
      → f.content ≡ some bytes
      → (st.put key bytes s).0 ≡ true
      → (st.delete key (st.put key bytes s).1).0 ≡ true
      → length (queue_of r c v) < svc.queue_depth_threshold
      → let (status, (after, objects)) =
          store_upload r c st svc f key job
            (record { store = v; faults = reply_lost ∷ later }, s) in
        (status ≡ 500)
        × (queue_of r c after.store ≡ queue_of r c v ++ job.id ∷ [])
        × (st.objects objects key ≡ none)
  unfolding store_upload publish enqueue_job_atomic_with_limit enqueue_with_limit_script
  store_upload-dangles f key bytes job v s later content stored deleted room = (
    ground (arith, content, stored),
    ground (arith, content, stored, room, queue_of-enqueue_script r c job v),
    ground (arith, content, stored, st.delete-removes key (st.put key bytes s).1 deleted),
  )
