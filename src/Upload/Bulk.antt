-- ===== src/Upload/Bulk.antt =====
-- What POST /bulk-upload of morf/router/routers.go leaves behind when no round trip fails.
use morf.Prelude.{
  if◌then◌else◌, ℕ, suc, ◌+◌, ◌≤◌, ◌≡◌, refl, sym, ap, ◌∙◌, String, Bool, false, some, List, [],
  ◌∷◌, ◌++◌, append-nil, append_assoc, arith, inl, inr, Bool-cases, Option-cases, length, ltb,
}
use mathlib.Core.Path.{subst}
use morf.Redis.{Redis, World}
use morf.Job.{Codec, ScanJob}
use morf.Queue.{enqueue_job_atomic_with_limit, get_queue_depth}
use morf.Queue.Scripts.{enqueue_with_limit_script}
use morf.Queue.Admission.{queue_of, queue_of-enqueue_script}
use morf.Storage.{Storage}
use morf.Upload.{
  is_published, storage_key, bulk_job, is_supported_package_ext, has_traversal, FileHeader,
  BulkForm, Services, Fresh, Site, publish, bulk_file, bulk_loop, bulk_upload, with_fresh,
}

module _ (r : Redis) (c : Codec) (st : Storage) (svc : Services) where
  abbrev calm : r.Store → World r.Store
  calm v = record { store = v; faults = [] }

  -- one file is published and appended, or leaves the queue as it was
  abbrev IsOneStep : String → r.Store → Bool × Site r c st → Type 0
  IsOneStep id v (published, (w, s)) =
      (w ≡ calm w.store)
      × (queue_of r c w.store ≡ queue_of r c v ++ (if published then id ∷ [] else []))

  publish-calm :
      (job : ScanJob c) (key : String) (v : r.Store) (s : st.State)
      → let (reply, site) = publish r c st svc job key (calm v, s) in
        IsOneStep job.id v (is_published r c st reply, site)
  unfolding publish enqueue_job_atomic_with_limit enqueue_with_limit_script
  publish-calm job key v s =
      (ground arith, ground (arith, queue_of-enqueue_script r c job v, append-nil (queue_of r c v)))

  skipped : (id : String) (v : r.Store) (s : st.State) → IsOneStep id v (false, (calm v, s))
  skipped id v s = (refl, sym (append-nil (queue_of r c v)))

  bulk_file-calm :
      (form : BulkForm) (f : FileHeader) (fresh : Fresh) (request_id : String) (now : c.Time)
      (v : r.Store) (s : st.State)
      → IsOneStep fresh.job_id v (bulk_file r c st svc form f fresh request_id now (calm v, s))
  unfolding bulk_file
  bulk_file-calm form f fresh request_id now v s =
      let key = storage_key svc fresh f in
      let job = bulk_job r c st svc form f fresh request_id now in
      elim (Bool-cases (is_supported_package_ext svc f.filename)) [
        | inr a ↦ rw (bulk_file, a) (skipped fresh.job_id v s)
        | inl a ↦ elim (Bool-cases (ltb svc.max_upload_size f.size)) [
          | inl b ↦ rw (bulk_file, a, b) (skipped fresh.job_id v s)
          | inr b ↦ elim (Bool-cases (has_traversal svc f.filename)) [
            | inl d ↦ rw (bulk_file, a, b, d) (skipped fresh.job_id v s)
            | inr d ↦ elim (Option-cases f.content) [
              | inl e ↦ rw (bulk_file, a, b, d, e) (skipped fresh.job_id v s)
              | inr (bytes, e) ↦ elim (Bool-cases (st.put key bytes s).0) [
                | inr i ↦
                    rw (bulk_file, a, b, d, e, i) (skipped fresh.job_id v (st.put key bytes s).1)
                | inl i ↦
                    rw (bulk_file, a, b, d, e, i) (publish-calm job key v (st.put key bytes s).1)
              ]
            ]
          ]
        ]
      ]

  -- the published jobs are appended in order, and every file is accounted for
  abbrev IsAccounted : ℕ → r.Store → List String × ℕ × Site r c st → Type 0
  IsAccounted n v (ids, failed, (w, s)) =
      (length ids + failed ≡ n) × (queue_of r c w.store ≡ queue_of r c v ++ ids)

  bulk_loop-IsAccounted :
      (form : BulkForm) (request_id : String) (now : c.Time) (files : List (FileHeader × Fresh))
      (w : World r.Store) (s : st.State)
      → w ≡ calm w.store
      → IsAccounted (length files) w.store (bulk_loop r c st svc form request_id now files (w, s))
  unfolding bulk_loop
  bulk_loop-IsAccounted form request_id now [] w s quiet =
      (refl, sym (append-nil (queue_of r c w.store)))
  bulk_loop-IsAccounted form request_id now ((f, fresh) ∷ rest) w s quiet =
      let one = bulk_file r c st svc form f fresh request_id now (w, s) in
      let step : IsOneStep fresh.job_id w.store one =
        subst
          (λ x.
            IsOneStep fresh.job_id w.store
              (bulk_file r c st svc form f fresh request_id now (x, s)))
          (sym quiet) (bulk_file-calm form f fresh request_id now w.store s) in
      let (count, appended) =
        bulk_loop-IsAccounted form request_id now rest one.1.0 one.1.1 step.0 in
      let here = queue_of r c w.store in
      let ids = (bulk_loop r c st svc form request_id now rest one.1).0 in
      let added : Bool → List String = λ b. here ++ (if b then fresh.job_id ∷ [] else []) in
      elim (Bool-cases one.0) [
        | inl e ↦
            rw (bulk_loop, e)
              (
                omega (arith, count),
                appended
                    ∙ ap (λ q. q ++ ids) (step.1 ∙ ap added e)
                    ∙ append_assoc here (fresh.job_id ∷ []) ids,
              )
        | inr e ↦
            rw (bulk_loop, e)
              (
                omega (arith, count),
                appended ∙ ap (λ q. q ++ ids) (step.1 ∙ ap added e ∙ append-nil here),
              )
      ]

  length-with_fresh :
      (fresh : ℕ → Fresh) (n : ℕ) (files : List FileHeader)
      → length (with_fresh r c st fresh n files) ≡ length files
  length-with_fresh fresh n [] = refl
  length-with_fresh fresh n (f ∷ rest) = ap suc (length-with_fresh fresh (suc n) rest)

  -- Let no round trip fail, and a bulk upload be answered with 202. Then it has at most 50 files, each
  -- of them is reported as published or as failed, and the jobs reported are those that it has
  -- appended to the queue, in order.
  pub bulk_upload-IsAccounted :
      (form : BulkForm) (fresh : ℕ → Fresh) (request_id : String) (now : c.Time) (v : r.Store)
      (s : st.State) (files : List FileHeader)
      → form.files ≡ some files
      → (bulk_upload r c st svc form fresh request_id now (calm v, s)).0 ≡ 202
      → let (status, ids, failed, (after, objects)) =
          bulk_upload r c st svc form fresh request_id now (calm v, s) in
        (length files ≤ 50)
        × (length ids + failed ≡ length files)
        × (queue_of r c after.store ≡ queue_of r c v ++ ids)
  unfolding bulk_upload get_queue_depth
  bulk_upload-IsAccounted form fresh request_id now v s files e accepted =
      let looped =
        bulk_loop-IsAccounted form request_id now (with_fresh r c st fresh 0 files) (calm v) s
          refl in
      let counted = looped.0 ∙ length-with_fresh fresh 0 files in
      (
        ground (arith, e, accepted),
        ground (arith, e, accepted, counted),
        ground (arith, e, accepted, looped.1),
      )
