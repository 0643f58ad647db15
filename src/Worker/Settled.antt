-- ===== src/Worker/Settled.antt =====
-- What a success leaves of the server's data: `handleJobSuccess` of morf/worker/worker.go with the
-- acknowledgement by `processJob`.
use morf.Prelude.{
  ◌≡◌, refl, ap, ◌∙◌, false, String, some, none, eq_refl, eq_iff, str_eq, Bool-cases, inl, inr,
}
use morf.Redis.{Contents, with_list, without_key, with_fields, remove_first, overlay}
use morf.Job.{Codec, ScanJob, from_hash, to_hash, status_completed}
use morf.Job.RoundTrip.{from_hash-overlay, from_hash-overlay_result}
use morf.Queue.Scripts.{text_of, field}
use morf.Queue.Keys.{
  job_key, status_key, job_queue_key, processing_key, job_lease_key,
  processing_key-ne-job_queue_key, job_lease_key-ne-job_queue_key, job_lease_key-ne-processing_key,
  job_lease_key-ne-status_key, job_lease_key-ne-job_key,
}
use morf.Queue.Updates.{
  IsIndexed, status_of, updated, updated-hash, updated-status, updated-lists, updated-IsIndexed,
}

-- What a scan does to the server: `SetJobPhase` writes the phase of the job's record.
pub record KeepsButPhase (v w : Contents) : Type 0 where
  pub same_lists : w.lists ≡ v.lists
  pub same_sets : w.sets ≡ v.sets
  pub same_strings : w.strings ≡ v.strings
  pub same_fields : (k f : String) → str_eq "phase" f ≡ false → w.hashes k f ≡ v.hashes k f

pub KeepsButPhase-trans :
    (u v w : Contents) → KeepsButPhase u v → KeepsButPhase v w → KeepsButPhase u w
KeepsButPhase-trans u v w h k = record {
  same_lists = k.same_lists ∙ h.same_lists;
  same_sets = k.same_sets ∙ h.same_sets;
  same_strings = k.same_strings ∙ h.same_strings;
  same_fields = λ key f other. k.same_fields key f other ∙ h.same_fields key f other;
}

pub with_fields-KeepsButPhase :
    (v : Contents) (key phase : String) → KeepsButPhase v (with_fields v key (field "phase" phase))
with_fields-KeepsButPhase v key phase = record {
  same_lists = refl;
  same_sets = refl;
  same_strings = refl;
  same_fields = λ k f other. elim (Bool-cases (str_eq key k)) [
    | inl e ↦ rw (e, overlay, other) (ap (λ x. v.hashes x f) ((eq_iff key k).0 e))
    | inr e ↦ rw e refl
  ];
}

-- The job's record, its sets, its lease and the lists, when it has been completed.
pub record IsCompleted (c : Codec) (worker_id id : String) (later : c.Time) (result : String)
    (before after : Contents) : Type 0 where
  pub status : (from_hash c (after.hashes (job_key id))).status ≡ status_completed
  pub stored : (from_hash c (after.hashes (job_key id))).result ≡ result
  pub completed_at :
      (from_hash c (after.hashes (job_key id))).completed_at ≡ some (c.to_second later)
  pub indexed : (x : String) → after.sets (status_key x) id ≡ str_eq status_completed x
  pub released : after.strings (job_lease_key id) ≡ none
  pub taken :
      after.lists (processing_key worker_id)
      ≡ remove_first id (before.lists (processing_key worker_id))
  pub queue : after.lists job_queue_key ≡ before.lists job_queue_key

module _ (c : Codec) (worker_id : String) (j : ScanJob c) where
  -- what a success leaves of the server's data: the job stored, its lease removed, the delivery
  -- acknowledged
  abbrev pub settled : Contents → Contents
  settled v =
      let w = without_key (updated c j v) (job_lease_key j.id) in
      with_list w (processing_key worker_id)
        (remove_first j.id (w.lists (processing_key worker_id)))

  settled-hash :
      (v : Contents)
      → (settled v).hashes (job_key j.id) ≡ overlay (to_hash c j) (v.hashes (job_key j.id))
  settled-hash v = rw (job_lease_key-ne-job_key j.id) (updated-hash c j v)

  settled-sets :
      (v : Contents) (x : String)
      → (settled v).sets (status_key x) j.id ≡ (updated c j v).sets (status_key x) j.id
  settled-sets v x = rw (job_lease_key-ne-status_key j.id x) refl

  settled-taken :
      (v : Contents)
      → (settled v).lists (processing_key worker_id)
        ≡ remove_first j.id (v.lists (processing_key worker_id))
  settled-taken v =
      rw (eq_refl (processing_key worker_id), job_lease_key-ne-processing_key j.id worker_id)
        (ap (λ l. remove_first j.id (l (processing_key worker_id))) (updated-lists c j v))

  settled-queue : (v : Contents) → (settled v).lists job_queue_key ≡ v.lists job_queue_key
  settled-queue v =
      rw (processing_key-ne-job_queue_key worker_id, job_lease_key-ne-job_queue_key j.id)
        (ap (λ l. l job_queue_key) (updated-lists c j v))

  pub settled-IsCompleted :
      (v before : Contents) (later : c.Time)
      → IsIndexed v j.id
      → str_eq (status_of c j v) "" ≡ false
      → j.status ≡ status_completed
      → j.completed_at ≡ some later
      → str_eq j.result "" ≡ false
      → v.lists ≡ before.lists
      → IsCompleted c worker_id j.id later j.result before (settled v)
  settled-IsCompleted v before later indexed known done at full same =
      let (ids, statuses, errors, workers, counts, keys, starts, completions, failures) =
        from_hash-overlay c j (v.hashes (job_key j.id)) in
      let read = ap (from_hash c) (settled-hash v) in
      record {
        status = ap (λ k. k.status) read ∙ statuses ∙ done;
        stored =
            ap (λ k. k.result) read ∙ from_hash-overlay_result c j (v.hashes (job_key j.id)) full;
        completed_at = ap (λ k. k.completed_at) read ∙ completions ∙ rw at refl;
        indexed = λ x.
            settled-sets v x
            ∙ updated-IsIndexed c j v indexed known x
            ∙ ap (λ o. str_eq (text_of o) x) (updated-status c j v)
            ∙ ap (λ t. str_eq t x) done;
        released = rw (eq_refl (job_lease_key j.id)) refl;
        taken = settled-taken v ∙ ap (λ l. remove_first j.id (l (processing_key worker_id))) same;
        queue = settled-queue v ∙ ap (λ l. l job_queue_key) same;
      }
