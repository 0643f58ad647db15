-- ===== src/Queue/Cancel.antt =====
-- `CancelJob` of morf/queue/queue.go and its script.
use morf.Prelude.{
  ◌≡◌, refl, sym, ap, ◌∙◌, Bool, true, false, ◌&&◌, ◌||◌, String, [], some, arith, if◌then◌else◌,
  str_eq, eq_iff, eq_refl, Bool-cases, inl, inr,
}
use morf.Redis.{
  Redis, World, Reply, ok, err, Contents, remove_first, with_member, with_fields, with_list,
  MapValues,
}
use morf.Job.{Codec, status_cancelled, status_queued, status_processing}
use morf.Queue.{cancel_job}
use morf.Queue.Scripts.{cancel_job_script, text_of, field, both}
use morf.Queue.Keys.{job_key, status_key, job_queue_key}
use morf.Queue.Updates.{IsIndexed, with_member-sets}

abbrev pub is_error : {A : Type 0} → Reply A → Bool
is_error (ok a) = false
is_error (err e) = true

module _ (r : Redis) (c : Codec) (id stamp : String) where
  abbrev recorded_status : r.Store → String
  recorded_status s = text_of ((r.view s).hashes (job_key id) "status")

  abbrev pub can_cancel : r.Store → Bool
  can_cancel s =
      (r.view s).hash_exists (job_key id)
      && (str_eq (recorded_status s) status_queued || str_eq (recorded_status s) status_processing)

  -- A job that is missing, or in a final state, is left alone and the caller gets an error, whatever
  -- becomes of the round trip.
  pub cancel_job-spares :
      (w : World r.Store)
      → can_cancel w.store ≡ false
      → ((cancel_job r c id stamp w).1.store ≡ w.store)
        × (is_error (cancel_job r c id stamp w).0 ≡ true)
  unfolding cancel_job cancel_job_script
  cancel_job-spares w h = ground arith

  abbrev pub cancelled_fields : MapValues
  cancelled_fields =
      both (field "status" status_cancelled)
        (both (field "failed_at" stamp) (field "error" "Job cancelled by user"))

  moved : Contents → Contents
  moved v =
      let fields = with_fields v (job_key id) cancelled_fields in
      let gone =
        with_member (with_member fields (status_key status_queued) id false)
          (status_key status_processing) id false in
      with_member gone (status_key status_cancelled) id true

  -- the queue is left by a job that was waiting in it
  abbrev pub left_queue : Contents → Contents → Contents
  left_queue old v =
      if str_eq (text_of (old.hashes (job_key id) "status")) status_queued
      then with_list v job_queue_key (remove_first id (v.lists job_queue_key))
      else v

  view-cancel_job_script :
      (s : r.Store)
      → can_cancel s ≡ true
      → r.view (cancel_job_script r c id stamp s).1 ≡ left_queue (r.view s) (moved (r.view s))
  unfolding cancel_job_script moved
  view-cancel_job_script s h =
      let exists : (r.view s).hash_exists (job_key id) ≡ true = ground arith in
      elim (Bool-cases (str_eq (recorded_status s) status_queued)) [
        | inl e ↦ rw (exists, e) (simp (r.view-lrem_one, r.view-sadd, r.view-srem, r.view-hset))
        | inr e ↦
            let busy : str_eq (recorded_status s) status_processing ≡ true = ground arith in
            rw (exists, e, busy) (simp (r.view-sadd, r.view-srem, r.view-hset))
      ]

  cancel_job-delivered :
      (s : r.Store)
      → can_cancel s ≡ true
      → cancel_job r c id stamp (record { store = s; faults = [] })
        ≡ (ok tt, record { store = (cancel_job_script r c id stamp s).1; faults = [] })
  unfolding cancel_job cancel_job_script
  cancel_job-delivered s h = ground arith

  moved-index :
      (v : Contents) (x : String)
      → (moved v).sets (status_key x) id ≡ (
          if str_eq status_cancelled x
          then true
          else if str_eq status_processing x
          then false
          else if str_eq status_queued x
          then false
          else v.sets (status_key x) id)
  unfolding moved
  moved-index v x =
      let fields = with_fields v (job_key id) cancelled_fields in
      let away = with_member fields (status_key status_queued) id false in
      let gone = with_member away (status_key status_processing) id false in
      with_member-sets gone status_cancelled x id true
      ∙ ap (λ b. if str_eq status_cancelled x then true else b)
          (with_member-sets away status_processing x id false
            ∙ ap (λ b. if str_eq status_processing x then false else b)
                (with_member-sets fields status_queued x id false))

  left_queue-rest :
      (old v : Contents)
      → ((left_queue old v).sets ≡ v.sets) × ((left_queue old v).hashes ≡ v.hashes)
  left_queue-rest old v =
      elim (Bool-cases (str_eq (text_of (old.hashes (job_key id) "status")) status_queued)) [
        | inl e ↦ rw e (refl, refl)
        | inr e ↦ rw e (refl, refl)
      ]

  left_queue-list :
      (v : Contents)
      → (left_queue v (moved v)).lists job_queue_key ≡ (
          if str_eq (text_of (v.hashes (job_key id) "status")) status_queued
          then remove_first id (v.lists job_queue_key)
          else v.lists job_queue_key)
  unfolding moved
  left_queue-list v =
      elim (Bool-cases (str_eq (text_of (v.hashes (job_key id) "status")) status_queued)) [
        | inl e ↦ rw e refl
        | inr e ↦ rw e refl
      ]

  moved-status : (v : Contents) → (moved v).hashes (job_key id) "status" ≡ some status_cancelled
  unfolding moved
  moved-status v = rw (eq_refl (job_key id)) refl

  cancelled-index :
      (old x : String) (member : Bool)
      → str_eq old status_queued || str_eq old status_processing ≡ true
      → member ≡ str_eq old x
      → (if str_eq status_cancelled x
          then true
          else if str_eq status_processing x
          then false
          else if str_eq status_queued x
          then false
          else member)
        ≡ str_eq status_cancelled x
  cancelled-index old x member h e = elim (Bool-cases (str_eq old status_queued)) [
    | inl q ↦ rw (e, (eq_iff old status_queued).0 q) (ground arith)
    | inr q ↦
        let p : str_eq old status_processing ≡ true = ground arith in
        rw (e, (eq_iff old status_processing).0 p) (ground arith)
  ]

  -- A job that waits or runs is cancelled, over a connection that works: the status sets follow its
  -- status, and a waiting job leaves the queue.
  pub cancel_job-IsIndexed :
      (s : r.Store)
      → can_cancel s ≡ true
      → IsIndexed (r.view s) id
      → (t : r.Store) × (cancel_job r c id stamp (record { store = s; faults = [] })
          ≡ (ok tt, record { store = t; faults = [] }))
        × (recorded_status t ≡ status_cancelled)
        × IsIndexed (r.view t) id
        × ((r.view t).lists job_queue_key ≡ (
            let waiting = (r.view s).lists job_queue_key in
            if str_eq (recorded_status s) status_queued then remove_first id waiting else waiting))
  cancel_job-IsIndexed s h indexed =
      let t = (cancel_job_script r c id stamp s).1 in
      let seen = view-cancel_job_script s h in
      let (sets, hashes) = left_queue-rest (r.view s) (moved (r.view s)) in
      let status : recorded_status t ≡ status_cancelled =
        ap (λ v. text_of (v.hashes (job_key id) "status")) seen
        ∙ ap (λ g. text_of (g (job_key id) "status")) hashes
        ∙ ap text_of (moved-status (r.view s)) in
      (
        t,
        cancel_job-delivered s h,
        status,
        λ x.
            ap (λ v. v.sets (status_key x) id) seen
            ∙ ap (λ g. g (status_key x) id) sets
            ∙ moved-index (r.view s) x
            ∙ cancelled-index (recorded_status s) x _ (ground arith) (indexed x)
            ∙ sym (ap (λ o. str_eq o x) status),
        ap (λ v. v.lists job_queue_key) seen ∙ left_queue-list (r.view s),
      )
