-- ===== src/Queue/Reaper/Sweep.antt =====
-- What one sweep of morf/queue/reaper.go does to the jobs of a worker.
use mathlib.Core.List.{append-nil, append_assoc}
use Prim.Native.String.{len}
use text.Mathlib.TextPositions.{starts_with-append, slice-append_right, len-append}
use morf.Prelude.{
  ℕ, ◌≤◌, ◌<◌, ◌≡◌, refl, ap, sym, ◌∙◌, false, String, none, some, List, [], ◌∷◌, ◌++◌, arith,
  str_eq, eq_refl,
}
use morf.Prelude.Text.{str_eq_of_ne}
use morf.Redis.{Redis, World, ok, Fault, delivered, refused}
use morf.Job.{Codec}
use morf.Queue.{requeue_processing, try_write}
use morf.Queue.Keys.{
  job_queue_key, processing_key, worker_key, worker_key-ne-job_queue_key,
  worker_key-ne-processing_key, processing_key-ne-job_queue_key, job_queue_key-ne-processing_key,
}
use morf.Queue.Reaper.{requeue_all, reap_worker, trim_prefix, worker_key_prefix}

trim_prefix-worker_key : (w : String) → trim_prefix (worker_key w) worker_key_prefix ≡ w
unfolding trim_prefix worker_key
trim_prefix-worker_key w =
    rw (starts_with-append, len-append) (slice-append_right worker_key_prefix w)

worker_key-ne : (w : String) → str_eq w (worker_key w) ≡ false
unfolding worker_key
worker_key-ne w =
    str_eq_of_ne w (worker_key w)
      λ e. absurd (omega (arith, ap len e ∙ len-append worker_key_prefix w))

module _ (r : Redis) (c : Codec) (worker_id : String) where
  abbrev queue_of : r.Store → List String
  queue_of s = (r.view s).lists job_queue_key

  abbrev held_by : r.Store → List String
  held_by s = (r.view s).lists (processing_key worker_id)

  -- the server after the head of the processing list was requeued
  abbrev moved : String → r.Store → r.Store
  moved id s = r.rpush job_queue_key id (r.lrem_one (processing_key worker_id) id s)

  moved_lists :
      (id : String) (rest : List String) (s : r.Store)
      → held_by s ≡ id ∷ rest
      → (queue_of (moved id s) ≡ queue_of s ++ id ∷ []) × (held_by (moved id s) ≡ rest)
  moved_lists id rest s e = ground (
    arith,
    r.view-rpush job_queue_key id (r.lrem_one (processing_key worker_id) id s),
    r.view-lrem_one (processing_key worker_id) id s,
    processing_key-ne-job_queue_key worker_id,
    job_queue_key-ne-processing_key worker_id,
    eq_refl (processing_key worker_id),
    eq_refl id,
  )

  requeue_head :
      (id : String) (rest : List String) (s : r.Store)
      → held_by s ≡ id ∷ rest
      → requeue_processing r c worker_id id (record { store = s; faults = [] })
        ≡ (ok tt, record { store = moved id s; faults = [] })
  unfolding requeue_processing
  requeue_head id rest s e = ground (arith, eq_refl id)

  requeue_all-moves :
      (ids : List String) (s : r.Store)
      → held_by s ≡ ids
      → (t : r.Store) × (requeue_all r c worker_id ids (record { store = s; faults = [] })
          ≡ (ok tt, record { store = t; faults = [] }))
        × (queue_of t ≡ queue_of s ++ ids)
        × (held_by t ≡ [])
  unfolding requeue_all
  requeue_all-moves [] s e = (s, refl, sym (append-nil (queue_of s)), e)
  requeue_all-moves (id ∷ ids) s e =
      let (queued, rest) = moved_lists id ids s e in
      let (t, ran, all_queued, none_held) = requeue_all-moves ids (moved id s) rest in
      (
        t,
        rw (requeue_all, requeue_head id ids s e) ran,
        all_queued ∙ ap (λ l. l ++ ids) queued ∙ append_assoc (queue_of s) (id ∷ []) ids,
        none_held,
      )

  -- the registration is gone, and the lists are as they were
  unregistered :
      (s : r.Store)
      → let v = r.view (r.del (worker_key worker_id) s) in
        (v.lists job_queue_key ≡ queue_of s)
        × (v.lists (processing_key worker_id) ≡ held_by s)
        × (v.hashes (worker_key worker_id) "last_heartbeat" ≡ none)
  unregistered s = ground (
    arith,
    r.view-del (worker_key worker_id) s,
    worker_key-ne-job_queue_key worker_id,
    worker_key-ne-processing_key worker_id worker_id,
    eq_refl (worker_key worker_id),
  )

  module _ (since : c.Time → ℕ) (stale_after : ℕ) (s : r.Store) (hb : String) (last : c.Time)
      (named : str_eq worker_id "" ≡ false)
      (registered : (r.view s).hashes (worker_key worker_id) "last_heartbeat" ≡ some hb)
      (parsed : c.parse hb ≡ some last) where
    abbrev sweep : List Fault → World r.Store
    sweep fs =
        (reap_worker r c since stale_after (worker_key worker_id)
          (record { store = s; faults = fs })).1

    -- A worker whose heartbeat is younger than the limit loses nothing, whatever becomes of the
    -- commands.
    pub reap_worker-spares : (fs : List Fault) → since last < stale_after → (sweep fs).store ≡ s
    unfolding reap_worker
    reap_worker-spares fs young =
        ground (arith, trim_prefix-worker_key worker_id, worker_key-ne worker_id)

    -- The sweep of a stale worker over a connection that works appends its jobs to the main queue in
    -- their order, empties its list and deletes its registration.
    pub reap_worker-recovers :
        stale_after ≤ since last
        → (queue_of (sweep []).store ≡ queue_of s ++ held_by s)
          × (held_by (sweep []).store ≡ [])
          × ((r.view (sweep []).store).hashes (worker_key worker_id) "last_heartbeat" ≡ none)
    unfolding reap_worker try_write
    reap_worker-recovers stale =
        let (t, ran, all_queued, none_held) = requeue_all-moves (held_by s) s refl in
        ground (
          arith,
          trim_prefix-worker_key worker_id,
          worker_key-ne worker_id,
          ran,
          all_queued,
          none_held,
          unregistered t,
        )

    stranded :
        (id : String)
        → stale_after ≤ since last
        → held_by s ≡ id ∷ []
        → sweep (delivered ∷ delivered ∷ refused ∷ [])
          ≡ record { store = r.del (worker_key worker_id) s; faults = [] }
    unfolding reap_worker requeue_all requeue_processing try_write
    stranded id stale held =
        ground (arith, trim_prefix-worker_key worker_id, worker_key-ne worker_id)

    unseen :
        (t : r.Store)
        → (r.view t).hashes (worker_key worker_id) "last_heartbeat" ≡ none
        → reap_worker r c since stale_after
            (worker_key worker_id)
            (record { store = t; faults = [] })
          ≡ (ok tt, record { store = t; faults = [] })
    unfolding reap_worker
    unseen t gone = ground (arith, trim_prefix-worker_key worker_id, worker_key-ne worker_id)

    -- If the removal of a stale worker's only job is refused, the sweep still deletes the
    -- registration: the job stays in the worker's list, and the next sweep over a connection that
    -- works does nothing for this worker.
    pub reap_worker-strands :
        (id : String)
        → stale_after ≤ since last
        → held_by s ≡ id ∷ []
        → let after = sweep (delivered ∷ delivered ∷ refused ∷ []) in
          (held_by after.store ≡ id ∷ [])
          × (queue_of after.store ≡ queue_of s)
          × (reap_worker r c since stale_after (worker_key worker_id) after ≡ (ok tt, after))
    reap_worker-strands id stale held =
        let (queued, kept, gone) = unregistered s in
        rw (stranded id stale held) (kept ∙ held, queued, unseen _ gone)
