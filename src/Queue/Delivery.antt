-- ===== src/Queue/Delivery.antt =====
-- Where a job id stands in morf/queue/queue.go: in the main queue or in a worker's processing list.
-- `PopJobReliable`, `AckJob` and `RequeueProcessing` move it.
use morf.Prelude.{
  ℕ, suc, ◌+◌, ◌≤◌, ◌≡◌, refl, ap, sym, drop, ◌∙◌, true, false, String, List, [], ◌∷◌, ◌++◌, arith,
  str_eq, eq_iff, eq_refl, if◌then◌else◌, Bool-cases, inl, inr,
}
use morf.Redis.{
  Contents, with_list, move_head, remove_first, has, Redis, World, ok, err, redis_failed, Fault,
  delivered, refused,
}
use morf.Job.{Codec}
use morf.Queue.{pop_job_reliable, requeue_processing}
use morf.Queue.Keys.{
  job_queue_key, processing_key, processing_key-ne-job_queue_key, job_queue_key-ne-processing_key,
}

abbrev pub copies : String → List String → ℕ
copies v [] = 0
copies v (x ∷ xs) = if str_eq x v then suc (copies v xs) else copies v xs

pub copies-append :
    (v : String) (xs ys : List String) → copies v (xs ++ ys) ≡ copies v xs + copies v ys
copies-append v [] ys = omega arith
copies-append v (x ∷ xs) ys = ground (arith, copies-append v xs ys)

pub remove_first_absent : (v : String) (l : List String) → has v l ≡ false → remove_first v l ≡ l
remove_first_absent v [] h = refl
remove_first_absent v (x ∷ xs) h = ground (arith, remove_first_absent v xs)

pub copies-remove_first :
    (u v : String) (l : List String)
    → has v l ≡ true
    → copies u (remove_first v l) + copies u (v ∷ []) ≡ copies u l
copies-remove_first u v [] h = cc
copies-remove_first u v (x ∷ xs) h =
    ground (arith, eq_iff x v, eq_iff x u, eq_iff v u, copies-remove_first u v xs)

-- the copies of an id in the main queue and in one worker's processing list
abbrev pub places : String → String → Contents → ℕ
places worker_id id v =
    copies id (v.lists job_queue_key) + copies id (v.lists (processing_key worker_id))

module _ (worker_id : String) where
  keys :
      (str_eq (processing_key worker_id) job_queue_key ≡ false)
      × (str_eq job_queue_key (processing_key worker_id) ≡ false)
      × (str_eq (processing_key worker_id) (processing_key worker_id) ≡ true)
  keys = (
    processing_key-ne-job_queue_key worker_id,
    job_queue_key-ne-processing_key worker_id,
    eq_refl _,
  )

  places-move_head :
      (id : String) (v : Contents) (l : List String)
      → v.lists job_queue_key ≡ l
      → places worker_id id (move_head v job_queue_key (processing_key worker_id) l)
        ≡ places worker_id id v
  places-move_head id v [] e = refl
  places-move_head id v (x ∷ l) e =
      ground (arith, keys, copies-append id (v.lists (processing_key worker_id)) (x ∷ []))

  move_head_lists :
      (v : Contents) (x : String) (l : List String)
      → let w = move_head v job_queue_key (processing_key worker_id) (x ∷ l) in
        (w.lists job_queue_key ≡ l)
        × (w.lists (processing_key worker_id) ≡ v.lists (processing_key worker_id) ++ x ∷ [])
  move_head_lists v x l = ground (arith, keys)

  places-push :
      (id u : String) (v : Contents)
      → places worker_id u (with_list v job_queue_key (v.lists job_queue_key ++ id ∷ []))
        ≡ places worker_id u v + copies u (id ∷ [])
  places-push id u v = ground (arith, keys, copies-append u (v.lists job_queue_key) (id ∷ []))

  places-remove :
      (id u : String) (v : Contents)
      → has id (v.lists (processing_key worker_id)) ≡ true
      → places worker_id u (
            with_list v
              (processing_key worker_id)
              (remove_first id (v.lists (processing_key worker_id))))
          + copies u (id ∷ [])
        ≡ places worker_id u v
  places-remove id u v h =
      ground (arith, keys, copies-remove_first u id (v.lists (processing_key worker_id)))

  places-remove_absent :
      (id u : String) (v : Contents)
      → has id (v.lists (processing_key worker_id)) ≡ false
      → places worker_id u (
          with_list v
            (processing_key worker_id)
            (remove_first id (v.lists (processing_key worker_id))))
        ≡ places worker_id u v
  places-remove_absent id u v h =
      ground (arith, keys, remove_first_absent id (v.lists (processing_key worker_id)))

  module _ (r : Redis) (c : Codec) where
    abbrev at : String → r.Store → ℕ
    at id s = places worker_id id (r.view s)

    at-blmove :
        (id : String) (s : r.Store)
        → at id (r.blmove job_queue_key (processing_key worker_id) s) ≡ at id s
    at-blmove id s =
        ap (places worker_id id) (r.view-blmove _ _ s) ∙ places-move_head id (r.view s) _ refl

    at-rpush :
        (id u : String) (s : r.Store)
        → at u (r.rpush job_queue_key id s) ≡ at u s + copies u (id ∷ [])
    at-rpush id u s = ap (places worker_id u) (r.view-rpush _ _ s) ∙ places-push id u (r.view s)

    at-lrem_one :
        (id u : String) (s : r.Store)
        → has id ((r.view s).lists (processing_key worker_id)) ≡ true
        → at u (r.lrem_one (processing_key worker_id) id s) + copies u (id ∷ []) ≡ at u s
    at-lrem_one id u s h =
        ap (λ v. places worker_id u v + copies u (id ∷ [])) (r.view-lrem_one _ _ s)
        ∙ places-remove id u (r.view s) h

    at-lrem_absent :
        (id u : String) (s : r.Store)
        → has id ((r.view s).lists (processing_key worker_id)) ≡ false
        → at u (r.lrem_one (processing_key worker_id) id s) ≡ at u s
    at-lrem_absent id u s h =
        ap (places worker_id u) (r.view-lrem_one _ _ s) ∙ places-remove_absent id u (r.view s) h

    -- Taking a job, whatever becomes of the round trip, changes nothing but its place: every id
    -- stands as often in the main queue and the worker's processing list together as before.
    pub places-pop_job_reliable :
        (id : String) (w : World r.Store)
        → places worker_id id (r.view (pop_job_reliable r c worker_id w).1.store)
          ≡ places worker_id id (r.view w.store)
    unfolding pop_job_reliable
    places-pop_job_reliable id w = ground (arith, at-blmove id w.store)

    head_moved :
        (s : r.Store) (id : String) (rest : List String)
        → (r.view s).lists job_queue_key ≡ id ∷ rest
        → let v = r.view (r.blmove job_queue_key (processing_key worker_id) s) in
          (v.lists job_queue_key ≡ rest)
          × (v.lists (processing_key worker_id)
              ≡ (r.view s).lists (processing_key worker_id) ++ id ∷ [])
    head_moved s id rest e = rw (r.view-blmove, e) (move_head_lists (r.view s) id rest)

    popped :
        (id : String) (w : World r.Store)
        → (pop_job_reliable r c worker_id w).0 ≡ ok id
        → ((r.view w.store).lists job_queue_key
            ≡ id ∷ drop 1 ((r.view w.store).lists job_queue_key))
          × ((pop_job_reliable r c worker_id w).1.store
              ≡ r.blmove job_queue_key (processing_key worker_id) w.store)
    unfolding pop_job_reliable
    popped id w h = ground arith

    -- A worker that is handed a job got the oldest of the main queue, and holds it in its processing
    -- list behind the jobs that it held before.
    pub pop_job_reliable-oldest :
        (id : String) (w : World r.Store)
        → (pop_job_reliable r c worker_id w).0 ≡ ok id
        → let v = r.view w.store in
          let v' = r.view (pop_job_reliable r c worker_id w).1.store in
          (v.lists job_queue_key ≡ id ∷ v'.lists job_queue_key)
          × (v'.lists (processing_key worker_id) ≡ v.lists (processing_key worker_id) ++ id ∷ [])
    pop_job_reliable-oldest id w h =
        let (shape, stored) = popped id w h in
        let (rest, held) = head_moved w.store id _ shape in
        rw stored (shape ∙ ap (◌∷◌ id) (sym rest), held)

    -- Requeueing a job over a connection that works succeeds. The worker's list loses its first copy of
    -- the job; the main queue gets the job at its tail if the worker's list had it, and is as it was
    -- otherwise. In both lists together every id stands as often as before.
    pub requeue_processing-moves :
        (id : String) (s : r.Store)
        → let v = r.view s in
          let held = v.lists (processing_key worker_id) in
          (t : r.Store) × (requeue_processing r c worker_id id (record { store = s; faults = [] })
            ≡ (ok tt, record { store = t; faults = [] }))
          × ((r.view t).lists (processing_key worker_id) ≡ remove_first id held)
          × ((r.view t).lists job_queue_key
              ≡ (if has id held then v.lists job_queue_key ++ id ∷ [] else v.lists job_queue_key))
          × ((u : String) → places worker_id u (r.view t) ≡ places worker_id u v)
    unfolding requeue_processing
    requeue_processing-moves id s =
        let held = (r.view s).lists (processing_key worker_id) in
        let removed = r.lrem_one (processing_key worker_id) id s in
        elim (Bool-cases (has id held)) [
          | inl e ↦ (
            r.rpush job_queue_key id removed,
            rw e refl,
            rw (r.view-rpush, r.view-lrem_one, keys.1, keys.2) refl,
            rw (e, r.view-rpush, r.view-lrem_one, keys.0) refl,
            λ u. at-rpush id u removed ∙ at-lrem_one id u s e,
          )
          | inr e ↦ (
            removed,
            rw e refl,
            rw (r.view-lrem_one, keys.2) refl,
            rw (e, r.view-lrem_one, keys.0) refl,
            λ u. at-lrem_absent id u s e,
          )
        ]

    -- Whatever becomes of its two round trips, requeueing never doubles an id.
    pub requeue_processing-never_doubles :
        (id u : String) (w : World r.Store)
        → places worker_id u (r.view (requeue_processing r c worker_id id w).1.store)
          ≤ places worker_id u (r.view w.store)
    unfolding requeue_processing
    requeue_processing-never_doubles id u w = ground (
      arith,
      at-lrem_one id u w.store,
      at-lrem_absent id u w.store,
      at-rpush id u (r.lrem_one (processing_key worker_id) id w.store),
    )

    -- If the connection fails between the removal and the push, the job is gone from the worker's
    -- list and did not reach the main queue.
    pub requeue_processing-loses :
        (id : String) (s : r.Store) (fs : List Fault)
        → has id ((r.view s).lists (processing_key worker_id)) ≡ true
        → let (reply, after) =
            requeue_processing r c worker_id id
              (record { store = s; faults = delivered ∷ refused ∷ fs }) in
          (reply ≡ err redis_failed)
          × (places worker_id id (r.view after.store) + 1 ≡ places worker_id id (r.view s))
    unfolding requeue_processing
    requeue_processing-loses id s fs h = ground (arith, at-lrem_one id id s, eq_refl id)
