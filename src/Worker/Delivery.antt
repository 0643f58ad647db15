-- ===== src/Worker/Delivery.antt =====
-- A whole delivery by `processJob` of morf/worker/worker.go, from the stored job to its verdict.
use mathlib.Core.Path.{subst}
use morf.Prelude.{
  ℕ, ◌≡◌, refl, ap, sym, ◌∙◌, true, false, String, [], ◌∷◌, some, arith, eq_refl, str_eq,
}
use morf.Redis.{Redis, World, Reply, ok, Contents, with_list, without_key, remove_first, update}
use morf.Job.{Codec, ScanJob, from_hash}
use morf.Queue.{get_job, ack_job, is_terminal_status, set_job_lease, check_job_lease}
use morf.Queue.Scripts.{text_of}
use morf.Queue.Keys.{job_key, processing_key, job_lease_key, status_key}
use morf.Queue.Updates.{
  IsIndexed, updated, updated-status, updated-lists, updated-IsIndexed, update_job-delivered,
}
use morf.Worker.{
  ScanResult, scanned, deleted_artifact, recorded_scan, notify, process_job, process_body, loaded,
  start_persisted, run_scan, after_scan, started_job, completed_job,
}
use morf.Worker.Retry.{marshalled}
use morf.Worker.Verdict.{handle_job_success-completes, owns, owner_of}
use morf.Worker.Settled.{KeepsButPhase, IsCompleted, settled-IsCompleted}

module _ (r : Redis) (c : Codec) (max_retries : ℕ)
    (scan : ScanJob c → World r.Store → Reply (ScanResult r c max_retries) × World r.Store)
    (worker_id id : String) (now later : c.Time) (s : r.Store) (result : String) where
  abbrev calm : r.Store → World r.Store
  calm t = record { store = t; faults = [] }

  abbrev pub found : ScanJob c
  found = from_hash c ((r.view s).hashes (job_key id))

  abbrev pub started : ScanJob c
  started = started_job r c max_retries scan worker_id found now

  abbrev completed : ScanJob c
  completed = completed_job r c max_retries started later result

  abbrev leased : Contents → Contents
  leased v = record v { strings = update v.strings (job_lease_key id) (some worker_id) }

  -- Over a connection that works the scan succeeds, with the result, and sends no command but
  -- `SetJobPhase`.
  abbrev pub Succeeds : Type 0
  Succeeds =
      (t : r.Store)
      → (u : r.Store) × (scan started (calm t) ≡ (ok (scanned (marshalled result)), calm u))
        × KeepsButPhase (r.view t) (r.view u)

  module _ (named : found.id ≡ id) (succeeds : Succeeds) where
    scan-runs :
        (t : r.Store)
        → (m u : r.Store) × (run_scan r c max_retries scan worker_id id started later (calm t) ≡ (
          ok (
            true,
            recorded_scan "success" ∷ deleted_artifact ∷ notify r c max_retries found false,
          ),
          calm u,
        ))
          × KeepsButPhase (leased (r.view t)) (r.view m)
          × (r.view u ≡ without_key (updated c completed (r.view m)) (job_lease_key found.id))
    unfolding run_scan after_scan set_job_lease check_job_lease
    scan-runs t =
        let l = r.set (job_lease_key id) worker_id t in
        let seen = r.view-set (job_lease_key id) worker_id t in
        let held : (r.view l).strings (job_lease_key id) ≡ some worker_id =
          ap (λ v. v.strings (job_lease_key id)) seen ∙ rw (eq_refl (job_lease_key id)) refl in
        let (m, scans, keeps) = succeeds l in
        let owner : owner_of r c max_retries worker_id started now m ≡ worker_id =
          ap (λ k. text_of ((r.view m).strings (job_lease_key k))) named
          ∙ ap (λ g. text_of (g (job_lease_key id))) keeps.same_strings
          ∙ ap text_of held in
        let own : owns r c max_retries worker_id started now m ≡ true =
          rw (owner, eq_refl worker_id) (ground arith) in
        let (u, ran, view) =
          handle_job_success-completes r c max_retries worker_id started later m result own in
        (m, u, ground (arith, held, eq_refl worker_id, scans, ran), rw seen at keeps, view)

    -- A delivery over a connection that works, of a stored job that is in no final state, whose record
    -- carries its identifier and its status and that the status sets hold under that status, with a
    -- scan that succeeds and reports its phases: the job is stored as completed, at the end of the
    -- scan and with the scan's result, which is not empty; the status sets hold it as completed alone;
    -- its lease is gone, one copy of it has left the worker's list, and the queue is as it was. The
    -- effects are the metric, the deletion of the artifact and the webhook.
    pub process_job-completes :
        (r.view s).hash_exists (job_key id) ≡ true
        → is_terminal_status found.status ≡ false
        → IsIndexed (r.view s) id
        → str_eq (text_of ((r.view s).hashes (job_key id) "status")) "" ≡ false
        → str_eq result "" ≡ false
        → (u : r.Store) × (process_job r c max_retries scan worker_id id now later (calm s) ≡ (
          ok (recorded_scan "success" ∷ deleted_artifact ∷ notify r c max_retries found false),
          calm u,
        ))
          × IsCompleted c worker_id id later result (r.view s) (r.view u)
    unfolding process_job process_body loaded start_persisted get_job ack_job is_terminal_status
    process_job-completes stored running indexed known full =
        let v = r.view s in
        let (t, saved, saved_view) = update_job-delivered c started r s in
        let (m, u, ran, kept, view) = scan-runs t in
        let keeps : KeepsButPhase (leased (updated c started v)) (r.view m) =
          rw saved_view at kept in
        let status = keeps.same_fields (job_key found.id) "status" refl in
        let listed : IsIndexed (updated c started v) found.id =
          updated-IsIndexed c started v (subst (λ k. IsIndexed v k) (sym named) indexed)
            (ap (λ k. str_eq (text_of (v.hashes (job_key k) "status")) "") named ∙ known) in
        let still : IsIndexed (r.view m) found.id = λ x.
          ap (λ g. g (status_key x) found.id) keeps.same_sets
          ∙ listed x
          ∙ sym (ap (λ o. str_eq (text_of o) x) status) in
        let settles =
          settled-IsCompleted c worker_id completed (r.view m) v later still
            (ap (λ o. str_eq (text_of o) "") (status ∙ updated-status c started v)) refl refl full
            (keeps.same_lists ∙ updated-lists c started v) in
        let w = without_key (updated c completed (r.view m)) (job_lease_key found.id) in
        let held = processing_key worker_id in
        let after =
          r.view-lrem_one held id u
          ∙ ap (λ z. with_list z held (remove_first id (z.lists held))) view in
        (
          r.lrem_one held id u,
          ground (arith, stored, running, saved, ran),
          subst (λ z. IsCompleted c worker_id id later result v z) (sym after)
              (subst
                (λ k.
                  IsCompleted c worker_id k later result v
                    (with_list w held (remove_first k (w.lists held))))
                named settles),
        )
