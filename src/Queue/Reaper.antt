-- ===== src/Queue/Reaper.antt =====
-- morf/queue/reaper.go: the sweep that requeues the jobs of dead workers, and the trimming of the
-- terminal status sets in morf/queue/queue.go. What SCAN and SSCAN list is up to the server, so the
-- pages are arguments; `since` is time.Since at the moment of the sweep.
use Prim.Native.String.{len, slice}
use text.Mathlib.Text.{starts_with}
use morf.Prelude.{
  ℕ, ◌/◌, String, Bool, true, false, ◌||◌, Option, none, some, List, [], ◌∷◌, if◌then◌else◌, str_eq,
  ltb,
}
use morf.Redis.{Redis, Net, Reply, ok, err, pure, raise, trip, write, attempt, ◌>>=◌, ◌>>◌}
use morf.Job.{Codec, status_completed, status_failed, status_cancelled}
use morf.Queue.{requeue_processing, try_write}
use morf.Queue.Keys.{job_key, status_key, processing_key}
pub mod Sweep

abbrev pub worker_key_prefix : String
worker_key_prefix = "morf:workers:"

abbrev pub second : ℕ
second = 1_000_000_000

unfoldable pub reaper_interval : ℕ → ℕ
reaper_interval stale_after = if ltb (stale_after / 2) second then second else stale_after / 2

-- strings.TrimPrefix
unfoldable pub trim_prefix : String → String → String
trim_prefix s p = if starts_with s p then slice s (len p) (len s) else s

module _ (r : Redis) (c : Codec) where
  open r use {Store, view, srem, del}

  abbrev Act : Type 0 → Type 0
  Act A = Net Store A

  unfoldable pub requeue_all : String → List String → Act (Unit {0})
  requeue_all worker_id [] = pure tt
  requeue_all worker_id (id ∷ ids) = do
    attempt (requeue_processing r c worker_id id)
    requeue_all worker_id ids

  abbrev requeue_listed : String → String → Reply (List String) → Act (Unit {0})
  requeue_listed worker_key worker_id (err e) = pure tt
  requeue_listed worker_key worker_id (ok ids) = do
    requeue_all worker_id ids
    try_write r c (del worker_key)

  abbrev reap_parsed : (c.Time → ℕ) → ℕ → String → String → Option c.Time → Act (Unit {0})
  reap_parsed since stale_after worker_key worker_id none = pure tt
  reap_parsed since stale_after worker_key worker_id (some last) =
      if ltb (since last) stale_after
      then pure tt
      else (attempt (trip (λ s. ((view s).lists (processing_key worker_id), s)))
          >>= requeue_listed worker_key worker_id)

  abbrev reap_heartbeat :
      (c.Time → ℕ) → ℕ → String → String → Reply (Option String) → Act (Unit {0})
  reap_heartbeat since stale_after worker_key worker_id (ok (some hb)) =
      reap_parsed since stale_after worker_key worker_id (c.parse hb)
  reap_heartbeat since stale_after worker_key worker_id _ = pure tt

  unfoldable pub reap_worker : (c.Time → ℕ) → ℕ → String → Act (Unit {0})
  reap_worker since stale_after worker_key =
      let worker_id = trim_prefix worker_key worker_key_prefix in
      if str_eq worker_id worker_key || str_eq worker_id ""
      then pure tt
      else (attempt (trip (λ s. ((view s).hashes worker_key "last_heartbeat", s)))
          >>= reap_heartbeat since stale_after worker_key worker_id)

  unfoldable pub reap_keys : (c.Time → ℕ) → ℕ → List String → Act (Unit {0})
  reap_keys since stale_after [] = pure tt
  reap_keys since stale_after (k ∷ ks) = do
    reap_worker since stale_after k
    reap_keys since stale_after ks

  -- one page for each SCAN
  unfoldable pub reap_once : (c.Time → ℕ) → ℕ → List (List String) → Act (Unit {0})
  reap_once since stale_after [] = pure tt
  reap_once since stale_after (page ∷ pages) = do
    keys ← trip (λ s. (page, s))
    reap_keys since stale_after keys
    reap_once since stale_after pages

  abbrev trim_found : String → String → Reply Bool → Act (Unit {0})
  trim_found status id (ok false) = try_write r c (srem (status_key status) id)
  trim_found status id _ = pure tt

  unfoldable pub trim_members : String → List String → Act (Unit {0})
  trim_members status [] = pure tt
  trim_members status (id ∷ ids) = do
    found ← attempt (trip (λ s. ((view s).hash_exists (job_key id), s)))
    trim_found status id found
    trim_members status ids

  trim_statuses : (String → List String) → List String → Act (Unit {0})
  trim_statuses batch [] = pure tt
  trim_statuses batch (status ∷ rest) = do
    ids ← trip (λ s. (batch status, s))
    trim_members status ids
    trim_statuses batch rest

  unfoldable pub trim_terminal_status_sets : (String → List String) → Act (Unit {0})
  unfolding trim_statuses
  trim_terminal_status_sets batch =
      trim_statuses batch (status_completed ∷ status_failed ∷ status_cancelled ∷ [])
