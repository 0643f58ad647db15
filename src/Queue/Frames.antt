-- ===== src/Queue/Frames.antt =====
-- The methods of morf/queue/queue.go that move no job id: whatever becomes of their commands, a list
-- keeps what it holds.
use morf.Prelude.{arith, ◌≡◌, ap, String, ℕ, str_eq, Bool, true, false, List}
use morf.Redis.{MapValues, Redis}
use morf.Redis.Frame.{Keeps, Keeps-write, keeps_rules}
use morf.Job.{Codec, ScanJob}
use morf.Queue.{
  try_write, update_job, move_status, leave_non_terminal, get_job, check_job_lease, clear_job_lease,
  set_job_lease, found_job,
}
use morf.Queue.Keys.{job_lease_key}

module _ (r : Redis) (c : Codec) (key : String) where
  abbrev pub list_at : r.Store → List String
  list_at s = (r.view s).lists key

  try_write-Keeps :
      (g : r.Store → r.Store)
      → ((s : r.Store) → list_at (g s) ≡ list_at s)
      → Keeps list_at (try_write r c g)
  unfolding try_write
  try_write-Keeps g h = search (keeps_rules, Keeps-write g h)

  srem-keeps : (k v : String) (s : r.Store) → list_at (r.srem k v s) ≡ list_at s
  srem-keeps k v s = ap (λ x. x.lists key) (r.view-srem k v s)

  sadd-keeps : (k v : String) (s : r.Store) → list_at (r.sadd k v s) ≡ list_at s
  sadd-keeps k v s = ap (λ x. x.lists key) (r.view-sadd k v s)

  hset-keeps : (k : String) (m : MapValues) (s : r.Store) → list_at (r.hset k m s) ≡ list_at s
  hset-keeps k m s = ap (λ x. x.lists key) (r.view-hset k m s)

  expire-keeps : (k : String) (n : ℕ) (s : r.Store) → list_at (r.expire k n s) ≡ list_at s
  expire-keeps k n s = ap (λ x. x.lists key) (r.view-expire k n s)

  set-keeps : (k v : String) (s : r.Store) → list_at (r.set k v s) ≡ list_at s
  set-keeps k v s = ap (λ x. x.lists key) (r.view-set k v s)

  del-keeps : (k : String) → str_eq k key ≡ false → (s : r.Store) → list_at (r.del k s) ≡ list_at s
  del-keeps k ne s = ground (arith, r.view-del k s)

  ruleset commands =
      (keeps_rules, try_write-Keeps, srem-keeps, sadd-keeps, hset-keeps, expire-keeps, set-keeps)

  move_status-Keeps : (old : String) (job : ScanJob c) → Keeps list_at (move_status r c old job)
  unfolding move_status
  move_status-Keeps old job = search commands

  leave_non_terminal-Keeps : (job : ScanJob c) → Keeps list_at (leave_non_terminal r c job)
  unfolding leave_non_terminal
  leave_non_terminal-Keeps job = search commands

  pub update_job-Keeps : (job : ScanJob c) → Keeps list_at (update_job r c job)
  unfolding update_job
  update_job-Keeps job = search (commands, move_status-Keeps, leave_non_terminal-Keeps) depth 9

  found_job-Keeps : (found : Bool × MapValues) → Keeps list_at (found_job r c found)
  found_job-Keeps (true, m) = search commands
  found_job-Keeps (false, m) = search commands

  pub get_job-Keeps : (id : String) → Keeps list_at (get_job r c id)
  unfolding get_job
  get_job-Keeps id = search (commands, found_job-Keeps)

  pub check_job_lease-Keeps :
      (id worker_id : String) → Keeps list_at (check_job_lease r c id worker_id)
  unfolding check_job_lease
  check_job_lease-Keeps id worker_id = search commands

  pub set_job_lease-Keeps : (id worker_id : String) → Keeps list_at (set_job_lease r c id worker_id)
  unfolding set_job_lease
  set_job_lease-Keeps id worker_id = search commands

  pub clear_job_lease-Keeps :
      (id : String) → str_eq (job_lease_key id) key ≡ false → Keeps list_at (clear_job_lease r c id)
  unfolding clear_job_lease
  clear_job_lease-Keeps id ne = search (commands, del-keeps (job_lease_key id) ne)
