-- ===== src/Queue/Updates.antt =====
-- `UpdateJob` of morf/queue/queue.go over a connection that works: the hash, and the status sets.
use morf.Prelude.{
  ◌≡◌, refl, ap, sym, ◌∙◌, inl, inr, Bool, true, false, not, ◌&&◌, String, some, [], arith, str_eq,
  eq_iff, eq_refl, if◌then◌else◌, Bool-cases,
}
use morf.Prelude.Text.{str_eq-append}
use morf.Redis.{Contents, with_fields, with_member, overlay, Redis, World, Reply, ok}
use morf.Job.{Codec, ScanJob, to_hash, status_queued, status_processing}
use morf.Queue.{update_job, move_status, leave_non_terminal, try_write, is_terminal_status}
use morf.Queue.Scripts.{text_of, job_ttl}
use morf.Queue.Keys.{job_key, status_key}

abbrev pub moves : String → String → Bool
moves old new = not (str_eq old "") && not (str_eq old new)

module _ (c : Codec) (job : ScanJob c) where
  abbrev pub status_of : Contents → String
  status_of v = text_of (v.hashes (job_key job.id) "status")

  abbrev pub moved : String → Contents → Contents
  moved old v =
      if moves old job.status
      then with_member (with_member v (status_key old) job.id false) (status_key job.status) job.id
          true
      else v

  abbrev pub left : Contents → Contents
  left v =
      if is_terminal_status job.status
      then with_member (with_member v (status_key status_queued) job.id false)
          (status_key status_processing) job.id false
      else v

  -- what `UpdateJob` makes of the server's data
  abbrev pub updated : Contents → Contents
  updated v = left (moved (status_of v) (with_fields v (job_key job.id) (to_hash c job)))

  module _ (r : Redis) where
    abbrev calm : r.Store → World r.Store
    calm s = record { store = s; faults = [] }

    -- The server after `UpdateJob`.
    Reaches :
        (World r.Store → Reply (Unit {0}) × World r.Store)
        → r.Store
        → (Contents → Contents)
        → Type 0
    Reaches act s f = (t : r.Store) × (act (calm s) ≡ (ok tt, calm t)) × (r.view t ≡ f (r.view s))

    move_status-delivered :
        (old : String) (s : r.Store) → Reaches (move_status r c old job) s (moved old)
    unfolding Reaches move_status try_write
    move_status-delivered old s = elim (Bool-cases (moves old job.status)) [
      | inl e ↦ (
        r.sadd (status_key job.status) job.id (r.srem (status_key old) job.id s),
        rw e,
        rw e (simp (r.view-sadd, r.view-srem)),
      )
      | inr e ↦ (s, rw e, rw e)
    ]

    leave_non_terminal-delivered : (s : r.Store) → Reaches (leave_non_terminal r c job) s left
    unfolding Reaches leave_non_terminal try_write
    leave_non_terminal-delivered s = elim (Bool-cases (is_terminal_status job.status)) [
      | inl e ↦ (
        r.srem (status_key status_processing) job.id (r.srem (status_key status_queued) job.id s),
        rw e,
        rw e (simp (r.view-srem)),
      )
      | inr e ↦ (s, rw e, rw e)
    ]

    pub update_job-delivered :
        (s : r.Store)
        → (t : r.Store) × (update_job r c job (calm s) ≡ (ok tt, calm t))
          × (r.view t ≡ updated (r.view s))
    unfolding Reaches update_job try_write
    update_job-delivered s =
        let s₁ = r.expire (job_key job.id) job_ttl (r.hset (job_key job.id) (to_hash c job) s) in
        let (s₂, ran₂, view₂) = move_status-delivered (status_of (r.view s)) s₁ in
        let (s₃, ran₃, view₃) = leave_non_terminal-delivered s₂ in
        (
          s₃,
          rw (ran₂) ran₃,
          view₃
              ∙ ap left (
                  view₂
                  ∙ ap (moved (status_of (r.view s))) (
                      r.view-expire (job_key job.id) job_ttl
                        (r.hset (job_key job.id) (to_hash c job) s)
                      ∙ r.view-hset (job_key job.id) (to_hash c job) s)),
        )

-- The status sets hold the job under the status of its hash, and under no other.
abbrev pub IsIndexed : Contents → String → Type 0
IsIndexed v id =
    (x : String) → v.sets (status_key x) id ≡ str_eq (text_of (v.hashes (job_key id) "status")) x

abbrev after_move : String → String → Bool → String → Bool
after_move old new member x =
    if moves old new
    then (if str_eq new x then true else if str_eq old x then false else member)
    else member

abbrev after_leave : String → Bool → String → Bool
after_leave new member x =
    if is_terminal_status new
    then (if str_eq status_processing x
        then false
        else if str_eq status_queued x
        then false
        else member)
    else member

terminal-str_eq-processing :
    (s : String) → is_terminal_status s ≡ true → str_eq s status_processing ≡ false
unfolding is_terminal_status
terminal-str_eq-processing s h = elim (Bool-cases (str_eq s status_processing)) [
  | inl e ↦ cc (ap is_terminal_status ((eq_iff s status_processing).0 e), h)
  | inr e ↦ e
]

terminal-str_eq-queued : (s : String) → is_terminal_status s ≡ true → str_eq s status_queued ≡ false
unfolding is_terminal_status
terminal-str_eq-queued s h = elim (Bool-cases (str_eq s status_queued)) [
  | inl e ↦ cc (ap is_terminal_status ((eq_iff s status_queued).0 e), h)
  | inr e ↦ e
]

after_move-index :
    (old new x : String) (member : Bool)
    → str_eq old "" ≡ false
    → member ≡ str_eq old x
    → after_move old new member x ≡ str_eq new x
after_move-index old new x member h e = elim (Bool-cases (str_eq old new)) [
  | inl same ↦ rw (h, same) (e ∙ ap (λ y. str_eq y x) ((eq_iff old new).0 same))
  | inr differ ↦ ground (arith)
]

after_leave-index :
    (new x : String) (member : Bool)
    → member ≡ str_eq new x
    → after_leave new member x ≡ str_eq new x
after_leave-index new x member e = elim (Bool-cases (is_terminal_status new)) [
  | inl d ↦ elim (Bool-cases (str_eq status_processing x)) [
    | inl p ↦
        rw (d, p)
          (sym (terminal-str_eq-processing new d)
            ∙ ap (str_eq new) ((eq_iff status_processing x).0 p))
    | inr p ↦ elim (Bool-cases (str_eq status_queued x)) [
      | inl q ↦
          rw (d, p, q)
            (sym (terminal-str_eq-queued new d) ∙ ap (str_eq new) ((eq_iff status_queued x).0 q))
      | inr q ↦ rw (d, p, q) e
    ]
  ]
  | inr d ↦ rw d e
]

pub with_member-sets :
    (v : Contents) (y x id : String) (b : Bool)
    → (with_member v (status_key y) id b).sets (status_key x) id
      ≡ (if str_eq y x then b else v.sets (status_key x) id)
unfolding status_key
with_member-sets v y x id b = elim (Bool-cases (str_eq y x)) [
  | inl e ↦ rw (str_eq-append "morf:jobs:status:" y x, e, eq_refl id) refl
  | inr e ↦ rw (str_eq-append "morf:jobs:status:" y x, e) refl
]

module _ (c : Codec) (job : ScanJob c) where
  moved-sets :
      (old x : String) (v : Contents)
      → (moved c job old v).sets (status_key x) job.id
        ≡ after_move old job.status (v.sets (status_key x) job.id) x
  moved-sets old x v = elim (Bool-cases (moves old job.status)) [
    | inl e ↦ rw e (
        with_member-sets (with_member v (status_key old) job.id false) job.status x job.id true
        ∙ ap (λ b. if str_eq job.status x then true else b) (with_member-sets v old x job.id false))
    | inr e ↦ rw e refl
  ]

  left-sets :
      (x : String) (v : Contents)
      → (left c job v).sets (status_key x) job.id
        ≡ after_leave job.status (v.sets (status_key x) job.id) x
  left-sets x v = elim (Bool-cases (is_terminal_status job.status)) [
    | inl e ↦ rw e (
        with_member-sets (with_member v (status_key status_queued) job.id false) status_processing x
          job.id false
        ∙ ap (λ b. if str_eq status_processing x then false else b)
            (with_member-sets v status_queued x job.id false))
    | inr e ↦ rw e refl
  ]

  moved-hashes : (old : String) (v : Contents) → (moved c job old v).hashes ≡ v.hashes
  moved-hashes old v = elim (Bool-cases (moves old job.status)) [
    | inl e ↦ rw e refl
    | inr e ↦ rw e refl
  ]

  left-hashes : (v : Contents) → (left c job v).hashes ≡ v.hashes
  left-hashes v = elim (Bool-cases (is_terminal_status job.status)) [
    | inl e ↦ rw e refl
    | inr e ↦ rw e refl
  ]

  moved-lists : (old : String) (v : Contents) → (moved c job old v).lists ≡ v.lists
  moved-lists old v = elim (Bool-cases (moves old job.status)) [
    | inl e ↦ rw e refl
    | inr e ↦ rw e refl
  ]

  left-lists : (v : Contents) → (left c job v).lists ≡ v.lists
  left-lists v = elim (Bool-cases (is_terminal_status job.status)) [
    | inl e ↦ rw e refl
    | inr e ↦ rw e refl
  ]

  moved-strings : (old : String) (v : Contents) → (moved c job old v).strings ≡ v.strings
  moved-strings old v = elim (Bool-cases (moves old job.status)) [
    | inl e ↦ rw e refl
    | inr e ↦ rw e refl
  ]

  left-strings : (v : Contents) → (left c job v).strings ≡ v.strings
  left-strings v = elim (Bool-cases (is_terminal_status job.status)) [
    | inl e ↦ rw e refl
    | inr e ↦ rw e refl
  ]

  pub updated-hash :
      (v : Contents)
      → (updated c job v).hashes (job_key job.id)
        ≡ overlay (to_hash c job) (v.hashes (job_key job.id))
  updated-hash v =
      ap (λ h. h (job_key job.id))
        (left-hashes
            (moved c job (status_of c job v) (with_fields v (job_key job.id) (to_hash c job)))
          ∙ moved-hashes (status_of c job v) (with_fields v (job_key job.id) (to_hash c job)))
      ∙ rw (eq_refl (job_key job.id)) refl

  pub updated-status :
      (v : Contents) → (updated c job v).hashes (job_key job.id) "status" ≡ some job.status
  unfolding to_hash
  updated-status v = ap (λ g. g "status") (updated-hash v)

  updated-sets :
      (v : Contents) (x : String)
      → (updated c job v).sets (status_key x) job.id
        ≡ after_leave job.status
            (after_move (status_of c job v) job.status (v.sets (status_key x) job.id) x)
            x
  updated-sets v x =
      let w = with_fields v (job_key job.id) (to_hash c job) in
      left-sets x (moved c job (status_of c job v) w)
      ∙ ap (λ b. after_leave job.status b x) (moved-sets (status_of c job v) x w)

  pub updated-lists : (v : Contents) → (updated c job v).lists ≡ v.lists
  updated-lists v =
      let w = with_fields v (job_key job.id) (to_hash c job) in
      left-lists (moved c job (status_of c job v) w) ∙ moved-lists (status_of c job v) w

  pub updated-strings : (v : Contents) → (updated c job v).strings ≡ v.strings
  updated-strings v =
      let w = with_fields v (job_key job.id) (to_hash c job) in
      left-strings (moved c job (status_of c job v) w) ∙ moved-strings (status_of c job v) w

  pub updated-IsIndexed :
      (v : Contents)
      → IsIndexed v job.id
      → str_eq (status_of c job v) "" ≡ false
      → IsIndexed (updated c job v) job.id
  updated-IsIndexed v indexed stored x =
      updated-sets v x
      ∙ after_leave-index job.status x _
          (after_move-index (status_of c job v) job.status x _ stored (indexed x))
      ∙ sym (ap (λ o. str_eq (text_of o) x) (updated-status v))

  -- `UpdateJob` over a connection that works stores the new status and keeps the status sets in step
  -- with it, for a job that is stored and that they hold under its old status: it is then in the
  -- set of its new status and in no other.
  pub update_job-IsIndexed :
      (r : Redis) (s : r.Store)
      → IsIndexed (r.view s) job.id
      → str_eq (status_of c job (r.view s)) "" ≡ false
      → (t : r.Store) × (update_job r c job (calm c job r s) ≡ (ok tt, calm c job r t))
        × ((r.view t).hashes (job_key job.id) "status" ≡ some job.status)
        × IsIndexed (r.view t) job.id
  update_job-IsIndexed r s indexed stored =
      let (t, ran, seen) = update_job-delivered c job r s in
      let status = ap (λ v. v.hashes (job_key job.id) "status") seen ∙ updated-status (r.view s) in
      (
        t,
        ran,
        status,
        λ x.
            ap (λ v. v.sets (status_key x) job.id) seen
            ∙ updated-IsIndexed (r.view s) indexed stored x
            ∙ ap (λ v. str_eq (text_of (v.hashes (job_key job.id) "status")) x) (sym seen),
      )
