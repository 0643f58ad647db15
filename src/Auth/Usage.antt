-- ===== src/Auth/Usage.antt =====
-- The recorded use of keys in morf/auth/middleware.go, which is written to the database in batches.
use morf.Prelude.{ℕ, suc, Bool, Option, some, List, [], ◌∷◌, if◌then◌else◌, ◌==◌}

-- the usage of a key since the last flush, and the keys with one
pub record KeyUsage : Type 0 where
  pub last_seen : ℕ
  pub count : ℕ

abbrev pub Pending : Type 0
Pending = List (ℕ × KeyUsage)

unfoldable pub record_key_usage : ℕ → ℕ → Pending → Pending
record_key_usage now key_id [] = (key_id, record { last_seen = now; count = 1 }) ∷ []
record_key_usage now key_id ((other, u) ∷ rest) =
    let later = record_key_usage now key_id rest in
    if other == key_id
    then (other, record { last_seen = now; count = suc u.count }) ∷ rest
    else (other, u) ∷ later

-- `last_used` in the database, and whether the update of a key succeeds
unfoldable pub flush_batch : (ℕ → Bool) → Pending → (ℕ → Option ℕ) → ℕ → Option ℕ
flush_batch reached [] last_used = last_used
flush_batch reached ((key_id, u) ∷ rest) last_used = flush_batch reached rest (
    if reached key_id
    then (λ other. if other == key_id then some u.last_seen else last_used other)
    else last_used)

unfoldable pub flush_pending_usage :
    Bool → (ℕ → Bool) → Pending × (ℕ → Option ℕ) → Pending × (ℕ → Option ℕ)
unfolding flush_batch
flush_pending_usage connected reached (pending, last_used) =
    ([], if connected then flush_batch reached pending last_used else last_used)
