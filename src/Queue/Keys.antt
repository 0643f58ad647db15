-- ===== src/Queue/Keys.antt =====
-- The Redis keys of morf/queue/queue.go and morf/queue/reaper.go, and which of them are distinct.
use Prim.Native.String.{◌++◌, len}
use text.Mathlib.TextLemmas.{append_assoc}
use morf.Prelude.{◌≡◌, refl, sym, ap, ◌∙◌, arith, String, false, str_eq}
use morf.Prelude.Text.{str_eq-append, str_eq-append_ne, str_eq_of_ne}
use text.Mathlib.TextPositions.{len-append}

abbrev pub job_queue_key : String
job_queue_key = "morf:job_queue"

abbrev pub dlq_key : String
dlq_key = "morf:dlq"

unfoldable pub job_key : String → String
job_key id = "morf:jobs:" ++ id

unfoldable pub status_key : String → String
status_key status = "morf:jobs:status:" ++ status

unfoldable pub processing_key : String → String
processing_key worker_id = "morf:processing:" ++ worker_id

unfoldable pub worker_key : String → String
worker_key worker_id = "morf:workers:" ++ worker_id

unfoldable pub job_lease_key : String → String
job_lease_key id = "morf:jobs:lease:" ++ id

-- `morf:p` against `morf:j`, for the worker's list and the main queue
pub processing_key-ne-job_queue_key : (w : String) → str_eq (processing_key w) job_queue_key ≡ false
unfolding processing_key
processing_key-ne-job_queue_key w =
    rw (append_assoc "morf:p" "rocessing:" w)
      (str_eq-append_ne "morf:p" "morf:j" ("rocessing:" ++ w) "ob_queue" refl refl)

pub job_queue_key-ne-processing_key : (w : String) → str_eq job_queue_key (processing_key w) ≡ false
unfolding processing_key
job_queue_key-ne-processing_key w =
    rw (append_assoc "morf:p" "rocessing:" w)
      (str_eq-append_ne "morf:j" "morf:p" "ob_queue" ("rocessing:" ++ w) refl refl)

pub worker_key-ne-job_queue_key : (w : String) → str_eq (worker_key w) job_queue_key ≡ false
unfolding worker_key
worker_key-ne-job_queue_key w =
    rw (append_assoc "morf:w" "orkers:" w)
      (str_eq-append_ne "morf:w" "morf:j" ("orkers:" ++ w) "ob_queue" refl refl)

pub worker_key-ne-processing_key : (w v : String) → str_eq (worker_key w) (processing_key v) ≡ false
unfolding worker_key processing_key
worker_key-ne-processing_key w v =
    rw (append_assoc "morf:w" "orkers:" w, append_assoc "morf:p" "rocessing:" v)
      (str_eq-append_ne "morf:w" "morf:p" ("orkers:" ++ w) ("rocessing:" ++ v) refl refl)

pub job_lease_key-ne-job_queue_key : (id : String) → str_eq (job_lease_key id) job_queue_key ≡ false
unfolding job_lease_key
job_lease_key-ne-job_queue_key id =
    rw (append_assoc "morf:jobs" ":lease:" id)
      (str_eq-append_ne "morf:jobs" "morf:job_" (":lease:" ++ id) "queue" refl refl)

pub job_lease_key-ne-processing_key :
    (id w : String) → str_eq (job_lease_key id) (processing_key w) ≡ false
unfolding job_lease_key processing_key
job_lease_key-ne-processing_key id w =
    rw (append_assoc "morf:j" "obs:lease:" id, append_assoc "morf:p" "rocessing:" w)
      (str_eq-append_ne "morf:j" "morf:p" ("obs:lease:" ++ id) ("rocessing:" ++ w) refl refl)

pub job_lease_key-ne-status_key : (id x : String) → str_eq (job_lease_key id) (status_key x) ≡ false
unfolding job_lease_key status_key
job_lease_key-ne-status_key id x =
    rw (append_assoc "morf:jobs:l" "ease:" id, append_assoc "morf:jobs:s" "tatus:" x)
      (str_eq-append_ne "morf:jobs:l" "morf:jobs:s" ("ease:" ++ id) ("tatus:" ++ x) refl refl)

-- no text is itself with "lease:" in front
pub job_lease_key-ne-job_key : (id : String) → str_eq (job_lease_key id) (job_key id) ≡ false
unfolding job_lease_key job_key
job_lease_key-ne-job_key id =
    rw (append_assoc "morf:jobs:" "lease:" id, str_eq-append "morf:jobs:" ("lease:" ++ id) id)
      (str_eq_of_ne ("lease:" ++ id) id λ e. omega (arith, sym (len-append "lease:" id) ∙ ap len e))
