-- ===== src/Job/RoundTrip.antt =====
-- A job written to its hash and read back (`ToMap`, HSET, HGETALL, `FromMap`).
use morf.Prelude.{
  ◌≡◌, refl, sym, ℕ, zero, suc, Option, none, some, arith, String, str_eq, eq_iff, ltb,
  if◌then◌else◌, false, Bool-cases, inl, inr, lt→ltb,
}
use morf.Redis.{MapValues, overlay}
use morf.Job.{
  Codec, ScanJob, text, number, to_hash, from_hash, format_time_ptr, time_ptr_or, time_or,
  number_or, text_or, trace_or, trace_value, unless_empty, encode, as_text,
}

module _ (c : Codec) where
  open c use {Time, to_second, format, parse}

  abbrev pub seconds : Option Time → Option Time
  seconds none = none
  seconds (some t) = some (to_second t)

  read-number : (n : ℕ) → number_or c 0 (some (text (c.print_int n))) ≡ n
  unfolding number_or
  read-number n = rw (c.scan_int-print_int n, number_or)

  read-time : (t old : Time) → time_or c old (some (text (format t))) ≡ to_second t
  unfolding time_or
  read-time t old = rw (c.parse-format t, time_or)

  read-time_ptr :
      (o old : Option Time) → time_ptr_or c old (some (text (format_time_ptr c o))) ≡ seconds o
  unfolding time_ptr_or format_time_ptr
  read-time_ptr none old = refl
  read-time_ptr (some t) old = rw (c.format-ne_empty t, c.parse-format t)

  read-unless_empty : (s : String) → text_or c "" (as_text c (encode c (unless_empty c s))) ≡ s
  unfolding as_text encode
  read-unless_empty s = elim (Bool-cases (str_eq s "")) [
    | inl e ↦ rw e (sym ((eq_iff s "").0 e))
    | inr e ↦ rw e
  ]

  read-positive :
      (n : ℕ) → number_or c 0 (as_text c (encode c (if ltb 0 n then some (number n) else none))) ≡ n
  unfolding as_text encode number_or
  read-positive zero = refl
  read-positive (suc n) = rw (lt→ltb 0 (suc n) (omega arith), c.scan_int-print_int (suc n))

  read-trace :
      (t : c.Carrier) → trace_or c c.no_carrier (as_text c (encode c (trace_value c t))) ≡ t
  unfolding as_text encode trace_or trace_value
  read-trace t =
      let (s, marshals, unmarshals, full) = c.marshal_total t in
      elim (Bool-cases (ltb 0 (c.carrier_len t))) [
        | inl e ↦ rw (e, marshals, full, unmarshals)
        | inr e ↦ rw e (sym (c.carrier_len-zero t (ground arith)))
      ]

  -- The fields that a retry clears or moves, read back after the job was written over any earlier
  -- hash: none of them keeps an old value. Times are cut to the second.
  pub from_hash-overlay :
      (j : ScanJob c) (old : MapValues)
      → let k = from_hash c (overlay (to_hash c j) old) in
        (k.id ≡ j.id)
        × (k.status ≡ j.status)
        × (k.error ≡ j.error)
        × (k.worker_id ≡ j.worker_id)
        × (k.retry_count ≡ j.retry_count)
        × (k.storage_key ≡ j.storage_key)
        × (k.started_at ≡ seconds j.started_at)
        × (k.completed_at ≡ seconds j.completed_at)
        × (k.failed_at ≡ seconds j.failed_at)
  unfolding from_hash to_hash
  from_hash-overlay j old = (
    refl,
    refl,
    refl,
    refl,
    read-number j.retry_count,
    refl,
    read-time_ptr j.started_at none,
    read-time_ptr j.completed_at none,
    read-time_ptr j.failed_at none,
  )

  -- a result that is empty is not written
  pub from_hash-overlay_result :
      (j : ScanJob c) (old : MapValues)
      → str_eq j.result "" ≡ false
      → (from_hash c (overlay (to_hash c j) old)).result ≡ j.result
  unfolding from_hash to_hash
  from_hash-overlay_result j old h = rw (overlay, h) refl

  -- what is lost: the phase, which is written by its own command, and fractions of seconds
  abbrev pub stored : ScanJob c → ScanJob c
  stored j = record j {
    phase = "";
    created_at = to_second j.created_at;
    started_at = seconds j.started_at;
    completed_at = seconds j.completed_at;
    failed_at = seconds j.failed_at;
  }

  -- A job published under a key that holds no hash yet is read back whole, but for its phase and
  -- the fractions of its times.
  pub from_hash-to_hash : (j : ScanJob c) → from_hash c (to_hash c j) ≡ stored j
  unfolding from_hash to_hash
  from_hash-to_hash j = λ i. record {
    id = j.id;
    status = j.status;
    apk_path = j.apk_path;
    file_type = read-unless_empty j.file_type i;
    original_filename = j.original_filename;
    created_at = read-time j.created_at c.zero_time i;
    started_at = read-time_ptr j.started_at none i;
    completed_at = read-time_ptr j.completed_at none i;
    failed_at = read-time_ptr j.failed_at none i;
    error = j.error;
    phase = "";
    result = read-unless_empty j.result i;
    worker_id = j.worker_id;
    retry_count = read-number j.retry_count i;
    webhook_url = read-unless_empty j.webhook_url i;
    webhook_secret = read-unless_empty j.webhook_secret i;
    scan_timeout = read-positive j.scan_timeout i;
    storage_key = j.storage_key;
    request_id = read-unless_empty j.request_id i;
    trace_context = read-trace j.trace_context i;
  }
