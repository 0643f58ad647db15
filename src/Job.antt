-- ===== src/Job.antt =====
-- morf/models/ScanJob.go: the scan job, and its form as the fields of a Redis hash. What the
-- standard library does with times, decimals and JSON is a parameter.
pub mod RoundTrip
pub mod Plain
mod Tests
use morf.Prelude.{
  ℕ, zero, suc, ◌≡◌, ◌≢◌, String, Bool, true, false, Option, none, some, if◌then◌else◌, str_eq, ltb,
}
use morf.Redis.{MapValues}

-- time.RFC3339 formatting and parsing, `%d`, and JSON of a `map[string]string`.
-- A formatted time is cut to the second.
pub record Codec : Type 1 where
  pub Time : Type 0
  pub zero_time : Time
  pub to_second : Time → Time
  pub format : Time → String
  pub parse : String → Option Time
  pub print_int : ℕ → String
  pub scan_int : String → Option ℕ
  pub Carrier : Type 0
  pub no_carrier : Carrier
  pub carrier_len : Carrier → ℕ
  pub marshal : Carrier → Option String
  pub unmarshal : String → Option Carrier
  pub parse-format : (t : Time) → parse (format t) ≡ some (to_second t)
  pub format-ne_empty : (t : Time) → str_eq (format t) "" ≡ false
  pub scan_int-print_int : (n : ℕ) → scan_int (print_int n) ≡ some n
  pub carrier_len-zero : (c : Carrier) → carrier_len c ≡ 0 → c ≡ no_carrier
  pub marshal_total :
      (c : Carrier)
      → (s : String) × (marshal c ≡ some s) × (unmarshal s ≡ some c) × (str_eq s "" ≡ false)

-- a value of `map[string]interface{}`
pub data Value : Type 0 where
  text : String → Value
  number : ℕ → Value

-- `JobStatus` is a string type; these are its constants.
abbrev pub status_queued : String
status_queued = "queued"

abbrev pub status_processing : String
status_processing = "processing"

abbrev pub status_completed : String
status_completed = "completed"

abbrev pub status_failed : String
status_failed = "failed"

abbrev pub status_cancelled : String
status_cancelled = "cancelled"

module _ (c : Codec) where
  -- `RetryCount` and `ScanTimeout` are never set to a negative number.
  pub record ScanJob : Type 0 where
    pub id : String
    pub status : String
    pub apk_path : String
    pub file_type : String
    pub original_filename : String
    pub created_at : c.Time
    pub started_at : Option c.Time
    pub completed_at : Option c.Time
    pub failed_at : Option c.Time
    pub error : String
    pub phase : String
    pub result : String
    pub worker_id : String
    pub retry_count : ℕ
    pub webhook_url : String
    pub webhook_secret : String
    pub scan_timeout : ℕ
    pub storage_key : String
    pub request_id : String
    pub trace_context : c.Carrier

  -- `&models.ScanJob{}`
  abbrev pub empty_job : ScanJob
  empty_job = record {
    id = "";
    status = "";
    apk_path = "";
    file_type = "";
    original_filename = "";
    created_at = c.zero_time;
    started_at = none;
    completed_at = none;
    failed_at = none;
    error = "";
    phase = "";
    result = "";
    worker_id = "";
    retry_count = 0;
    webhook_url = "";
    webhook_secret = "";
    scan_timeout = 0;
    storage_key = "";
    request_id = "";
    trace_context = c.no_carrier;
  }

  unfoldable pub format_time_ptr : Option c.Time → String
  format_time_ptr none = ""
  format_time_ptr (some t) = c.format t

  abbrev unless_empty : String → Option Value
  unless_empty s = if str_eq s "" then none else some (text s)

  trace_value : c.Carrier → Option Value
  trace_value t =
      if ltb 0 (c.carrier_len t)
      then elim (c.marshal t) [ none ↦ none | some s ↦ some (text s) ]
      else none

  -- The map as a function of the key.
  unfoldable pub to_map : ScanJob → String → Option Value
  unfolding format_time_ptr trace_value
  to_map j f =
      if str_eq f "id"
      then some (text j.id)
      else if str_eq f "apk_path"
      then some (text j.apk_path)
      else if str_eq f "original_filename"
      then some (text j.original_filename)
      else if str_eq f "created_at"
      then some (text (c.format j.created_at))
      else if str_eq f "status"
      then some (text j.status)
      else if str_eq f "error"
      then some (text j.error)
      else if str_eq f "worker_id"
      then some (text j.worker_id)
      else if str_eq f "retry_count"
      then some (number j.retry_count)
      else if str_eq f "storage_key"
      then some (text j.storage_key)
      else if str_eq f "started_at"
      then some (text (format_time_ptr j.started_at))
      else if str_eq f "completed_at"
      then some (text (format_time_ptr j.completed_at))
      else if str_eq f "failed_at"
      then some (text (format_time_ptr j.failed_at))
      else if str_eq f "result"
      then unless_empty j.result
      else if str_eq f "webhook_url"
      then unless_empty j.webhook_url
      else if str_eq f "webhook_secret"
      then unless_empty j.webhook_secret
      else if str_eq f "scan_timeout"
      then (if ltb 0 j.scan_timeout then some (number j.scan_timeout) else none)
      else if str_eq f "request_id"
      then unless_empty j.request_id
      else if str_eq f "file_type"
      then unless_empty j.file_type
      else if str_eq f "trace_context"
      then trace_value j.trace_context
      else none

  abbrev text_or : String → Option Value → String
  text_or old (some (text s)) = s
  text_or old _ = old

  -- a time that does not parse is left as it was
  time_or : c.Time → Option Value → c.Time
  time_or old (some (text s)) = elim (c.parse s) [ none ↦ old | some t ↦ t ]
  time_or old _ = old

  -- the empty text is the cleared pointer
  time_ptr_or : Option c.Time → Option Value → Option c.Time
  time_ptr_or old (some (text s)) =
      if str_eq s "" then none else elim (c.parse s) [ none ↦ old | some t ↦ some t ]
  time_ptr_or old _ = old

  number_or : ℕ → Option Value → ℕ
  number_or old none = old
  number_or old (some (number n)) = n
  number_or old (some (text s)) = elim (c.scan_int s) [ none ↦ old | some n ↦ n ]

  trace_or : c.Carrier → Option Value → c.Carrier
  trace_or old (some (text s)) =
      if str_eq s "" then old else elim (c.unmarshal s) [ none ↦ old | some t ↦ t ]
  trace_or old _ = old

  unfoldable pub from_map : ScanJob → (String → Option Value) → ScanJob
  unfolding time_or time_ptr_or number_or trace_or
  from_map j m = record {
    id = text_or j.id (m "id");
    status = text_or j.status (m "status");
    apk_path = text_or j.apk_path (m "apk_path");
    file_type = text_or j.file_type (m "file_type");
    original_filename = text_or j.original_filename (m "original_filename");
    created_at = time_or j.created_at (m "created_at");
    started_at = time_ptr_or j.started_at (m "started_at");
    completed_at = time_ptr_or j.completed_at (m "completed_at");
    failed_at = time_ptr_or j.failed_at (m "failed_at");
    error = text_or j.error (m "error");
    phase = text_or j.phase (m "phase");
    result = text_or j.result (m "result");
    worker_id = text_or j.worker_id (m "worker_id");
    retry_count = number_or j.retry_count (m "retry_count");
    webhook_url = text_or j.webhook_url (m "webhook_url");
    webhook_secret = text_or j.webhook_secret (m "webhook_secret");
    scan_timeout = number_or j.scan_timeout (m "scan_timeout");
    storage_key = text_or j.storage_key (m "storage_key");
    request_id = text_or j.request_id (m "request_id");
    trace_context = trace_or j.trace_context (m "trace_context");
  }

  -- How go-redis writes a value to the server.
  encode : Option Value → Option String
  encode none = none
  encode (some (text s)) = some s
  encode (some (number n)) = some (c.print_int n)

  unfoldable pub to_hash : ScanJob → MapValues
  unfolding to_map encode
  to_hash j f = encode (to_map j f)

  as_text : Option String → Option Value
  as_text none = none
  as_text (some s) = some (text s)

  -- `convertMap` of what HGETALL returns
  unfoldable pub convert_map : MapValues → String → Option Value
  unfolding as_text
  convert_map m f = as_text (m f)

  -- What `GetJob` reads out of a hash.
  unfoldable pub from_hash : MapValues → ScanJob
  unfolding from_map convert_map
  from_hash m = from_map empty_job (convert_map m)
