-- ===== src/Worker/Retry.antt =====
-- The errors of a scan, and the retry policy of morf/worker/worker.go.
use Prim.Native.String
use text.Mathlib.Text.{find?}
use morf.Prelude.{
  ℕ, zero, suc, ◌*◌, String, Bool, true, false, not, none, some, [], ◌∷◌, if◌then◌else◌, ltb, leb,
  any,
}

-- An error with its text, the text in lower case, and what errors.Is finds in it.
pub record ScanError : Type 0 where
  pub text : String
  pub lowered : String
  pub non_retryable : Bool
  pub retryable : Bool

-- strings.Contains
abbrev pub contains : String → String → Bool
contains s t = elim (find? s t) [ none ↦ false | some i ↦ true ]

unfoldable pub is_retryable : ScanError → Bool
is_retryable e =
    if e.non_retryable
    then false
    else if e.retryable
    then true
    else not (
        any (contains e.lowered)
          ("safety check failed" ∷ "decompilation failed" ∷ "validation failed" ∷ []))

abbrev or_default : ℕ → ℕ → ℕ
or_default zero d = d
or_default n d = n

-- the loop of `retryBackoff`, over the rounds left
unfoldable pub backoff_loop : ℕ → ℕ → ℕ → ℕ
backoff_loop zero max d = if ltb max d then max else d
backoff_loop (suc rounds) max d =
    let rest = backoff_loop rounds max (d * 2) in if leb max (d * 2) then max else rest

abbrev pub seconds : ℕ → ℕ
seconds n = n * 1_000_000_000

abbrev rounds_of : ℕ → ℕ
rounds_of zero = zero
rounds_of (suc n) = n

-- in nanoseconds; a setting that is not positive is 0 here
unfoldable pub retry_backoff : ℕ → ℕ → ℕ → ℕ
unfolding backoff_loop
retry_backoff base max retry_count =
    backoff_loop (rounds_of retry_count) (or_default max (seconds 30)) (or_default base (seconds 2))

-- the result of a scan in JSON, or the error of its encoder
pub data Marshalled : Type 0 where
  marshalled : String → Marshalled
  unmarshallable : ScanError → Marshalled

-- `fmt.Errorf` with a prefix in lower case and `%w`, which keeps what errors.Is finds
abbrev pub prefixed : String → ScanError → ScanError
prefixed prefix e = record e {
  text = String.◌++◌ prefix e.text;
  lowered = String.◌++◌ prefix e.lowered;
}

-- what `%v` keeps of an error: its text
abbrev pub opaque : ScanError → ScanError
opaque e = record e { non_retryable = false; retryable = false }
