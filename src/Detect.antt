-- ===== src/Detect.antt =====
-- morf/detect: how the findings of a scan come about, in detect.go, and what is done with them before
-- they are reported, in detect.go (`SanitizeSecrets`) and precision.go (`ApplyPrecision`).
pub mod Sanitize
pub mod Precision
pub mod Patterns
pub mod Lines
pub mod Owner
pub mod Recall
pub mod Scope
pub mod Corpus
pub mod Hits
mod Samples
use morf.Prelude.{
  ℕ, zero, suc, ◌+◌, String, Bool, true, false, not, ◌&&◌, ◌||◌, List, [], ◌∷◌, ◌++◌, if◌then◌else◌,
  str_eq, leb, any,
}
use morf.Finding.{SecretModel}

-- the keys of `uniqueSecrets`: a type and a value
abbrev pub Seen : Type 0
Seen = String → String → Bool

abbrev pub see : String → String → Seen → Seen
see t v seen u w = if str_eq u t && str_eq w v then true else seen u w

unfoldable pub sanitize_loop :
    {F : Type 0} → Seen → List (SecretModel F) → List (SecretModel F) → List (SecretModel F)
sanitize_loop seen [] out = out
sanitize_loop seen (s ∷ rest) out =
    if seen s.secret_type s.secret_string
    then sanitize_loop seen rest out
    else sanitize_loop (see s.secret_type s.secret_string seen) rest (out ++ s ∷ [])

unfoldable pub sanitize_secrets : {F : Type 0} → List (SecretModel F) → List (SecretModel F)
unfolding sanitize_loop
sanitize_secrets scanner_data = sanitize_loop (λ t v. false) scanner_data []
