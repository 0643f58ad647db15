-- ===== src/Finding.antt =====
-- `SecretModel` of morf/models/SecretModel.go. Scores are floating-point numbers, which are a
-- parameter.
use morf.Prelude.{ℕ, String}

pub record SecretModel (F : Type 0) : Type 0 where
  pub type : String
  pub line_no : ℕ
  pub file_location : String
  pub secret_type : String
  pub secret_string : String
  pub secret_confidence : String
  pub score : F
  pub tier : String
  pub verification_status : String
  pub masvs_id : String
