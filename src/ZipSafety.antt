-- ===== src/ZipSafety.antt =====
-- `CheckAPKSafe` of morf/utils/zipbomb.go, on the central directory as archive/zip lists it. The path
-- functions of the Go library and the comparison of two sizes' floating-point ratio with the limit
-- are arguments. An int64 is its 64 bits as a number below 2 ^ 64.
pub mod Bounds
mod Tests
use morf.Prelude.{
  ℕ, zero, suc, ◌+◌, ◌%◌, ◌^◌, String, Bool, true, false, not, ◌&&◌, ◌||◌, List, [], ◌∷◌,
  if◌then◌else◌, str_eq, ltb, leb, length,
}

pub record Entry : Type 0 where
  pub name : String
  -- uint64 fields of the directory
  pub uncompressed_size : ℕ
  pub compressed_size : ℕ

pub record Limits : Type 0 where
  pub max_entries : ℕ
  pub max_total_uncompressed : ℕ
  pub max_entry_uncompressed : ℕ

pub record Paths : Type 0 where
  pub is_abs : String → Bool
  pub has_prefix : String → String → Bool
  pub contains : String → String → Bool
  -- `filepath.ToSlash` after `filepath.Clean`
  pub clean : String → String

-- int64 of a uint64 has the same bits
abbrev pub negative : ℕ → Bool
negative n = leb (2 ^ 63) n

-- `a > b` on int64, for a `b` that is not negative
abbrev pub exceeds : ℕ → ℕ → Bool
exceeds a b = not (negative a) && ltb b a

abbrev pub positive : ℕ → Bool
positive n = exceeds n 0

abbrev pub add_int64 : ℕ → ℕ → ℕ
add_int64 a b = (a + b) % 2 ^ 64

pub data Rejection : Type 0 where
  too_many_entries absolute_path parent_segment entry_too_large entry_ratio total_too_large
        overall_ratio :
      Rejection

pub data Verdict : Type 0 where
  safe : Verdict
  rejected : Rejection → Verdict

module _ (paths : Paths) (limits : Limits) (ratio_exceeds : ℕ → ℕ → Bool) where
  open paths use {is_abs, has_prefix, contains, clean}
  open limits use {max_entries, max_total_uncompressed, max_entry_uncompressed}

  abbrev pub is_absolute : String → Bool
  is_absolute name = is_abs name || has_prefix name "/" || has_prefix name "\\"

  abbrev pub escapes : String → Bool
  escapes name =
      let cleaned = clean name in
      str_eq cleaned ".." || has_prefix cleaned "../" || contains cleaned "/../"

  abbrev pub bad_ratio : ℕ → ℕ → Bool
  bad_ratio uncompressed compressed =
      positive compressed && positive uncompressed && ratio_exceeds uncompressed compressed

  unfoldable pub check_entries : List Entry → ℕ → ℕ → Verdict
  check_entries [] total_uncomp total_comp =
      if bad_ratio total_uncomp total_comp then rejected overall_ratio else safe
  check_entries (f ∷ rest) total_uncomp total_comp =
      let total_uncomp' = add_int64 total_uncomp f.uncompressed_size in
      let total_comp' = add_int64 total_comp f.compressed_size in
      let others = check_entries rest total_uncomp' total_comp' in
      if is_absolute f.name
      then rejected absolute_path
      else if escapes f.name
      then rejected parent_segment
      else if exceeds f.uncompressed_size max_entry_uncompressed
      then rejected entry_too_large
      else if bad_ratio f.uncompressed_size f.compressed_size
      then rejected entry_ratio
      else if exceeds total_uncomp' max_total_uncompressed
      then rejected total_too_large
      else others

  unfoldable pub check_apk_safe : List Entry → Verdict
  unfolding check_entries
  check_apk_safe entries =
      if ltb max_entries (length entries)
      then rejected too_many_entries
      else check_entries entries 0 0
