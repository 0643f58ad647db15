-- ===== src/ZipSafety/Tests.antt =====
-- The theorems on morf/utils/zipbomb.go at concrete archives.
use morf.Prelude.{
  ℕ, ◌+◌, ◌≤◌, ◌^◌, ◌≡◌, refl, false, Bool, List, [], ◌∷◌, All, arith, length, str_eq,
}
use morf.ZipSafety.{Entry, Limits, Paths, check_apk_safe, safe}
use morf.ZipSafety.Bounds.{check_apk_safe-bounds, check_apk_safe-huge, IsSafeEntry, sum_sizes}

-- the limits that are used where the environment gives none
abbrev limits : Limits
limits = record {
  max_entries = 100_000;
  max_total_uncompressed = 4_294_967_296;
  max_entry_uncompressed = 524_288_000;
}

abbrev paths : Paths
paths = record {
  is_abs = λ s. str_eq s "/etc/passwd";
  has_prefix = str_eq;
  contains = str_eq;
  clean = λ s. s;
}

abbrev ratio_exceeds : ℕ → ℕ → Bool
ratio_exceeds a b = false

abbrev apk : List Entry
apk =
    record { name = "classes.dex"; uncompressed_size = 9_000; compressed_size = 4_000 }
    ∷ record { name = "res/a.xml"; uncompressed_size = 700; compressed_size = 300 }
    ∷ []

program : Unit {0}
unfolding check_apk_safe
program = tt

check_apk_safe-bounds_example :
    (length apk ≤ 100_000)
    × All (IsSafeEntry paths limits ratio_exceeds) apk
    × (sum_sizes apk ≤ 4_294_967_296)
unfolding program
check_apk_safe-bounds_example =
    check_apk_safe-bounds paths limits ratio_exceeds (omega arith) apk
      (omega arith, (omega arith, tt)) refl

abbrev bomb : Entry
bomb = record { name = "classes.dex"; uncompressed_size = 2 ^ 63 + 5; compressed_size = 10 }

check_apk_safe-huge_example : check_apk_safe paths limits ratio_exceeds (bomb ∷ []) ≡ safe
check_apk_safe-huge_example =
    check_apk_safe-huge paths limits ratio_exceeds bomb (omega arith) refl refl (omega arith)
      (omega arith)
