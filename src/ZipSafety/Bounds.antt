-- ===== src/ZipSafety/Bounds.antt =====
-- What `CheckAPKSafe` of morf/utils/zipbomb.go guarantees of an archive that it accepts, and the
-- declared sizes that its conversion to int64 lets through.
use morf.Prelude.{ℕ, ◌+◌, ◌^◌, ◌≤◌, ◌<◌, ◌≡◌, Bool, false, List, [], ◌∷◌, All, arith, length}
use morf.ZipSafety.{
  Entry, Limits, Paths, safe, check_entries, check_apk_safe, is_absolute, escapes, exceeds,
  add_int64,
}

abbrev pub sum_sizes : List Entry → ℕ
sum_sizes [] = 0
sum_sizes (f ∷ rest) = f.uncompressed_size + sum_sizes rest

module _ (paths : Paths) (limits : Limits) (ratio_exceeds : ℕ → ℕ → Bool) where
  -- the sizes of an archive whose declared sizes fit an int64
  abbrev pub Fits : Entry → Type 0
  Fits f = f.uncompressed_size < 2 ^ 63

  abbrev pub IsSafeEntry : Entry → Type 0
  IsSafeEntry f =
      (is_absolute paths limits ratio_exceeds f.name ≡ false)
      × (escapes paths limits ratio_exceeds f.name ≡ false)
      × (f.uncompressed_size ≤ limits.max_entry_uncompressed)

  entry-accepted :
      (f : Entry) (rest : List Entry) (total comp : ℕ)
      → check_entries paths limits ratio_exceeds (f ∷ rest) total comp ≡ safe
      → (is_absolute paths limits ratio_exceeds f.name ≡ false)
        × (escapes paths limits ratio_exceeds f.name ≡ false)
        × (exceeds f.uncompressed_size limits.max_entry_uncompressed ≡ false)
        × (exceeds (add_int64 total f.uncompressed_size) limits.max_total_uncompressed ≡ false)
        × (check_entries paths limits ratio_exceeds rest
              (add_int64 total f.uncompressed_size)
              (add_int64 comp f.compressed_size)
            ≡ safe)
  unfolding check_entries
  entry-accepted f rest total comp h = ground arith

  not-exceeds : (a b : ℕ) → a < 2 ^ 63 → exceeds a b ≡ false → a ≤ b
  not-exceeds a b fit h = ground arith

  no_wrap : (a b : ℕ) → a + b < 2 ^ 63 → add_int64 a b ≡ a + b
  no_wrap a b h = omega arith

  module _ (roomy : limits.max_total_uncompressed + limits.max_entry_uncompressed < 2 ^ 63) where
    entries-safe :
        (entries : List Entry) (total comp : ℕ)
        → total ≤ limits.max_total_uncompressed
        → All Fits entries
        → check_entries paths limits ratio_exceeds entries total comp ≡ safe
        → All IsSafeEntry entries × (total + sum_sizes entries ≤ limits.max_total_uncompressed)
    entries-safe [] total comp le fits h = (tt, omega arith)
    entries-safe (f ∷ rest) total comp le (fit, fits) h =
        let (name, inside, small, low, others) = entry-accepted f rest total comp h in
        let size = not-exceeds f.uncompressed_size limits.max_entry_uncompressed fit small in
        let sum = no_wrap total f.uncompressed_size (omega arith) in
        let bound : add_int64 total f.uncompressed_size ≤ limits.max_total_uncompressed =
          not-exceeds _ _ (omega arith) low in
        let (safe_rest, total_rest) = entries-safe rest _ _ bound fits others in
        (((name, inside, size), safe_rest), omega arith)

    -- An archive that is accepted, whose declared sizes fit an int64, against limits that leave room for
    -- their sum: no entry name is absolute or climbs out, no entry is above its limit, the number of
    -- entries is within the limit, and so is the true sum of the sizes.
    pub check_apk_safe-bounds :
        (entries : List Entry)
        → All Fits entries
        → check_apk_safe paths limits ratio_exceeds entries ≡ safe
        → (length entries ≤ limits.max_entries)
          × All IsSafeEntry entries
          × (sum_sizes entries ≤ limits.max_total_uncompressed)
    unfolding check_apk_safe
    check_apk_safe-bounds entries fits h =
        let few : length entries ≤ limits.max_entries = ground arith in
        let checked : check_entries paths limits ratio_exceeds entries 0 0 ≡ safe = ground arith in
        let (each, total) = entries-safe entries 0 0 (omega arith) fits checked in
        (few, each, omega arith)

  -- An entry that declares at least 2 ^ 63 bytes is accepted whatever the limits on sizes are: as an
  -- int64 its size is negative.
  pub check_apk_safe-huge :
      (f : Entry)
      → 1 ≤ limits.max_entries
      → is_absolute paths limits ratio_exceeds f.name ≡ false
      → escapes paths limits ratio_exceeds f.name ≡ false
      → 2 ^ 63 ≤ f.uncompressed_size
      → f.uncompressed_size < 2 ^ 64
      → check_apk_safe paths limits ratio_exceeds (f ∷ []) ≡ safe
  unfolding check_apk_safe check_entries
  check_apk_safe-huge f few name inside huge word =
      let wrap : add_int64 0 f.uncompressed_size ≡ f.uncompressed_size = omega arith in
      ground (arith, wrap)
