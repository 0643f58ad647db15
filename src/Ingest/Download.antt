-- ===== src/Ingest/Download.antt =====
-- morf/ingest/common.go: the directory and the extension of a download, and the copy that is capped.
-- Sizes are int64; the file system and the path functions are arguments.
use morf.Prelude.{
  ℕ, ◌+◌, ◌^◌, ◌≡◌, ◌≢◌, String, Bool, true, not, ◌&&◌, ◌||◌, Option, none, some, List, [],
  if◌then◌else◌, str_eq, ltb, leb, length, take,
}

-- The calls of package os on files, with what they promise; each reports whether it has succeeded.
pub record Files : Type 1 where
  pub Disk : Type 0
  pub files : Disk → String → Option (List ℕ)
  pub is_dir : String → Disk → Bool
  pub mkdir_temp : Disk → Option String × Disk
  pub create_temp : String → String → Disk → Option String × Disk
  pub write : String → List ℕ → Disk → Bool × Disk
  pub close : String → Disk → Bool × Disk
  pub remove : String → Disk → Bool × Disk
  pub mkdir_temp-files : (d : Disk) → files (mkdir_temp d).1 ≡ files d
  pub create_temp-fresh :
      (dir ext t : String) (d : Disk) → (create_temp dir ext d).0 ≡ some t → files d t ≡ none
  pub create_temp-others :
      (dir ext p : String) (d : Disk)
      → (create_temp dir ext d).0 ≢ some p
      → files (create_temp dir ext d).1 p ≡ files d p
  pub write-holds :
      (t : String) (bytes : List ℕ) (d : Disk)
      → (write t bytes d).0 ≡ true
      → files (write t bytes d).1 t ≡ some bytes
  pub write-others :
      (t p : String) (bytes : List ℕ) (d : Disk) → p ≢ t → files (write t bytes d).1 p ≡ files d p
  pub close-files : (t : String) (d : Disk) → files (close t d).1 ≡ files d
  pub remove-removes :
      (t : String) (d : Disk) → (remove t d).0 ≡ true → files (remove t d).1 t ≡ none
  pub remove-others : (t p : String) (d : Disk) → p ≢ t → files (remove t d).1 p ≡ files d p

-- what a reader gives, and whether it then fails in place of ending
pub record Source : Type 0 where
  pub bytes : List ℕ
  pub fails : Bool

-- `io.LimitReader(src, maxBytes+1)`: the limit wraps to a negative number, which reads nothing
abbrev pub limited : ℕ → List ℕ → List ℕ
limited max_bytes bytes = if ltb (max_bytes + 1) (2 ^ 63) then take (max_bytes + 1) bytes else []

-- a reader that fails is noticed if the limit is not reached before
abbrev pub limited_fails : ℕ → Source → Bool
limited_fails max_bytes src =
    src.fails && ltb (max_bytes + 1) (2 ^ 63) && leb (length src.bytes) max_bytes

abbrev pub cap_of : ℕ → ℕ → ℕ
cap_of default_max max_bytes = if ltb 0 max_bytes then max_bytes else default_max

abbrev pub artifact_ext : (String → String → Bool) → String → String
artifact_ext has_suffix base =
    if has_suffix base ".apk" then ".apk" else if has_suffix base ".ipa" then ".ipa" else ".bin"

module _ (fs : Files) where
  unfoldable pub resolve_dest_dir : String → fs.Disk → Option String × fs.Disk
  resolve_dest_dir dir d =
      if str_eq dir ""
      then fs.mkdir_temp d
      else if fs.is_dir dir d
      then (some dir, d)
      else (none, d)

  abbrev pub give_up : String → fs.Disk → Option String × fs.Disk
  give_up tmp_path d = (none, (fs.remove tmp_path d).1)

  abbrev pub finalize : String → ℕ → ℕ → Bool × fs.Disk → Option String × fs.Disk
  finalize tmp_path written max_bytes closed =
      if not closed.0
      then give_up tmp_path closed.1
      else if ltb max_bytes written
      then give_up tmp_path closed.1
      else (some tmp_path, closed.1)

  abbrev pub copy_into : String → Source → ℕ → fs.Disk → Option String × fs.Disk
  copy_into tmp_path src max_bytes d =
      let read = limited max_bytes src.bytes in
      let copied = fs.write tmp_path read d in
      let closed = fs.close tmp_path copied.1 in
      if limited_fails max_bytes src || not copied.0
      then give_up tmp_path closed.1
      else finalize tmp_path (length read) max_bytes closed

  abbrev pub created : Source → ℕ → Option String × fs.Disk → Option String × fs.Disk
  created src max_bytes (none, d) = (none, d)
  created src max_bytes (some tmp_path, d) = copy_into tmp_path src max_bytes d

  unfoldable pub copy_capped : ℕ → String → String → Source → ℕ → fs.Disk → Option String × fs.Disk
  copy_capped default_max dest_dir ext src max_bytes d =
      created src (cap_of default_max max_bytes) (fs.create_temp dest_dir ext d)
