-- ===== src/Storage/Local.antt =====
-- morf/storage/local.go: objects as files under a base directory. The file system and the functions
-- on paths are arguments.
use morf.Prelude.{
  ◌≡◌, ◌≢◌, String, Bool, true, false, not, ◌||◌, Option, none, some, List, if◌then◌else◌, str_eq,
  any,
}

-- The calls of package os on files, with what they promise; each reports whether it has succeeded.
pub record FileSystem : Type 1 where
  pub Disk : Type 0
  pub files : Disk → String → Option String
  pub mkdir_all : String → Disk → Bool × Disk
  pub create_temp : String → Disk → Option String × Disk
  pub copy : String → String → Disk → Bool × Disk
  pub sync : String → Disk → Bool × Disk
  pub close : String → Disk → Bool × Disk
  pub rename : String → String → Disk → Bool × Disk
  pub remove : String → Disk → Bool × Disk
  pub is_not_exist : String → Disk → Bool
  pub mkdir_all-files : (p : String) (d : Disk) → files (mkdir_all p d).1 ≡ files d
  -- the name of a temporary file is fresh
  pub create_temp-fresh :
      (dir t : String) (d : Disk) → (create_temp dir d).0 ≡ some t → files d t ≡ none
  pub create_temp-keeps :
      (dir p held : String) (d : Disk)
      → files d p ≡ some held
      → files (create_temp dir d).1 p ≡ some held
  pub copy-writes :
      (t bytes : String) (d : Disk)
      → (copy t bytes d).0 ≡ true
      → files (copy t bytes d).1 t ≡ some bytes
  pub copy-others : (t bytes p : String) (d : Disk) → p ≢ t → files (copy t bytes d).1 p ≡ files d p
  pub sync-files : (t : String) (d : Disk) → files (sync t d).1 ≡ files d
  pub close-files : (t : String) (d : Disk) → files (close t d).1 ≡ files d
  pub rename-moves :
      (t p : String) (d : Disk) → (rename t p d).0 ≡ true → files (rename t p d).1 p ≡ files d t
  pub rename-failed :
      (t p : String) (d : Disk) → (rename t p d).0 ≡ false → files (rename t p d).1 ≡ files d
  pub remove-removes :
      (p : String) (d : Disk) → (remove p d).0 ≡ true → files (remove p d).1 p ≡ none
  pub remove-others : (t p : String) (d : Disk) → p ≢ t → files (remove t d).1 p ≡ files d p
  -- the error of a failed removal is that the file does not exist
  pub remove-missing :
      (p : String) (d : Disk)
      → is_not_exist p d ≡ true
      → (remove p d).0 ≡ false
      → files (remove p d).1 p ≡ none

pub record Paths : Type 0 where
  pub trim_space : String → String
  pub is_abs : String → Bool
  pub has_slash_prefix : String → Bool
  pub clean : String → String
  pub segments : String → List String
  pub join : String → String → String
  pub dir : String → String

unfoldable pub sanitize_key : Paths → String → Option String
sanitize_key paths key =
    if str_eq (paths.trim_space key) ""
    then none
    else if paths.is_abs key || paths.has_slash_prefix key
    then none
    else if any (λ seg. str_eq seg "..") (paths.segments (paths.clean key))
    then none
    else some (paths.clean key)

unfoldable pub resolve_key : Paths → String → String → Option String
unfolding sanitize_key
resolve_key paths base key = elim (sanitize_key paths key) [
  | none ↦ none
  | some rel ↦ some (paths.join base rel)
]

module _ (fs : FileSystem) where
  -- the file is given up, and its temporary file removed if that works
  abbrev pub give_up : String → fs.Disk → Bool × fs.Disk
  give_up t d = (false, (fs.remove t d).1)

  -- from the temporary file to the object
  unfoldable pub commit : String → String → String → fs.Disk → Bool × fs.Disk
  commit t full bytes d =
      let (copied, written) = fs.copy t bytes d in
      let (synced, flushed) = fs.sync t written in
      let (closed, done) = fs.close t flushed in
      let (renamed, moved) = fs.rename t full done in
      if not copied
      then give_up t (fs.close t written).1
      else if not synced
      then give_up t (fs.close t flushed).1
      else if not closed
      then give_up t done
      else if not renamed
      then give_up t moved
      else (true, moved)

module _ (fs : FileSystem) (paths : Paths) (base : String) where
  -- the context is not cancelled
  unfoldable pub local_put : String → String → fs.Disk → Bool × fs.Disk
  local_put key bytes d = elim (resolve_key paths base key) [
    | none ↦ (false, d)
    | some full ↦
        let (made, ready) = fs.mkdir_all (paths.dir full) d in
        let (temp, opened) = fs.create_temp (paths.dir full) ready in
        if not made
        then (false, ready)
        else elim temp [ none ↦ (false, opened) | some t ↦ commit fs t full bytes opened ]
  ]

  unfoldable pub local_delete : String → fs.Disk → Bool × fs.Disk
  local_delete key d = elim (resolve_key paths base key) [
    | none ↦ (false, d)
    | some full ↦
        let (removed, after) = fs.remove full d in (removed || fs.is_not_exist full d, after)
  ]

  unfoldable pub local_objects : fs.Disk → String → Option String
  local_objects d key = elim (resolve_key paths base key) [
    | none ↦ none
    | some full ↦ fs.files d full
  ]
