-- ===== src/Ios/Tree.antt =====
-- The arguments and the result of `StartUnpack` of morf/ios/unpack.go: an archive as archive/zip gives it,
-- the path functions, the file system, and the parts of a bundle.
use morf.Prelude.{ℕ, ◌≡◌, ◌≢◌, String, Bool, true, Option, some, List, []}
use morf.ZipSafety.{Entry}

pub record ZipEntry : Type 0 where
  -- its name and sizes in the directory of the archive
  pub header : Entry
  pub is_dir : Bool
  -- what it decompresses to, none if it cannot be opened
  pub contents : Option (List ℕ)
  -- whether reading it fails after these bytes
  pub fails : Bool

pub record FilePaths : Type 0 where
  pub is_abs : String → Bool
  pub has_prefix : String → String → Bool
  pub has_suffix : String → String → Bool
  pub clean : String → String
  pub from_slash : String → String
  pub join : String → String → String
  pub dir : String → String

pub record DirEntry : Type 0 where
  pub name : String
  pub is_dir : Bool

-- The calls of package os on a tree without links, with what they promise of its regular files; each
-- call that changes the disk reports whether it has succeeded.
pub record Tree : Type 1 where
  pub Disk : Type 0
  pub files : Disk → String → Option (List ℕ)
  pub mkdir_all : String → Disk → Bool × Disk
  pub create : String → Disk → Bool × Disk
  pub write : String → List ℕ → Disk → Bool × Disk
  pub read_dir : String → Disk → Option (List DirEntry)
  -- what a walk visits without an error, in its order
  pub walk_dir : String → Disk → List (String × DirEntry)
  pub is_regular : String → Disk → Bool
  pub read_file : String → Disk → Option (List ℕ)
  pub mkdir_all-files : (t p : String) (d : Disk) → files (mkdir_all t d).1 p ≡ files d p
  pub create-empty :
      (t : String) (d : Disk) → (create t d).0 ≡ true → files (create t d).1 t ≡ some []
  pub create-others : (t p : String) (d : Disk) → p ≢ t → files (create t d).1 p ≡ files d p
  pub write-holds :
      (t : String) (bytes : List ℕ) (d : Disk)
      → files d t ≡ some []
      → (write t bytes d).0 ≡ true
      → files (write t bytes d).1 t ≡ some bytes
  pub write-others :
      (t p : String) (bytes : List ℕ) (d : Disk) → p ≢ t → files (write t bytes d).1 p ≡ files d p

pub record UnpackedIpa : Type 0 where
  pub extract_root : String
  pub app_bundle_path : String
  pub info_plist_path : String
  pub main_binary_path : String
  pub app_extensions : List String
  pub frameworks : List String
  pub dylibs : List String
  pub mobile_provision_path : String
