-- ===== src/Ios/Tests.antt =====
-- The theorems on morf/ios at a small binary and a small archive.
use Prim.Native.String
use text.Mathlib.TextPositions.{eq_refl}
use morf.Prelude.{
  ℕ, arith, ◌≡◌, refl, ◌⊎◌, String, Bool, false, true, ◌-◌, Option, none, some, List, [], ◌∷◌,
  if◌then◌else◌, str_eq,
}
use morf.Prelude.Text.{str_eq_of_ne}
use morf.ZipSafety.{Limits, Paths, safe}
use morf.Ios.{Bytes, Section, MachoFile, split_nul_strings, label_of, extract_slice_strings}
use morf.Ios.Recall.{HoldsAt, extract_slice_strings-HoldsAt}
use morf.Ios.Tree.{ZipEntry, FilePaths, Tree, DirEntry, UnpackedIpa}
use morf.Ios.Unpack.{is_within, checked, start_unpack}
use morf.Ios.Unpack.Entries.{extracted}
use morf.Ios.Unpack.Contained.{start_unpack-contained}

-- "k=", "key9" between two bytes that are not printable, and "ab"
abbrev constants : Bytes
constants = 107 ∷ 61 ∷ 107 ∷ 101 ∷ 121 ∷ 57 ∷ 0 ∷ 97 ∷ 98 ∷ []

split : split_nul_strings constants ≡ (107 ∷ 61 ∷ 107 ∷ 101 ∷ 121 ∷ 57 ∷ []) ∷ []
unfolding split_nul_strings
split = refl

abbrev const_section : Section
const_section = record {
  seg = "__DATA_CONST";
  name = "__const";
  cstring_literals = false;
  contents = some constants;
}

abbrev binary : MachoFile
binary = record {
  cpu = "arm64";
  is_encrypted = false;
  swift_reflection_strings = none;
  sections = const_section ∷ [];
  imported_libraries = [];
}

extract_slice_strings-HoldsAt_example :
    HoldsAt
      (label_of const_section)
      (107 ∷ 101 ∷ 121 ∷ 57 ∷ [])
      (extract_slice_strings binary "arm64").strings
extract_slice_strings-HoldsAt_example =
    extract_slice_strings-HoldsAt binary "arm64" [] [] const_section (107 ∷ 101 ∷ 121 ∷ 57 ∷ [])
      (107 ∷ 61 ∷ []) (0 ∷ 97 ∷ 98 ∷ []) refl refl refl refl (omega arith) refl

abbrev Held : Type 0
Held = String → Option (List ℕ)

abbrev put : String → List ℕ → Held → Held
put t bytes d p = if str_eq p t then some bytes else d p

abbrev starts : String → String → Bool
starts s p = str_eq (String.slice s 0 (String.len p)) p

abbrev ends : String → String → Bool
ends s p = str_eq (String.slice s (String.len s - String.len p) (String.len s)) p

abbrev file_paths : FilePaths
file_paths = record {
  is_abs = λ s. starts s "/";
  has_prefix = starts;
  has_suffix = ends;
  clean = λ s. s;
  from_slash = λ s. s;
  join = λ a b. String.◌++◌ a (String.◌++◌ "/" b);
  dir = λ s. "/job";
}

abbrev app_dir : DirEntry
app_dir = record { name = "A.app"; is_dir = true }

abbrev tree : Tree
tree = record {
  Disk = Held;
  files = λ d p. d p;
  mkdir_all = λ t d. (true, d);
  create = λ t d. (true, put t [] d);
  write = λ t bytes d. (true, put t bytes d);
  read_dir = λ t d. if str_eq t "/job/Payload" then some (app_dir ∷ []) else none;
  walk_dir = λ t d. [];
  is_regular = λ t d. str_eq t "/job/Payload/A.app/Info.plist";
  read_file = λ t d. d t;
  mkdir_all-files = λ t p d. refl;
  create-empty = λ t d h. rw (eq_refl t) refl;
  create-others = λ t p d h. rw (str_eq_of_ne p t h) refl;
  write-holds = λ t bytes d k h. rw (eq_refl t) refl;
  write-others = λ t p bytes d h. rw (str_eq_of_ne p t h) refl;
}

abbrev entry : String → Option (List ℕ) → ZipEntry
entry name contents = record {
  header = record { name = name; uncompressed_size = 2; compressed_size = 2 };
  is_dir = false;
  contents = contents;
  fails = false;
}

-- the second entry has the name of the first
abbrev archive : List ZipEntry
archive =
    entry "Payload/A.app/Info.plist" (some (1 ∷ []))
    ∷ entry "Payload/A.app/Info.plist" (some (2 ∷ 3 ∷ []))
    ∷ []

abbrev zip_paths : Paths
zip_paths = record {
  is_abs = λ s. starts s "/";
  has_prefix = starts;
  contains = λ s t. false;
  clean = λ s. s;
}

abbrev limits : Limits
limits = record { max_entries = 10; max_total_uncompressed = 100; max_entry_uncompressed = 50 }

abbrev no_files : Held
no_files p = none

abbrev started : Option UnpackedIpa × Held
unfolding start_unpack
started =
    start_unpack file_paths tree (λ plist. none) zip_paths limits (λ a b. false) archive "/job"
      no_files

is_started :
    (checked file_paths tree (λ plist. none) zip_paths limits (λ a b. false) archive ≡ safe)
    × (started.1 "/job/Payload/A.app/Info.plist" ≡ some (2 ∷ 3 ∷ []))
unfolding start_unpack
is_started = (refl, refl)

start_unpack-contained_example :
    ((is_within file_paths tree "/job" "/job/Payload/A.app/Info.plist" ≡ true)
      ⊎ (started.1 "/job/Payload/A.app/Info.plist" ≡ none))
    × ((started.0 ≡ none)
        ⊎ ((checked file_paths tree (λ plist. none) zip_paths limits (λ a b. false) archive ≡ safe)
            × (started.1 "/job/Payload/A.app/Info.plist"
                ≡ extracted file_paths tree "/job" archive "/job/Payload/A.app/Info.plist" none)))
unfolding started start_unpack
start_unpack-contained_example =
    start_unpack-contained file_paths tree (λ plist. none) zip_paths limits (λ a b. false) archive
      "/job" "/job/Payload/A.app/Info.plist" no_files
