-- ===== src/Ios/Unpack.antt =====
-- morf/ios/unpack.go: the extraction of an .ipa and the search for the parts of its bundle, `StartUnpack`.
-- The path functions, archive/zip, the decoder of property lists and the file system are arguments.
pub mod Entries
pub mod Contained
use Prim.Native.String
use morf.Prelude.{
  ℕ, ◌≡◌, ◌≢◌, String, Bool, true, false, not, ◌&&◌, ◌||◌, Option, none, some, List, [], ◌∷◌,
  if◌then◌else◌, str_eq,
}
use morf.ZipSafety.{Entry, Limits, Paths, Verdict, safe, rejected, check_apk_safe}
use morf.Ios.Tree.{ZipEntry, FilePaths, DirEntry, Tree, UnpackedIpa}

module _ (paths : FilePaths) (fs : Tree) where
  open paths use {is_abs, has_prefix, has_suffix, clean, from_slash, join, dir}
  open fs use {Disk, files, mkdir_all, create, write, read_dir, walk_dir, is_regular, read_file}

  abbrev pub copied : String → List ℕ → Bool → Bool × Disk → Bool × Disk
  copied target bytes fails out =
      let copy = write target bytes out.1 in if out.0 then (copy.0 && not fails, copy.1) else out

  abbrev pub write_opened : String → Bool → Option (List ℕ) → Disk → Bool × Disk
  write_opened target fails none d = (false, d)
  write_opened target fails (some bytes) d = copied target bytes fails (create target d)

  unfoldable pub write_zip_entry : ZipEntry → String → Disk → Bool × Disk
  write_zip_entry f target d = write_opened target f.fails f.contents d

  abbrev pub target_of : String → ZipEntry → String
  target_of clean_dst f = join clean_dst (from_slash f.header.name)

  abbrev pub is_within : String → String → Bool
  is_within clean_dst target =
      str_eq target clean_dst || has_prefix target (String.◌++◌ clean_dst "/")

  abbrev pub place_file : ZipEntry → String → Bool × Disk → Bool × Disk
  unfolding write_zip_entry
  place_file f target parent = if parent.0 then write_zip_entry f target parent.1 else parent

  abbrev pub place : ZipEntry → String → Disk → Bool × Disk
  unfolding write_zip_entry
  place f target d =
      if f.is_dir then mkdir_all target d else place_file f target (mkdir_all (dir target) d)

  abbrev pub unzip_entry : String → ZipEntry → Disk → Bool × Disk
  unfolding write_zip_entry
  unzip_entry clean_dst f d =
      let name = f.header.name in
      if is_abs name || has_prefix name "/" || has_prefix name "\\"
      then (false, d)
      else if not (is_within clean_dst (target_of clean_dst f))
      then (false, d)
      else place f (target_of clean_dst f) d

  unfoldable pub unzip_loop : String → List ZipEntry → Disk → Bool × Disk
  unfolding write_zip_entry
  unzip_loop clean_dst [] d = (true, d)
  unzip_loop clean_dst (f ∷ rest) d =
      let first = unzip_entry clean_dst f d in
      let others = unzip_loop clean_dst rest first.1 in if first.0 then others else first

  unfoldable pub unzip_to : List ZipEntry → String → Disk → Bool × Disk
  unfolding unzip_loop
  unzip_to entries dst d = unzip_loop (clean dst) entries d

  abbrev first_app : String → List DirEntry → Option String
  first_app payload [] = none
  first_app payload (e ∷ rest) =
      if e.is_dir && has_suffix e.name ".app"
      then some (join payload e.name)
      else first_app payload rest

  abbrev listed_app : String → Option (List DirEntry) → Option String
  listed_app payload none = none
  listed_app payload (some entries) = first_app payload entries

  abbrev walked_app : List (String × DirEntry) → Option String
  walked_app [] = none
  walked_app ((path, e) ∷ rest) =
      if e.is_dir && has_suffix e.name ".app" then some path else walked_app rest

  abbrev or_else : Option String → Option String → Option String
  or_else none y = y
  or_else (some x) y = some x

  unfoldable pub locate_app_bundle : String → Disk → Option String
  locate_app_bundle extract_root d =
      let payload = join extract_root "Payload" in
      or_else (listed_app payload (read_dir payload d)) (walked_app (walk_dir extract_root d))

  abbrev named_dirs : String → String → List DirEntry → List String
  named_dirs dir suffix [] = []
  named_dirs dir suffix (e ∷ rest) =
      if e.is_dir && has_suffix e.name suffix
      then join dir e.name ∷ named_dirs dir suffix rest
      else named_dirs dir suffix rest

  abbrev dirs_in : String → String → Option (List DirEntry) → List String
  dirs_in dir suffix none = []
  dirs_in dir suffix (some entries) = named_dirs dir suffix entries

  abbrev pub collect_dirs_with_suffix : String → String → Disk → List String
  collect_dirs_with_suffix dir suffix d = dirs_in dir suffix (read_dir dir d)

  abbrev named_files : String → List (String × DirEntry) → List String
  named_files suffix [] = []
  named_files suffix ((path, e) ∷ rest) =
      if not e.is_dir && has_suffix e.name suffix
      then path ∷ named_files suffix rest
      else named_files suffix rest

  abbrev pub collect_files_with_suffix : String → String → Disk → List String
  collect_files_with_suffix dir suffix d = named_files suffix (walk_dir dir d)

  abbrev pub if_file : String → Disk → String
  if_file path d = if is_regular path d then path else ""

  module _ (decode_info_plist : List ℕ → Option String) where
    abbrev executable : String → Disk → Option String → String
    executable app_bundle d none = ""
    executable app_bundle d (some name) =
        if str_eq name "" then "" else if_file (join app_bundle name) d

    abbrev decoded_plist : String → Disk → Option (List ℕ) → String
    decoded_plist app_bundle d none = ""
    decoded_plist app_bundle d (some plist) = executable app_bundle d (decode_info_plist plist)

    abbrev pub main_binary : String → String → Disk → String
    main_binary app_bundle info_plist d =
        if str_eq info_plist "" then "" else decoded_plist app_bundle d (read_file info_plist d)

    abbrev pub parts : String → Disk → String → UnpackedIpa
    parts extract_root d app_bundle =
        let info_plist = if_file (join app_bundle "Info.plist") d in
        record {
          extract_root = extract_root;
          app_bundle_path = app_bundle;
          info_plist_path = info_plist;
          main_binary_path = main_binary app_bundle info_plist d;
          app_extensions = collect_dirs_with_suffix (join app_bundle "PlugIns") ".appex" d;
          frameworks = collect_dirs_with_suffix (join app_bundle "Frameworks") ".framework" d;
          dylibs = collect_files_with_suffix app_bundle ".dylib" d;
          mobile_provision_path = if_file (join app_bundle "embedded.mobileprovision") d;
        }

    abbrev pub located : String → Disk → Option String → Option UnpackedIpa
    located extract_root d none = none
    located extract_root d (some app_bundle) = some (parts extract_root d app_bundle)

    abbrev pub bundle : String → Bool × Disk → Option UnpackedIpa × Disk
    unfolding locate_app_bundle
    bundle extract_root (false, d) = (none, d)
    bundle extract_root (true, d) = (located extract_root d (locate_app_bundle extract_root d), d)

    abbrev headers : List ZipEntry → List Entry
    headers [] = []
    headers (f ∷ rest) = f.header ∷ headers rest

    module _ (zip_paths : Paths) (limits : Limits) (ratio_exceeds : ℕ → ℕ → Bool) where
      abbrev pub checked : List ZipEntry → Verdict
      unfolding check_apk_safe
      checked entries = check_apk_safe zip_paths limits ratio_exceeds (headers entries)

      abbrev pub unpacked : Verdict → List ZipEntry → String → Disk → Option UnpackedIpa × Disk
      unfolding unzip_to locate_app_bundle
      unpacked (rejected reason) entries extract_root d = (none, d)
      unpacked safe entries extract_root d =
          let made = mkdir_all extract_root d in
          if made.0
          then bundle extract_root (unzip_to entries extract_root made.1)
          else (none, made.1)

      -- on an archive that opens
      unfoldable pub start_unpack : List ZipEntry → String → Disk → Option UnpackedIpa × Disk
      unfolding unzip_to locate_app_bundle check_apk_safe
      start_unpack entries extract_root d = unpacked (checked entries) entries extract_root d
