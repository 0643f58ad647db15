-- ===== src/Ios/Corpus.antt =====
-- morf/ios/macho.go: the corpus file, `WriteCorpus`, and the imported libraries that go into the list
-- of components, `ExtractImportedDylibs`. Writing does not fail here.
pub mod Lines
use Prim.Native.Char.{code}
use morf.Prelude.{
  ℕ, suc, ◌+◌, String, Bool, true, false, not, ◌&&◌, ◌||◌, Option, none, some, List, [], ◌∷◌, ◌++◌,
  map, if◌then◌else◌, str_eq, ◌==◌, any,
}
use morf.Ios.{Bytes, ArchStrings, BinaryStrings, Strings, MachoFile, Image, fat, thin, unreadable}

abbrev pub sanitize_byte : ℕ → ℕ
sanitize_byte c = if c == 10 || c == 13 then 32 else c

abbrev pub sanitize_line : Bytes → Bytes
sanitize_line s = map sanitize_byte s

abbrev pub has_newline : Bytes → Bool
has_newline s = any (λ c. c == 10 || c == 13) s

-- the bytes of an ASCII text
abbrev pub codes : String → Bytes
codes String.[] = []
codes (String.◌∷◌ c s) = code c ∷ codes s

abbrev pub corpus_prefix : String → String → Bytes
corpus_prefix arch section =
    codes "[arch=" ++ (codes arch ++ (codes " section=" ++ (codes section ++ codes "] ")))

abbrev pub corpus_line : String → String → Bytes → Bytes
corpus_line arch section s =
    corpus_prefix arch section ++ ((if has_newline s then sanitize_line s else s) ++ 10 ∷ [])

abbrev pub write_strings : String → String → List Bytes → Bytes
write_strings arch section [] = []
write_strings arch section (s ∷ rest) =
    corpus_line arch section s ++ write_strings arch section rest

abbrev pub write_sections : String → Strings → Bytes
write_sections arch [] = []
write_sections arch ((section, strs) ∷ rest) =
    write_strings arch section strs ++ write_sections arch rest

abbrev pub encrypted_line : String → Bytes
encrypted_line arch =
    codes "[arch="
    ++ (codes arch
        ++ (codes " section=__ENCRYPTED__] FairPlay cryptid!=0; string extraction skipped"
            ++ 10 ∷ []))

abbrev pub write_slices : List ArchStrings → Bytes
write_slices [] = []
write_slices (sl ∷ rest) =
    (if sl.is_encrypted then encrypted_line sl.arch else write_sections sl.arch sl.strings)
    ++ write_slices rest

unfoldable pub write_corpus : Option BinaryStrings → Bytes
write_corpus none = []
write_corpus (some bs) = write_slices bs.slices

pub record DylibTexts : Type 0 where
  pub trim_prefix : String → String → String
  pub has_prefix : String → String → Bool
  -- the text before the first ".framework/", if there is one
  pub before_framework : String → Option String
  pub base : String → String

pub record ImportedDylib : Type 0 where
  pub install_name : String
  pub name : String

module _ (texts : DylibTexts) where
  open texts use {trim_prefix, has_prefix, before_framework, base}

  abbrev framework_name : String → Option String → String
  framework_name p none = base p
  framework_name p (some framework) = base framework

  unfoldable pub dylib_base_name : String → String
  dylib_base_name install_name =
      let p =
        trim_prefix (trim_prefix (trim_prefix install_name "@rpath/") "@loader_path/")
          "@executable_path/" in
      framework_name p (before_framework p)

  unfoldable pub is_system_dylib : String → Bool
  unfolding dylib_base_name
  is_system_dylib install_name =
      has_prefix install_name "/System/"
      || has_prefix install_name "/usr/lib/"
      || has_prefix install_name "/Library/Frameworks/"
      || has_prefix (dylib_base_name install_name) "libswift"

  -- `out` is `seen`, too
  abbrev pub named : String → List ImportedDylib → Bool
  named name out = any (λ d. str_eq d.name name) out

  abbrev pub collect : List String → List ImportedDylib → List ImportedDylib
  collect [] out = out
  collect (install_name ∷ rest) out =
      let name = dylib_base_name install_name in
      collect rest (
        if str_eq install_name ""
          || is_system_dylib install_name
          || str_eq name ""
          || named name out
        then out
        else out ++ record { install_name = install_name; name = name } ∷ [])

  abbrev collect_arches : List MachoFile → List ImportedDylib → List ImportedDylib
  collect_arches [] out = out
  collect_arches (f ∷ rest) out = collect_arches rest (collect f.imported_libraries out)

  unfoldable pub extract_imported_dylibs : Image → Option (List ImportedDylib)
  unfolding is_system_dylib
  extract_imported_dylibs (fat arches) = some (collect_arches arches [])
  extract_imported_dylibs (thin f) = some (collect f.imported_libraries [])
  extract_imported_dylibs unreadable = none
