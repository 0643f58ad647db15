-- ===== src/Ios.antt =====
-- morf/ios/macho.go: the strings of a Mach-O binary. The reader of the file format is an argument; a
-- text from the binary is its bytes. A map from labels lists its entries in the order in which they
-- were made.
pub mod Runs
pub mod Recall
pub mod Corpus
pub mod Tree
pub mod Unpack
mod Tests
use Prim.Native.String
use morf.Prelude.{
  ℕ, suc, ◌+◌, ◌-◌, String, Bool, true, false, not, ◌&&◌, ◌||◌, Option, none, some, List, [], ◌∷◌,
  ◌++◌, if◌then◌else◌, str_eq, ltb, leb, ◌==◌, length, take, drop, any,
}

abbrev pub Bytes : Type 0
Bytes = List ℕ

abbrev pub string_min_len : ℕ
string_min_len = 4

abbrev pub interesting_section_names : List String
interesting_section_names =
    "__cstring" ∷ "__const" ∷ "__rodata" ∷ "__oslogstring" ∷ "__cfstring" ∷ "__objc_methname"
    ∷ "__objc_classname" ∷ "__objc_methtype" ∷ "__objc_selrefs" ∷ "__swift5_reflstr"
    ∷ "__swift5_typeref" ∷ "__swift5_fieldmd" ∷ "__swift5_types" ∷ "__swift5_capture"
    ∷ "__swift5_builtin" ∷ "__swift5_assocty" ∷ "__swift5_proto" ∷ "__swift5_protos" ∷ []

pub record Section : Type 0 where
  pub seg : String
  pub name : String
  pub cstring_literals : Bool
  -- none if it cannot be read
  pub contents : Option Bytes

-- what the reader gives of one architecture
pub record MachoFile : Type 0 where
  pub cpu : String
  pub is_encrypted : Bool
  -- none if the helper for Swift's reflection strings fails
  pub swift_reflection_strings : Option (List Bytes)
  pub sections : List Section
  pub imported_libraries : List String

abbrev pub Strings : Type 0
Strings = List (String × List Bytes)

pub record ArchStrings : Type 0 where
  pub arch : String
  pub is_encrypted : Bool
  pub strings : Strings

pub record BinaryStrings : Type 0 where
  pub architectures : List String
  pub is_encrypted : Bool
  pub slices : List ArchStrings

abbrev pub is_printable_string_byte : ℕ → Bool
is_printable_string_byte b = b == 9 || (leb 32 b && leb b 126)

-- the run from `start` to `i`, if there is one and it is long enough
abbrev pub flush : Bytes → ℕ → Option ℕ → List Bytes
flush bytes i none = []
flush bytes i (some start) =
    if leb string_min_len (i - start) then take (i - start) (drop start bytes) ∷ [] else []

abbrev pub started : ℕ → Option ℕ → Option ℕ
started i none = some i
started i (some start) = some start

abbrev pub split_loop : Bytes → Bytes → ℕ → Option ℕ → List Bytes
split_loop bytes [] i start = flush bytes i start
split_loop bytes (b ∷ rest) i start =
    if is_printable_string_byte b
    then split_loop bytes rest (suc i) (started i start)
    else flush bytes i start ++ split_loop bytes rest (suc i) none

unfoldable pub split_nul_strings : Bytes → List Bytes
split_nul_strings bytes = split_loop bytes bytes 0 none

abbrev pub append_string : String → Bytes → Strings → Strings
append_string label s [] = (label, s ∷ []) ∷ []
append_string label s ((l, strs) ∷ rest) =
    if str_eq l label then (l, strs ++ s ∷ []) ∷ rest else (l, strs) ∷ append_string label s rest

abbrev pub append_all : String → List Bytes → Strings → Strings
append_all label [] strings = strings
append_all label (s ∷ rest) strings = append_all label rest (append_string label s strings)

abbrev long_enough : List Bytes → List Bytes
long_enough [] = []
long_enough (s ∷ rest) =
    if leb string_min_len (length s) then s ∷ long_enough rest else long_enough rest

abbrev pub reflstr_label : String
reflstr_label = "__TEXT.__swift5_reflstr"

-- the strings that the helper has given, and whether it has given any
abbrev pub reflection : Option (List Bytes) → Strings × Bool
reflection none = ([], false)
reflection (some []) = ([], false)
reflection (some (s ∷ rest)) = (append_all reflstr_label (long_enough (s ∷ rest)) [], true)

abbrev pub is_read : Bool → Section → Bool
is_read swift_refl_handled sec =
    (any (λ name. str_eq name sec.name) interesting_section_names || sec.cstring_literals)
    && not (swift_refl_handled && str_eq sec.seg "__TEXT" && str_eq sec.name "__swift5_reflstr")

abbrev pub label_of : Section → String
label_of sec = String.◌++◌ sec.seg (String.◌++◌ "." sec.name)

abbrev pub add_contents : String → Option Bytes → Strings → Strings
unfolding split_nul_strings
add_contents label none strings = strings
add_contents label (some bytes) strings = append_all label (split_nul_strings bytes) strings

abbrev pub add_sections : Bool → List Section → Strings → Strings
unfolding split_nul_strings
add_sections handled [] strings = strings
add_sections handled (sec ∷ rest) strings =
    add_sections handled rest
      (if is_read handled sec then add_contents (label_of sec) sec.contents strings else strings)

unfoldable pub extract_slice_strings : MachoFile → String → ArchStrings
unfolding split_nul_strings
extract_slice_strings f arch =
    let (strings, handled) = reflection f.swift_reflection_strings in
    record {
      arch = arch;
      is_encrypted = f.is_encrypted;
      strings = if f.is_encrypted then [] else add_sections handled f.sections strings;
    }

-- a file that is thin or holds several architectures, or neither
pub data Image : Type 0 where
  fat : List MachoFile → Image
  thin : MachoFile → Image
  unreadable : Image

abbrev add_arches : List MachoFile → BinaryStrings → BinaryStrings
add_arches [] res = res
add_arches (f ∷ rest) res =
    let slice = extract_slice_strings f f.cpu in
    add_arches rest (record {
      architectures = res.architectures ++ f.cpu ∷ [];
      is_encrypted = slice.is_encrypted || res.is_encrypted;
      slices = res.slices ++ slice ∷ [];
    })

abbrev no_strings : BinaryStrings
no_strings = record { architectures = []; is_encrypted = false; slices = [] }

unfoldable pub extract_binary_strings : Image → Option BinaryStrings
unfolding extract_slice_strings
extract_binary_strings (fat arches) = some (add_arches arches no_strings)
extract_binary_strings (thin f) = some (add_arches (f ∷ []) no_strings)
extract_binary_strings unreadable = none
