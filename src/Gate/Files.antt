-- ===== src/Gate/Files.antt =====
-- A baseline as the JSON file of morf/gate/gate.go: `MarshalJSON`, `UnmarshalJSON`, `LoadBaseline` and
-- `Save`. The calls of encoding/json, sort and os are arguments.
use morf.Prelude.{
  ◌≡◌, refl, ◌∙◌, String, Bool, true, false, ◌||◌, Option, none, some, List, [], ◌∷◌, Option-cases,
  arith, inl, inr,
}
use morf.Gate.{Baseline, Labels, is_known, has, with_label}
use morf.Gate.Sets.{has-with_label}

pub record BaselineJson : Type 0 where
  pub fingerprints : List String
  pub allowed_fingerprints : List String
  pub allowed_types : List String

-- What the Go library promises: a file that was written can be read, decoding reverses encoding, and
-- sorting keeps the members.
pub record Files : Type 1 where
  pub Disk : Type 0
  pub Bytes : Type 0
  pub is_not_exist : String → Disk → Bool
  pub read_file : String → Disk → Option Bytes
  pub write_file : String → Bytes → Disk → Bool × Disk
  pub marshal_indent : BaselineJson → Option Bytes
  pub unmarshal : Bytes → Option BaselineJson
  pub sort_strings : List String → List String
  pub write_file-exists :
      (path : String) (bytes : Bytes) (d : Disk)
      → (write_file path bytes d).0 ≡ true
      → is_not_exist path (write_file path bytes d).1 ≡ false
  pub write_file-reads :
      (path : String) (bytes : Bytes) (d : Disk)
      → (write_file path bytes d).0 ≡ true
      → read_file path (write_file path bytes d).1 ≡ some bytes
  pub unmarshal-marshal_indent :
      (json : BaselineJson) (bytes : Bytes)
      → marshal_indent json ≡ some bytes
      → unmarshal bytes ≡ some json
  pub sort_strings-has :
      (labels : List String) (x : String) → has (sort_strings labels) x ≡ has labels x

abbrev pub set_loop : List String → Labels → Labels
set_loop [] out = out
set_loop (v ∷ rest) out = set_loop rest (with_label v out)

unfoldable pub slice_to_set : List String → Labels
slice_to_set labels = set_loop labels []

module _ (files : Files) where
  unfoldable pub set_to_sorted_slice : Labels → List String
  set_to_sorted_slice labels = files.sort_strings labels

  unfoldable pub marshal_baseline : Baseline → Option files.Bytes
  unfolding set_to_sorted_slice
  marshal_baseline b = files.marshal_indent (record {
    fingerprints = set_to_sorted_slice b.fingerprints;
    allowed_fingerprints = set_to_sorted_slice b.allowed_fingerprints;
    allowed_types = set_to_sorted_slice b.allowed_types;
  })

  abbrev pub decoded : Option BaselineJson → Option Baseline
  decoded none = none
  decoded (some json) = some (record {
    fingerprints = slice_to_set json.fingerprints;
    allowed_fingerprints = slice_to_set json.allowed_fingerprints;
    allowed_types = slice_to_set json.allowed_types;
  })

  unfoldable pub unmarshal_baseline : files.Bytes → Option Baseline
  unmarshal_baseline bytes = decoded (files.unmarshal bytes)

  unfoldable pub load_baseline : String → files.Disk → Option Baseline
  unfolding unmarshal_baseline
  load_baseline path d = elim (files.read_file path d) [
    | none ↦ none
    | some bytes ↦ unmarshal_baseline bytes
  ]

  -- whether the baseline was written, and the disk after it
  unfoldable pub save : String → Baseline → files.Disk → Bool × files.Disk
  unfolding marshal_baseline
  save path b d = elim (marshal_baseline b) [
    | none ↦ (false, d)
    | some bytes ↦ files.write_file path bytes d
  ]

  set_loop-has :
      (labels : List String) (out : Labels) (x : String)
      → has (set_loop labels out) x ≡ has labels x || has out x
  set_loop-has [] out x = refl
  set_loop-has (v ∷ rest) out x =
      set_loop-has rest (with_label v out) x ∙ rw (has-with_label v x out) (ground arith)

  slice-has :
      (labels : Labels) (x : String)
      → has (slice_to_set (set_to_sorted_slice labels)) x ≡ has labels x
  unfolding slice_to_set set_to_sorted_slice
  slice-has labels x =
      set_loop-has (files.sort_strings labels) [] x
      ∙ rw (files.sort_strings-has labels x) (ground arith)

  -- the baseline that a saved file is read back as
  abbrev pub reread : Baseline → Baseline
  reread b = record {
    fingerprints = slice_to_set (set_to_sorted_slice b.fingerprints);
    allowed_fingerprints = slice_to_set (set_to_sorted_slice b.allowed_fingerprints);
    allowed_types = slice_to_set (set_to_sorted_slice b.allowed_types);
  }

  pub save-loads :
      (path : String) (b : Baseline) (d : files.Disk)
      → (save path b d).0 ≡ true
      → (files.is_not_exist path (save path b d).1 ≡ false)
        × (load_baseline path (save path b d).1 ≡ some (reread b))
  unfolding save load_baseline marshal_baseline unmarshal_baseline
  save-loads path b d h = elim (Option-cases (marshal_baseline b)) [
    | inl e ↦ absurd (ground (arith, h, e))
    | inr (bytes, e) ↦
        let written : (files.write_file path bytes d).0 ≡ true = ground (arith, e, h) in
        rw
          (
            save,
            e,
            files.write_file-exists path bytes d written,
            load_baseline,
            files.write_file-reads path bytes d written,
            unmarshal_baseline,
            files.unmarshal-marshal_indent _ bytes e,
          )
          (refl, refl)
  ]

  -- A known finding stays known through the file.
  pub is_known-reread :
      (b : Baseline) (fp secret_type : String)
      → is_known (some (reread b)) fp secret_type ≡ is_known (some b) fp secret_type
  unfolding is_known
  is_known-reread b fp secret_type =
      rw
        (
          slice-has b.fingerprints fp,
          slice-has b.allowed_fingerprints fp,
          slice-has b.allowed_types secret_type,
        )
        refl

  pub reread-fingerprints :
      (b : Baseline) (fp : String) → has (reread b).fingerprints fp ≡ has b.fingerprints fp
  reread-fingerprints b fp = slice-has b.fingerprints fp
