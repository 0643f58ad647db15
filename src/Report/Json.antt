-- ===== src/Report/Json.antt =====
-- morf/report/sarif.go: `MaskResultJSON` and `MaskComparisonJSON`, on JSON as encoding/json decodes it.
-- The decoder and the encoder are arguments.
use morf.Prelude.{ℕ, String, Bool, Option, none, some, List, if◌then◌else◌, str_eq}
use morf.Report.{mask_secret}

mutual
  pub data Value : Type 0 where
    null : Value
    bool : Bool → Value
    -- its digits
    num : String → Value
    -- its runes
    str : List ℕ → Value
    object : Fields → Value
    array : Items → Value

  pub data Fields : Type 0 where
    end : Fields
    field : String → Value → Fields → Fields

  pub data Items : Type 0 where
    no_element : Items
    element : Value → Items → Items

-- the value under a key, changed where there is one
abbrev pub at_key : String → (Value → Value) → Fields → Fields
at_key key f end = end
at_key key f (field k v rest) =
    if str_eq k key then field k (f v) rest else field k v (at_key key f rest)

abbrev pub each : (Value → Value) → Items → Items
each f no_element = no_element
each f (element v rest) = element (f v) (each f rest)

abbrev pub mask_text : Value → Value
mask_text (str s) = str (mask_secret s)
mask_text v = v

abbrev pub mask_item : Value → Value
mask_item (object m) = object (at_key "secretString" mask_text m)
mask_item v = v

abbrev pub mask_list : Value → Value
mask_list (array secrets) = array (each mask_item secrets)
mask_list v = v

abbrev pub mask_data : Value → Value
mask_data (object contents) = object (at_key "secrets" mask_list contents)
mask_data v = v

unfoldable pub mask_envelope : Fields → Fields
mask_envelope env = at_key "data" mask_data env

unfoldable pub mask_comparison : Fields → Fields
mask_comparison env =
    at_key "unchanged" mask_list (at_key "removed" mask_list (at_key "added" mask_list env))

module _ {Raw : Type 0} (unmarshal : Raw → Option Fields) (marshal : Fields → Option Raw) where
  unfoldable pub mask_result_json : Raw → Option Raw
  unfolding mask_envelope
  mask_result_json raw = elim (unmarshal raw) [
    | none ↦ none
    | some env ↦ marshal (mask_envelope env)
  ]

  unfoldable pub mask_comparison_json : Raw → Option Raw
  unfolding mask_comparison
  mask_comparison_json raw = elim (unmarshal raw) [
    | none ↦ none
    | some env ↦ marshal (mask_comparison env)
  ]
