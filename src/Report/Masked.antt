-- ===== src/Report/Masked.antt =====
-- What the masked results of morf/report/sarif.go depend on.
use morf.Prelude.{◌≡◌, refl, ap, String, true, false, ℕ, List, str_eq}
use morf.Report.{mask_secret}
use morf.Report.Json.{
  Value, Items, Fields, str, array, object, no_element, element, field, at_key, each, mask_text,
  mask_item, mask_list, mask_data, mask_envelope,
}

-- two objects that differ at most in the value under a key, where `R` relates the two values
pub data Differ (key : String) (R : Value → Value → Type 0) : Fields → Fields → Type 0 where
  same : (m : Fields) → Differ key R m m
  at_it :
      (k : String) {v w : Value} (rest : Fields)
      → str_eq k key ≡ true
      → R v w
      → Differ key R (field k v rest) (field k w rest)
  after :
      (k : String) (v : Value) {m n : Fields}
      → str_eq k key ≡ false
      → Differ key R m n
      → Differ key R (field k v m) (field k v n)

pub data Objects (R : Fields → Fields → Type 0) : Value → Value → Type 0 where
  objects : {m n : Fields} → R m n → Objects R (object m) (object n)

pub data Each (R : Value → Value → Type 0) : Items → Items → Type 0 where
  no_items : Each R no_element no_element
  related :
      {v w : Value} {xs ys : Items} → R v w → Each R xs ys → Each R (element v xs) (element w ys)
  equal : (v : Value) {xs ys : Items} → Each R xs ys → Each R (element v xs) (element v ys)

pub data Arrays (R : Items → Items → Type 0) : Value → Value → Type 0 where
  arrays : {xs ys : Items} → R xs ys → Arrays R (array xs) (array ys)

-- two texts with one preview
pub data SamePreview : Value → Value → Type 0 where
  same_preview : (s t : List ℕ) → mask_secret s ≡ mask_secret t → SamePreview (str s) (str t)

-- two lists of findings that differ only in secrets with one preview
abbrev pub SameFindings : Value → Value → Type 0
SameFindings = Arrays (Each (Objects (Differ "secretString" SamePreview)))

at_key-Differ :
    (key : String) (R : Value → Value → Type 0) (f : Value → Value)
    → ((v w : Value) → R v w → f v ≡ f w)
    → {m n : Fields} → Differ key R m n
    → at_key key f m ≡ at_key key f n
at_key-Differ key R f h (same m) = refl
at_key-Differ key R f h (at_it k {v} {w} rest e r) = rw e (ap (λ x. field k x rest) (h v w r))
at_key-Differ key R f h (after k v e d) = rw e (ap (λ m. field k v m) (at_key-Differ key R f h d))

each-Each :
    (R : Value → Value → Type 0) (f : Value → Value)
    → ((v w : Value) → R v w → f v ≡ f w)
    → {xs ys : Items} → Each R xs ys
    → each f xs ≡ each f ys
each-Each R f h no_items = refl
each-Each R f h (related {v} {w} r rs) = λ i. element (h v w r i) (each-Each R f h rs i)
each-Each R f h (equal v rs) = ap (λ xs. element (f v) xs) (each-Each R f h rs)

mask_text-SamePreview : (v w : Value) → SamePreview v w → mask_text v ≡ mask_text w
mask_text-SamePreview v w (same_preview s t e) = ap str e

mask_item-Objects :
    (v w : Value) → Objects (Differ "secretString" SamePreview) v w → mask_item v ≡ mask_item w
mask_item-Objects v w (objects d) =
    ap object (at_key-Differ "secretString" SamePreview mask_text mask_text-SamePreview d)

mask_list-SameFindings : (v w : Value) → SameFindings v w → mask_list v ≡ mask_list w
mask_list-SameFindings v w (arrays rs) =
    ap array
      (each-Each (Objects (Differ "secretString" SamePreview)) mask_item mask_item-Objects rs)

mask_data-Objects :
    (v w : Value) → Objects (Differ "secrets" SameFindings) v w → mask_data v ≡ mask_data w
mask_data-Objects v w (objects d) =
    ap object (at_key-Differ "secrets" SameFindings mask_list mask_list-SameFindings d)

-- Two stored results that differ only in the secret strings of their findings, and there in secrets
-- with one preview, are masked to the same result: nothing else of a secret is passed on.
pub mask_envelope-hides :
    (env env' : Fields)
    → Differ "data" (Objects (Differ "secrets" SameFindings)) env env'
    → mask_envelope env ≡ mask_envelope env'
unfolding mask_envelope
mask_envelope-hides env env' d =
    at_key-Differ "data" (Objects (Differ "secrets" SameFindings)) mask_data mask_data-Objects d
