-- ===== src/Job/Plain.antt =====
-- A codec that meets the laws, for the concrete runs: numbers in unary, times and carriers likewise.
use Prim.Native.String.{String, [], ◌∷◌, count}
use Prim.Native.Char.{nul}
use text.Mathlib.TextLemmas.{length-cons, length-nil, cons≢nil}
use morf.Prelude.{ℕ, zero, suc, ◌-◌, ◌≡◌, refl, ap, ◌∙◌, arith, some, str_eq, false}
use morf.Prelude.Text.{str_eq_of_ne}
use morf.Job.{Codec}

abbrev strokes : ℕ → String
strokes zero = []
strokes (suc n) = nul ∷ strokes n

count-strokes : (n : ℕ) → count (strokes n) ≡ n
count-strokes zero = length-nil
count-strokes (suc n) = length-cons nul (strokes n) ∙ ap suc (count-strokes n)

pub count-stamp : (n : ℕ) → some (count (nul ∷ strokes n) - 1) ≡ some n
count-stamp n = ap some (omega (arith, length-cons nul (strokes n), count-strokes n))

pub stamp-ne_empty : (n : ℕ) → str_eq (nul ∷ strokes n) "" ≡ false
stamp-ne_empty n = str_eq_of_ne _ _ λ e. cons≢nil e

pub scan-strokes : (n : ℕ) → some (count (strokes n)) ≡ some n
scan-strokes n = ap some (count-strokes n)

abbrev pub plain : Codec
plain = record {
  Time = ℕ;
  zero_time = 0;
  to_second = λ t. t;
  format = λ t. nul ∷ strokes t;
  parse = λ s. some (count s - 1);
  print_int = strokes;
  scan_int = λ s. some (count s);
  Carrier = ℕ;
  no_carrier = 0;
  carrier_len = λ n. n;
  marshal = λ n. some (nul ∷ strokes n);
  unmarshal = λ s. some (count s - 1);
  parse-format = count-stamp;
  format-ne_empty = stamp-ne_empty;
  scan_int-print_int = scan-strokes;
  carrier_len-zero = λ n e. e;
  marshal_total = λ n. (nul ∷ strokes n, refl, count-stamp n, stamp-ne_empty n);
}
