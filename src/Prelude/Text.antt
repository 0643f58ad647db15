-- ===== src/Prelude/Text.antt =====
-- Equality of texts, and texts that differ at their beginning.
use Prim.Native.String.{String, ◌++◌, len, slice}
use mathlib.Core.Path.{◌≡◌, ap, sym, ◌∙◌}
use mathlib.Core.Logic.{◌≢◌, inl, inr}
use mathlib.Core.Bool.{true, false}
use text.Mathlib.Text.{◌==◌}
use text.Mathlib.TextEquality.{eq_iff}
use text.Mathlib.TextLemmas.{append_cancel_left}
use text.Mathlib.TextPositions.{slice-append_left, eq_refl}
use morf.Prelude.Tests.{Bool-cases}

pub str_eq_of_ne : (s t : String) → s ≢ t → (s == t) ≡ false
str_eq_of_ne s t h = elim (Bool-cases (s == t)) [
  | inl e ↦ absurd (h ((eq_iff s t).0 e))
  | inr e ↦ e
]

pub ne_of_str_eq : (s t : String) → (s == t) ≡ false → s ≢ t
ne_of_str_eq s t h e = cc (eq_refl s, ap (λ x. s == x) e)

-- The first bytes decide: `p` and `q` have one length and differ.
pub str_eq-append_ne :
    (p q s t : String) → len p ≡ len q → (p == q) ≡ false → (p ++ s == q ++ t) ≡ false
str_eq-append_ne p q s t same_len h = str_eq_of_ne (p ++ s) (q ++ t) λ e. ne_of_str_eq p q h (
    sym (slice-append_left p s)
    ∙ ap (λ x. slice x 0 (len p)) e
    ∙ ap (λ n. slice (q ++ t) 0 n) same_len
    ∙ slice-append_left q t)

-- A common beginning does not.
pub str_eq-append : (p s t : String) → (p ++ s == p ++ t) ≡ (s == t)
str_eq-append p s t = elim (Bool-cases (s == t)) [
  | inl e ↦ rw (e, (eq_iff s t).0 e) (eq_refl _)
  | inr e ↦ rw e (str_eq_of_ne _ _ λ h. ne_of_str_eq s t e (append_cancel_left p s t h))
]

pub str_eq_other : (s a b : String) → (s == a) ≡ true → (a == b) ≡ false → (s == b) ≡ false
str_eq_other s a b e h = ap (λ x. x == b) ((eq_iff s a).0 e) ∙ h
