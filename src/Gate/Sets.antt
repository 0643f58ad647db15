-- ===== src/Gate/Sets.antt =====
-- The sets of morf/gate/gate.go by their membership.
use morf.Prelude.{
  ◌≡◌, refl, sym, ap, ◌∙◌, String, true, ◌||◌, str_eq, eq_iff, eq_refl, Bool-cases, inl, inr,
}
use morf.Gate.{Labels, has, with_label}

pub has-with_label :
    (x y : String) (labels : Labels) → has (with_label x labels) y ≡ str_eq x y || has labels y
has-with_label x y labels = elim (Bool-cases (has labels x)) [
  | inl e ↦ elim (Bool-cases (str_eq x y)) [
    | inl d ↦ rw (e, d) (ap (has labels) (sym ((eq_iff x y).0 d)) ∙ e)
    | inr d ↦ rw (e, d) refl
  ]
  | inr e ↦ rw e refl
]

pub has-with_label_same : (x : String) (labels : Labels) → has (with_label x labels) x ≡ true
has-with_label_same x labels = has-with_label x x labels ∙ rw (eq_refl x) refl
