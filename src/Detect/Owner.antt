-- ===== src/Detect/Owner.antt =====
-- Why the group map of `BuildCombinedRegex` in morf/detect/detect.go names the pattern that matched.
use morf.Prelude.{
  ℕ, zero, suc, ◌+◌, ◌<◌, ◌≡◌, refl, sym, ◌∙◌, Option, none, some, List, [], ◌∷◌, ◌++◌, append-nil,
  append_assoc, Option-cases, inl, inr, length, arith, lt→ltb,
}
use morf.Detect.Patterns.{
  Regexps, Group, PatternInfo, Union, repeat, union_loop, add_alternative, no_union,
}
use morf.Detect.Lines.{owner, tail}

abbrev pub absent : ℕ → List Group
absent n = repeat n none

module _ (regexps : Regexps) where
  -- The groups of a match of "(p0)|(p1)|...", from pattern number `i` on, when alternative `k` is the
  -- one that matched: its own group took part, and no group of an alternative before it did.
  pub data Alternation : List (PatternInfo regexps) → ℕ → ℕ → List Group → Type 0 where
    left_out :
        (p : PatternInfo regexps) {ps : List (PatternInfo regexps)} {i k : ℕ} {groups : List Group}
        → p.compiled ≡ none
        → Alternation ps (suc i) k groups
        → Alternation (p ∷ ps) i k groups
    earlier :
        (p : PatternInfo regexps) (r : regexps.Regex) {ps : List (PatternInfo regexps)} {i k : ℕ}
        {groups : List Group}
        → p.compiled ≡ some r
        → Alternation ps (suc i) k groups
        → Alternation (p ∷ ps) i k (absent (suc (regexps.num_subexp r)) ++ groups)
    chosen :
        (p : PatternInfo regexps) (r : regexps.Regex) {ps : List (PatternInfo regexps)} {i : ℕ}
        (span : ℕ × ℕ) (rest : List Group)
        → p.compiled ≡ some r
        → Alternation (p ∷ ps) i i (some span ∷ rest)

  -- the owners of the groups of the patterns from number `i` on
  abbrev owners_of : ℕ → Option regexps.Regex → List (Option ℕ)
  owners_of i none = []
  owners_of i (some r) = repeat (suc (regexps.num_subexp r)) (some i)

  abbrev owners : ℕ → List (PatternInfo regexps) → List (Option ℕ)
  owners i [] = []
  owners i (p ∷ ps) = owners_of i p.compiled ++ owners (suc i) ps

  union_loop-groups :
      (i : ℕ) (ps : List (PatternInfo regexps)) (u : Union regexps)
      → (union_loop regexps i ps u).groups ≡ u.groups ++ owners i ps
  union_loop-groups i [] u = sym (append-nil u.groups)
  union_loop-groups i (p ∷ ps) u = elim (Option-cases p.compiled) [
    | inl e ↦ rw e (union_loop-groups (suc i) ps u)
    | inr (r, e) ↦ rw e (
        union_loop-groups (suc i) ps (add_alternative regexps i p.regex r u)
        ∙ append_assoc u.groups (repeat (suc (regexps.num_subexp r)) (some i)) _)
  ]

  owner-absent :
      (n m : ℕ) (o : Option ℕ) (groups : List Group) (rest : List (Option ℕ))
      → owner n (absent m ++ groups) (repeat m o ++ rest) ≡ owner n groups rest
  owner-absent n zero o groups rest = refl
  owner-absent n (suc m) o groups rest = owner-absent n m o groups rest

  Alternation-lt :
      {ps : List (PatternInfo regexps)} {i k : ℕ} {groups : List Group}
      → Alternation ps i k groups
      → k < i + length ps
  Alternation-lt (left_out p e a) = omega (arith, Alternation-lt a)
  Alternation-lt (earlier p r e a) = omega (arith, Alternation-lt a)
  Alternation-lt (chosen p r span rest e) = omega arith

  owner-owners :
      (n : ℕ) {ps : List (PatternInfo regexps)} {i k : ℕ} {groups : List Group}
      → Alternation ps i k groups
      → k < n
      → owner n groups (owners i ps) ≡ some k
  owner-owners n (left_out p e a) h = rw e (owner-owners n a h)
  owner-owners n (earlier p r e a) h =
      rw e (owner-absent n (suc (regexps.num_subexp r)) _ _ _ ∙ owner-owners n a h)
  owner-owners n (chosen p r span rest e) h = rw e (rw (lt→ltb _ _ h) refl)

  -- The first group that took part in a match of the union leads to the alternative that matched.
  pub owner-Alternation :
      (ps : List (PatternInfo regexps)) (k : ℕ) (groups : List Group)
      → Alternation ps 0 k groups
      → owner (length ps) groups (tail (union_loop regexps 0 ps (no_union regexps)).groups) ≡ some k
  owner-Alternation ps k groups a =
      rw (union_loop-groups 0 ps (no_union regexps))
        (owner-owners (length ps) a (omega (arith, Alternation-lt a)))
