-- ===== src/Detect/Sanitize.antt =====
-- `SanitizeSecrets` of morf/detect/detect.go, seen through the key of one finding.
use morf.Prelude.{
  ◌≡◌, refl, sym, ap, ◌∙◌, String, Bool, true, false, ◌&&◌, List, [], ◌∷◌, ◌++◌, append-nil,
  append_assoc, if◌then◌else◌, str_eq, eq_iff, select, take, arith, Bool-cases, inl, inr,
}
use morf.Finding.{SecretModel}
use morf.Detect.{Seen, see, sanitize_loop, sanitize_secrets}

module _ {F : Type 0} (t v : String) where
  -- a finding of type `t` with the value `v`
  abbrev pub has_key : SecretModel F → Bool
  has_key s = str_eq t s.secret_type && str_eq v s.secret_string

  abbrev unless_seen : Bool → List (SecretModel F) → List (SecretModel F)
  unless_seen seen xs = if seen then [] else take 1 (select has_key xs)

  seen-same_key :
      (s : SecretModel F) (seen : Seen)
      → has_key s ≡ true
      → seen s.secret_type s.secret_string ≡ seen t v
  seen-same_key s seen h =
      let type_eq : str_eq t s.secret_type ≡ true = ground arith in
      let value_eq : str_eq v s.secret_string ≡ true = ground arith in
      cc ((eq_iff t s.secret_type).0 type_eq, (eq_iff v s.secret_string).0 value_eq)

  select-append :
      (xs ys : List (SecretModel F))
      → select has_key (xs ++ ys) ≡ select has_key xs ++ select has_key ys
  select-append [] ys = refl
  select-append (x ∷ xs) ys = elim (Bool-cases (has_key x)) [
    | inl e ↦ rw e (ap (λ zs. x ∷ zs) (select-append xs ys))
    | inr e ↦ rw e (select-append xs ys)
  ]

  unless_seen-nil : (b : Bool) → unless_seen b [] ≡ []
  unless_seen-nil true = refl
  unless_seen-nil false = refl

  skip :
      (s : SecretModel F) (rest : List (SecretModel F)) (seen : Seen)
      → seen s.secret_type s.secret_string ≡ true
      → unless_seen (seen t v) rest ≡ unless_seen (seen t v) (s ∷ rest)
  skip s rest seen e = elim (Bool-cases (has_key s)) [
    | inl h ↦ rw (sym (seen-same_key s seen h), e) refl
    | inr h ↦ rw h refl
  ]

  -- a finding of the key that is kept leaves nothing to keep
  keep :
      (s : SecretModel F) (rest : List (SecretModel F)) (seen : Seen)
      → seen s.secret_type s.secret_string ≡ false
      → select has_key (s ∷ []) ++ unless_seen (see s.secret_type s.secret_string seen t v) rest
        ≡ unless_seen (seen t v) (s ∷ rest)
  keep s rest seen e = elim (Bool-cases (has_key s)) [
    | inl h ↦ rw (h, sym (seen-same_key s seen h), e) refl
    | inr h ↦ rw h refl
  ]

  loop-first :
      (seen : Seen) (xs out : List (SecretModel F))
      → select has_key (sanitize_loop seen xs out) ≡ select has_key out ++ unless_seen (seen t v) xs
  unfolding sanitize_loop
  loop-first seen [] out = sym (
      ap (λ ys. select has_key out ++ ys) (unless_seen-nil (seen t v))
      ∙ append-nil (select has_key out))
  loop-first seen (s ∷ rest) out = elim (Bool-cases (seen s.secret_type s.secret_string)) [
    | inl e ↦
        rw (sanitize_loop, e)
          (loop-first seen rest out ∙ ap (λ ys. select has_key out ++ ys) (skip s rest seen e))
    | inr e ↦
        rw (sanitize_loop, e)
          (loop-first (see s.secret_type s.secret_string seen) rest (out ++ s ∷ [])
            ∙ rw (select-append out (s ∷ [])) (
                append_assoc (select has_key out) _ _
                ∙ ap (λ ys. select has_key out ++ ys) (keep s rest seen e)))
  ]

  -- Of the findings of one type and value, exactly the first is kept.
  pub sanitize_secrets-first :
      (xs : List (SecretModel F))
      → select has_key (sanitize_secrets xs) ≡ take 1 (select has_key xs)
  unfolding sanitize_secrets
  sanitize_secrets-first xs = loop-first (λ u w. false) xs []
