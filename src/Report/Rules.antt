-- ===== src/Report/Rules.antt =====
-- The rules of the SARIF document of morf/report/sarif.go.
use morf.Prelude.{
  ℕ, ◌≡◌, refl, sym, ap, ◌∙◌, String, Bool, List, [], ◌∷◌, ◌++◌, map, append-nil, append_assoc,
  if◌then◌else◌, str_eq, any, Bool-cases, inl, inr,
}
use morf.Finding.{SecretModel}
use morf.Exposure.{PlatformFinding}
use morf.Report.{
  Rule, SarifRun, SarifResult, contains_string, tag, add_rule, secret_rule, platform_rule,
  secret_result, platform_result, add_secrets, add_platform, encode_sarif_with_findings,
}

-- the first occurrence of each text that is not among those `seen`
abbrev pub first_seen : List String → List String → List String
first_seen seen [] = []
first_seen seen (x ∷ xs) =
    if any (λ y. str_eq y x) seen then first_seen seen xs else x ∷ first_seen (seen ++ x ∷ []) xs

abbrev pub ids : List Rule → List String
ids rules = map (λ (r : Rule). r.id) rules

tag-id : (masvs_id : String) (r : Rule) → (tag masvs_id r).id ≡ r.id
tag-id masvs_id r = elim (Bool-cases (str_eq masvs_id "")) [
  | inl e ↦ rw e refl
  | inr e ↦ elim (Bool-cases (contains_string r.tags masvs_id)) [
    | inl k ↦ rw (e, k) refl
    | inr k ↦ rw (e, k) refl
  ]
]

ids-add_rule :
    (id name description masvs_id : String) (rules : List Rule)
    → ids (add_rule id name description masvs_id rules)
      ≡ (if any (λ y. str_eq y id) (ids rules) then ids rules else ids rules ++ id ∷ [])
ids-add_rule id name description masvs_id [] = refl
ids-add_rule id name description masvs_id (r ∷ rules) = elim (Bool-cases (str_eq r.id id)) [
  | inl e ↦ rw e (ap (λ x. x ∷ ids rules) (tag-id masvs_id r))
  | inr e ↦ elim (Bool-cases (any (λ y. str_eq y id) (ids rules))) [
    | inl k ↦
        rw (e, k)
          (ap (λ xs. r.id ∷ xs) (ids-add_rule id name description masvs_id rules ∙ rw k refl))
    | inr k ↦
        rw (e, k)
          (ap (λ xs. r.id ∷ xs) (ids-add_rule id name description masvs_id rules ∙ rw k refl))
  ]
]

-- one more id, seen or not
grown :
    (seen xs : List String) (x : String)
    → let seen' = (if any (λ y. str_eq y x) seen then seen else seen ++ x ∷ []) in
      seen' ++ first_seen seen' xs ≡ seen ++ first_seen seen (x ∷ xs)
grown seen xs x = elim (Bool-cases (any (λ y. str_eq y x) seen)) [
  | inl e ↦ rw e refl
  | inr e ↦ rw e (append_assoc seen (x ∷ []) (first_seen (seen ++ x ∷ []) xs))
]

first_seen-append :
    (seen xs ys : List String)
    → seen ++ first_seen seen (xs ++ ys)
      ≡ (seen ++ first_seen seen xs) ++ first_seen (seen ++ first_seen seen xs) ys
first_seen-append seen [] ys = rw (append-nil seen) refl
first_seen-append seen (x ∷ xs) ys =
    let seen' = (if any (λ y. str_eq y x) seen then seen else seen ++ x ∷ []) in
    sym (grown seen (xs ++ ys) x)
    ∙ first_seen-append seen' xs ys
    ∙ ap (λ s. s ++ first_seen s ys) (grown seen xs x)

abbrev pub secret_ids : {F : Type 0} → List (SecretModel F) → List String
secret_ids {F} secrets = map (λ (s : SecretModel F). s.secret_type) secrets

abbrev pub platform_ids : List PlatformFinding → List String
platform_ids pfs = map (λ (pf : PlatformFinding). pf.rule_id) pfs

module _ {F : Type 0} (is_zero : F → Bool) (runes_of : String → List ℕ)
    (text_of : List ℕ → String) where
  abbrev IsGrown : List String → List (SarifResult F) → SarifRun F → SarifRun F → Type 0
  IsGrown xs results run run' =
      (ids run'.rules ≡ ids run.rules ++ first_seen (ids run.rules) xs)
      × (run'.results ≡ run.results ++ results)

  add_secrets-IsGrown :
      (secrets : List (SecretModel F)) (run : SarifRun F)
      → IsGrown
          (secret_ids secrets)
          (map (secret_result is_zero runes_of text_of) secrets)
          run
          (add_secrets is_zero runes_of text_of secrets run)
  add_secrets-IsGrown [] run = (sym (append-nil _), sym (append-nil _))
  add_secrets-IsGrown (s ∷ rest) run =
      let run' : SarifRun F = record run {
        rules = secret_rule s run.rules;
        results = run.results ++ secret_result is_zero runes_of text_of s ∷ [];
      } in
      let (rules, results) = add_secrets-IsGrown rest run' in
      (
        rules
            ∙ ap (λ seen. seen ++ first_seen seen (secret_ids rest))
                (ids-add_rule _ _ _ _ run.rules)
            ∙ grown (ids run.rules) (secret_ids rest) s.secret_type,
        results ∙ append_assoc run.results _ _,
      )

  add_platform-IsGrown :
      (pfs : List PlatformFinding) (run : SarifRun F)
      → IsGrown
          (platform_ids pfs)
          (map (platform_result is_zero runes_of text_of) pfs)
          run
          (add_platform is_zero runes_of text_of pfs run)
  add_platform-IsGrown [] run = (sym (append-nil _), sym (append-nil _))
  add_platform-IsGrown (pf ∷ rest) run =
      let run' : SarifRun F = record run {
        rules = platform_rule pf run.rules;
        results = run.results ++ platform_result is_zero runes_of text_of pf ∷ [];
      } in
      let (rules, results) = add_platform-IsGrown rest run' in
      (
        rules
            ∙ ap (λ seen. seen ++ first_seen seen (platform_ids rest))
                (ids-add_rule _ _ _ _ run.rules)
            ∙ grown (ids run.rules) (platform_ids rest) pf.rule_id,
        results ∙ append_assoc run.results _ _,
      )

  -- The document has one result for each finding, the secrets first, in order. It has one rule for each
  -- secret type and each rule id of a platform finding, in the order in which they are first seen.
  pub encode_sarif_with_findings-rules :
      (target platform : String) (secrets : List (SecretModel F)) (pfs : List PlatformFinding)
      → let run = encode_sarif_with_findings is_zero runes_of text_of target platform secrets pfs in
        (ids run.rules ≡ first_seen [] (secret_ids secrets ++ platform_ids pfs))
        × (run.results
            ≡ map (secret_result is_zero runes_of text_of) secrets
              ++ map (platform_result is_zero runes_of text_of) pfs)
  unfolding encode_sarif_with_findings
  encode_sarif_with_findings-rules target platform secrets pfs =
      let start : SarifRun F = record {
        rules = [];
        results = [];
        target = target;
        platform = platform;
      } in
      let run = add_secrets is_zero runes_of text_of secrets start in
      let (rules, results) = add_secrets-IsGrown secrets start in
      let (rules', results') = add_platform-IsGrown pfs run in
      (
        rules'
            ∙ ap (λ seen. seen ++ first_seen seen (platform_ids pfs)) rules
            ∙ sym (first_seen-append [] (secret_ids secrets) (platform_ids pfs)),
        results' ∙ ap (λ rs. rs ++ map (platform_result is_zero runes_of text_of) pfs) results,
      )
