-- ===== src/Exposure/Guards.antt =====
-- The findings of morf/apk/exposure.go whose tier is "keep".
use morf.Prelude.{
  ◌≡◌, refl, ap, ◌∙◌, String, Bool, not, ◌&&◌, ◌||◌, List, [], ◌∷◌, ◌++◌, map, str_eq, select,
  arith, Bool-cases, inl, inr,
}
use morf.Exposure.{
  PlatformFinding, severity_high, Filter, FilterData, Component, Provider, Manifest,
  new_exported_finding, provider_is_permission_guarded, data_findings, filter_findings,
  analyze_intent_filters, component_findings, provider_findings, analyze_exposure,
}

abbrev pub is_confident : PlatformFinding → Bool
is_confident f = str_eq f.tier "keep"

-- a permission of the provider guards reads and writes, a read or a write permission only its own kind
abbrev pub is_readable : Provider → Bool
is_readable p = str_eq p.permission "" && str_eq p.read_permission ""

abbrev pub is_writable : Provider → Bool
is_writable p = str_eq p.permission "" && str_eq p.write_permission ""

-- exported, and readable or writable without a permission
abbrev pub is_open : Provider → Bool
is_open p = p.exported && (is_readable p || is_writable p)

open_unguarded :
    (p : Provider) → (is_readable p || is_writable p) ≡ not (provider_is_permission_guarded p)
unfolding provider_is_permission_guarded
open_unguarded p = ground arith

abbrev pub open_provider_finding : Provider → PlatformFinding
open_provider_finding p = new_exported_finding p.name "provider" severity_high

select-append :
    (xs ys : List PlatformFinding)
    → select is_confident (xs ++ ys) ≡ select is_confident xs ++ select is_confident ys
select-append [] ys = refl
select-append (x ∷ xs) ys = elim (Bool-cases (is_confident x)) [
  | inl e ↦ rw e (ap (λ zs. x ∷ zs) (select-append xs ys))
  | inr e ↦ rw e (select-append xs ys)
]

-- findings that are all informational may stand in front
drop-prefix :
    (xs ys : List PlatformFinding)
    → select is_confident xs ≡ []
    → select is_confident (xs ++ ys) ≡ select is_confident ys
drop-prefix xs ys e = select-append xs ys ∙ ap (λ zs. zs ++ select is_confident ys) e

module _ (to_lower : String → String) where
  data_findings-mild :
      (name : String) (f : Filter) (d : FilterData)
      → select is_confident (data_findings to_lower name f d) ≡ []
  unfolding data_findings
  data_findings-mild name f d = ground arith

  filter_findings-mild :
      (name : String) (f : Filter) (ds : List FilterData)
      → select is_confident (filter_findings to_lower name f ds) ≡ []
  unfolding filter_findings
  filter_findings-mild name f [] = refl
  filter_findings-mild name f (d ∷ rest) =
      drop-prefix (data_findings to_lower name f d) _ (data_findings-mild name f d)
      ∙ filter_findings-mild name f rest

  analyze_intent_filters-mild :
      (name : String) (fs : List Filter)
      → select is_confident (analyze_intent_filters to_lower name fs) ≡ []
  unfolding analyze_intent_filters
  analyze_intent_filters-mild name [] = refl
  analyze_intent_filters-mild name (f ∷ rest) =
      drop-prefix (filter_findings to_lower name f f.data_items) _
        (filter_findings-mild name f f.data_items)
      ∙ analyze_intent_filters-mild name rest

  component_findings-mild :
      (kind : String) (cs : List Component)
      → select is_confident (component_findings to_lower kind cs) ≡ []
  unfolding component_findings
  component_findings-mild kind [] = refl
  component_findings-mild kind (a ∷ rest) =
      let others =
        drop-prefix (analyze_intent_filters to_lower a.name a.intent_filters)
          (component_findings to_lower kind rest)
          (analyze_intent_filters-mild a.name a.intent_filters)
        ∙ component_findings-mild kind rest in
      elim (Bool-cases a.exported) [
        | inr e ↦ rw (component_findings, e) (component_findings-mild kind rest)
        | inl e ↦ elim (Bool-cases (str_eq a.permission "")) [
          | inl d ↦ rw (component_findings, e, d) others
          | inr d ↦ rw (component_findings, e, d) others
        ]
      ]

  provider_findings-open :
      (ps : List Provider)
      → select is_confident (provider_findings ps) ≡ map open_provider_finding (select is_open ps)
  unfolding provider_findings
  provider_findings-open [] = refl
  provider_findings-open (p ∷ rest) = elim (Bool-cases p.exported) [
    | inr e ↦ rw (provider_findings, e) (provider_findings-open rest)
    | inl e ↦ elim (Bool-cases (provider_is_permission_guarded p)) [
      | inl d ↦ rw (provider_findings, e, open_unguarded p, d) (provider_findings-open rest)
      | inr d ↦
          rw (provider_findings, e, open_unguarded p, d)
            (ap (λ zs. open_provider_finding p ∷ zs) (provider_findings-open rest))
    ]
  ]

  -- The confident findings on a manifest are exactly those on its open content providers, in order:
  -- one for each provider that is exported and can be read or written without a permission.
  pub analyze_exposure-confident :
      (m : Manifest)
      → select is_confident (analyze_exposure to_lower m)
        ≡ map open_provider_finding (select is_open m.content_providers)
  unfolding analyze_exposure
  analyze_exposure-confident m =
      drop-prefix (component_findings to_lower "activity" m.activities) _
        (component_findings-mild "activity" m.activities)
      ∙ drop-prefix (component_findings to_lower "service" m.services) _
          (component_findings-mild "service" m.services)
      ∙ drop-prefix (component_findings to_lower "receiver" m.broadcast_receivers) _
          (component_findings-mild "receiver" m.broadcast_receivers)
      ∙ provider_findings-open m.content_providers
