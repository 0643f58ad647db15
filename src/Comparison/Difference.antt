-- ===== src/Comparison/Difference.antt =====
-- What `CompareScans` of morf/utils/comparison.go reports.
use morf.Prelude.{
  ◌+◌, ◌≡◌, refl, sym, ap, Option, none, some, List, length-select-not, arith, All, any, select,
  not, length,
}
use morf.Job.{Codec, ScanJob}
use morf.Comparison.{
  Json, Comparison, ComparisonResult, compared, compare_decoded, compare_scans, difference,
  extract_secrets, has_secret,
}
use morf.Comparison.Keys.{IsPlain, same_secret, select-same_secret}

module _ (json : Json) where
  open json use {Value, decode_object}

  abbrev unwrap : ComparisonResult json → Comparison json → ComparisonResult json
  unwrap d (compared r) = r
  unwrap d _ = d

  module _ (c : Codec) where
    abbrev secrets : Value → List Value
    secrets d = extract_secrets json d

    read_both :
        (job1 job2 : ScanJob c) (o1 o2 : Option Value) (res : ComparisonResult json)
        → compare_decoded json c job1 job2 o1 o2 ≡ compared res
        → (d1 : Value) × (d2 : Value) × (o1 ≡ some d1)
          × (o2 ≡ some d2)
          × (res ≡ difference json job1.id job2.id (secrets d1) (secrets d2))
    read_both job1 job2 none o2 res h = absurd (ground arith)
    read_both job1 job2 (some d1) none res h = absurd (ground arith)
    read_both job1 job2 (some d1) (some d2) res h = (d1, d2, refl, refl, sym (ap (unwrap res) h))

    module _ (job1 job2 : ScanJob c) (res : ComparisonResult json) where
      -- A report accounts for every secret of the first scan: it is either unchanged or removed.
      pub compare_scans-counts :
          compare_scans json c job1 job2 ≡ compared res
          → res.unchanged_count + res.removed_count ≡ res.total_job_1
      unfolding compare_scans
      compare_scans-counts h =
          let (d1, d2, e1, e2, e) = read_both job1 job2 _ _ res h in
          rw e (length-select-not (has_secret json (secrets d2)) (secrets d1))

    -- For two results that decode, with no "|" in the values and the file names of their secrets, the
    -- report is exact: added are the secrets of the second scan that the first does not have with the
    -- same value, file and line, removed are those of the first that the second does not have, and the
    -- rest of the first are unchanged, each in the order of its scan. The counts are those of the lists.
    pub compare_scans-exact :
        (job1 job2 : ScanJob c) (d1 d2 : Value)
        → decode_object job1.result ≡ some d1
        → decode_object job2.result ≡ some d2
        → All (IsPlain json) (secrets d1)
        → All (IsPlain json) (secrets d2)
        → (res : ComparisonResult json) × (compare_scans json c job1 job2 ≡ compared res)
          × (res.added
              ≡ select (λ s. not (any (λ t. same_secret json t s) (secrets d1))) (secrets d2))
          × (res.removed
              ≡ select (λ s. not (any (λ t. same_secret json t s) (secrets d2))) (secrets d1))
          × (res.unchanged
              ≡ select (λ s. any (λ t. same_secret json t s) (secrets d2)) (secrets d1))
          × (res.job_id_1 ≡ job1.id)
          × (res.job_id_2 ≡ job2.id)
          × (res.total_job_1 ≡ length (secrets d1))
          × (res.total_job_2 ≡ length (secrets d2))
          × (res.added_count ≡ length res.added)
          × (res.removed_count ≡ length res.removed)
          × (res.unchanged_count ≡ length res.unchanged)
    unfolding compare_scans
    compare_scans-exact job1 job2 d1 d2 e1 e2 plain1 plain2 =
        let (kept1, left1) = select-same_secret json (secrets d2) (secrets d1) plain2 plain1 in
        let (kept2, left2) = select-same_secret json (secrets d1) (secrets d2) plain1 plain2 in
        (
          difference json job1.id job2.id (secrets d1) (secrets d2),
          rw (e1, e2) refl,
          left2,
          left1,
          kept1,
          refl,
          refl,
          refl,
          refl,
          refl,
          refl,
          refl,
        )
