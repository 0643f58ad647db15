-- ===== src/Ingest/Leaves.antt =====
-- What a fetch of morf/ingest/https.go leaves behind when it returns no file.
use morf.Prelude.{
  ℕ, ◌≡◌, ◌≢◌, refl, sym, ap, ◌∙◌, String, true, not, ◌&&◌, Option, none, some, str_eq, eq_iff,
  arith, Bool-cases, Option-cases, inl, inr,
}
use morf.Prelude.Text.{ne_of_str_eq}
use morf.Ingest.Download.{
  Files, Source, limited, cap_of, artifact_ext, resolve_dest_dir, copy_capped,
}
use morf.Ingest.Capped.{created-leaves, created-others}
use morf.Ingest.Https.{
  Url, Network, UrlTexts, Adapter, extract_sha256, admitted, dial, asked, accepted, verified,
  stored, https_fetch,
}

module _ (texts : UrlTexts) (net : Network) (a : Adapter) (fs : Files) (default_max : ℕ)
    (removes : (t : String) (d : fs.Disk) → (fs.remove t d).0 ≡ true) where
  verified-leaves :
      (want got p : String) (x : Option String × fs.Disk) (d : fs.Disk)
      → (x.0 ≡ none → fs.files x.1 p ≡ fs.files d p)
      → ((t : String)
          → x.0 ≡ some t
          → (fs.files d t ≡ none) × ((q : String) → q ≢ t → fs.files x.1 q ≡ fs.files d q))
      → (verified texts net fs default_max want got x).0 ≡ none
      → fs.files (verified texts net fs default_max want got x).1 p ≡ fs.files d p
  verified-leaves want got p (none, c) d refused accepted_only h = refused refl
  verified-leaves want got p (some t, c) d refused accepted_only h =
      let (fresh, others) = accepted_only t refl in
      elim (Bool-cases (not (str_eq want "") && not (texts.equal_fold got want))) [
        | inr k ↦ absurd (ground (arith, k, h))
        | inl k ↦ elim (Bool-cases (str_eq p t)) [
          | inl same ↦ rw (k, (eq_iff p t).0 same) (fs.remove-removes t c (removes t c) ∙ sym fresh)
          | inr other ↦
              let differs = ne_of_str_eq p t other in
              rw k (fs.remove-others t p c differs ∙ others p differs)
        ]
      ]

  stored-leaves :
      (u : Url) (want p : String) (body : Source) (x : Option String × fs.Disk)
      → (stored texts net fs default_max a u want body x).0 ≡ none
      → fs.files (stored texts net fs default_max a u want body x).1 p ≡ fs.files x.1 p
  unfolding copy_capped
  stored-leaves u want p body (none, d) h = refl
  stored-leaves u want p body (some dest_dir, d) h =
      let ext = artifact_ext texts.has_suffix (texts.to_lower (texts.base u.path)) in
      let cap = cap_of default_max a.max_bytes in
      verified-leaves want (texts.sha256_hex (limited cap body.bytes)) p
        (copy_capped fs default_max dest_dir ext body a.max_bytes d) d
        (created-leaves fs body cap removes dest_dir ext p d)
        (λ t e. created-others fs body cap dest_dir ext t d e) h

  resolve_dest_dir-files :
      (dir p : String) (d : fs.Disk) → fs.files (resolve_dest_dir fs dir d).1 p ≡ fs.files d p
  unfolding resolve_dest_dir
  resolve_dest_dir-files dir p d = elim (Bool-cases (str_eq dir "")) [
    | inl e ↦ rw e (ap (λ g. g p) (fs.mkdir_temp-files d))
    | inr e ↦ elim (Bool-cases (fs.is_dir dir d)) [
      | inl k ↦ rw (e, k) refl
      | inr k ↦ rw (e, k) refl
    ]
  ]

  -- A fetch that returns no file leaves the files of the disk as they were, at whatever step it
  -- ends, where the removal of a file succeeds.
  pub https_fetch-leaves :
      (ref p : String) (d : fs.Disk)
      → (https_fetch texts net fs default_max a ref d).0 ≡ none
      → fs.files (https_fetch texts net fs default_max a ref d).1 p ≡ fs.files d p
  unfolding https_fetch
  https_fetch-leaves ref p d refused =
      elim (Option-cases (admitted texts net a (net.parse (texts.trim_space ref)))) [
        | inl e ↦ rw (https_fetch, e) refl
        | inr (u, e) ↦
            let want = (extract_sha256 texts u).0 in
            let url = (extract_sha256 texts u).1 in
            let tries = dial texts net (net.addresses url) in
            let dest = resolve_dest_dir fs (texts.trim_space a.dest_dir) d in
            elim (Option-cases (accepted texts net a (asked texts net url tries))) [
              | inl k ↦ rw (https_fetch, e, k) refl
              | inr (r, k) ↦
                  let ended : https_fetch texts net fs default_max a ref d
                      ≡ stored texts net fs default_max a u want r.body dest =
                    rw (https_fetch, e, k) refl in
                  rw ended (
                    stored-leaves u want p r.body dest (sym (ap (λ x. x.0) ended) ∙ refused)
                    ∙ resolve_dest_dir-files (texts.trim_space a.dest_dir) p d)
            ]
      ]
