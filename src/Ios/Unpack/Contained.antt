-- ===== src/Ios/Unpack/Contained.antt =====
-- What `StartUnpack` of morf/ios/unpack.go leaves on the disk.
use morf.Prelude.{
  ℕ, ◌≡◌, refl, ap, ◌∙◌, String, Bool, true, false, Option, none, some, List, [], ◌∷◌, arith,
  Bool-cases, Option-cases, ◌⊎◌, inl, inr,
}
use morf.ZipSafety.{Limits, Paths, Verdict, safe, rejected}
use morf.Ios.Tree.{ZipEntry, FilePaths, Tree, UnpackedIpa}
use morf.Ios.Unpack.{
  write_zip_entry, is_within, unzip_entry, unzip_loop, unzip_to, locate_app_bundle, bundle, checked,
  unpacked, start_unpack,
}
use morf.Ios.Unpack.Entries.{extracted, unzip_entry-others, unzip_entry-after}

module _ (paths : FilePaths) (fs : Tree) where
  unzip_loop-others :
      (root : String) (entries : List ZipEntry) (p : String) (d : fs.Disk)
      → is_within paths fs root p ≡ false
      → fs.files (unzip_loop paths fs root entries d).1 p ≡ fs.files d p
  unfolding write_zip_entry unzip_loop
  unzip_loop-others root [] p d h = refl
  unzip_loop-others root (f ∷ rest) p d h =
      let first = unzip_entry paths fs root f d in
      elim (Bool-cases first.0) [
        | inl e ↦
            rw e
              (unzip_loop-others root rest p first.1 h ∙ unzip_entry-others paths fs root f p d h)
        | inr e ↦ rw e (unzip_entry-others paths fs root f p d h)
      ]

  unzip_loop-extracted :
      (root : String) (entries : List ZipEntry) (p : String) (d : fs.Disk)
      → (unzip_loop paths fs root entries d).0 ≡ true
      → fs.files (unzip_loop paths fs root entries d).1 p
        ≡ extracted paths fs root entries p (fs.files d p)
  unfolding write_zip_entry unzip_loop
  unzip_loop-extracted root [] p d h = refl
  unzip_loop-extracted root (f ∷ rest) p d h =
      let first = unzip_entry paths fs root f d in
      elim (Bool-cases first.0) [
        | inl e ↦ rw e (
            unzip_loop-extracted root rest p first.1 (ground (arith, e, h))
            ∙ ap (extracted paths fs root rest p) (unzip_entry-after paths fs root f p d e))
        | inr e ↦ absurd (ground (arith, e, h))
      ]

  module _ (decode_info_plist : List ℕ → Option String) (zip_paths : Paths) (limits : Limits)
      (ratio_exceeds : ℕ → ℕ → Bool) where
    bundle-disk :
        (extract_root : String) (r : Bool × fs.Disk)
        → (bundle paths fs decode_info_plist extract_root r).1 ≡ r.1
    unfolding locate_app_bundle
    bundle-disk extract_root (false, d) = refl
    bundle-disk extract_root (true, d) = refl

    bundle-some :
        (extract_root : String) (r : Bool × fs.Disk) (ipa : UnpackedIpa)
        → (bundle paths fs decode_info_plist extract_root r).0 ≡ some ipa
        → r.0 ≡ true
    unfolding locate_app_bundle
    bundle-some extract_root (false, d) ipa h = absurd (ground (arith, h))
    bundle-some extract_root (true, d) ipa h = refl

    -- what has become of the disk `d`, in the terms of its regular files
    record IsContained (entries : List ZipEntry) (extract_root : String) (verdict : Verdict)
        (d : fs.Disk) (r : Option UnpackedIpa × fs.Disk) : Type 0 where
      pub outside :
          (p : String)
          → is_within paths fs (paths.clean extract_root) p ≡ false
          → fs.files r.1 p ≡ fs.files d p
      pub complete :
          (ipa : UnpackedIpa)
          → r.0 ≡ some ipa
          → (verdict ≡ safe)
            × ((p : String)
                → fs.files r.1 p
                  ≡ extracted paths fs (paths.clean extract_root) entries p (fs.files d p))

    unpacked-IsContained :
        (verdict : Verdict) (entries : List ZipEntry) (extract_root : String) (d : fs.Disk)
        → IsContained entries extract_root verdict d (
            unpacked paths fs decode_info_plist zip_paths limits ratio_exceeds verdict entries
              extract_root d)
    unfolding unzip_to unzip_loop locate_app_bundle
    unpacked-IsContained (rejected reason) entries extract_root d = record {
      outside = λ p h. refl;
      complete = λ ipa h. absurd (ground (arith, h));
    }
    unpacked-IsContained safe entries extract_root d =
        let root = paths.clean extract_root in
        let made = fs.mkdir_all extract_root d in
        let done = unzip_loop paths fs root entries made.1 in
        elim (Bool-cases made.0) [
          | inr e ↦ rw e (record {
            outside = λ p h. fs.mkdir_all-files extract_root p d;
            complete = λ ipa h. absurd (ground (arith, h));
          })
          | inl e ↦ rw e (record {
            outside = λ p h.
                ap (λ x. fs.files x p) (bundle-disk extract_root done)
                ∙ (unzip_loop-others root entries p made.1 h ∙ fs.mkdir_all-files extract_root p d);
            complete = λ ipa h. (
              refl,
              λ p.
                  ap (λ x. fs.files x p) (bundle-disk extract_root done)
                  ∙ (unzip_loop-extracted root entries p made.1
                        (bundle-some extract_root done ipa h)
                      ∙ ap (extracted paths fs root entries p)
                          (fs.mkdir_all-files extract_root p d)),
            );
          })
        ]

    -- Whatever the archive and whether or not the unpacking succeeds, a path outside the extraction root
    -- holds what it held. Either no bundle is returned, or the archive has passed the safety check and
    -- each path holds the contents of the last entry with that target, or what it held before if there
    -- is none.
    pub start_unpack-contained :
        (entries : List ZipEntry) (extract_root p : String) (d : fs.Disk)
        → let root = paths.clean extract_root in
          let verdict = checked paths fs decode_info_plist zip_paths limits ratio_exceeds entries in
          let r =
            start_unpack paths fs decode_info_plist zip_paths limits ratio_exceeds entries
              extract_root d in
          ((is_within paths fs root p ≡ true) ⊎ (fs.files r.1 p ≡ fs.files d p))
          × ((r.0 ≡ none)
              ⊎ ((verdict ≡ safe)
                  × (fs.files r.1 p ≡ extracted paths fs root entries p (fs.files d p))))
    unfolding start_unpack
    start_unpack-contained entries extract_root p d =
        let verdict = checked paths fs decode_info_plist zip_paths limits ratio_exceeds entries in
        let r =
          unpacked paths fs decode_info_plist zip_paths limits ratio_exceeds verdict entries
            extract_root d in
        let h : IsContained entries extract_root verdict d r =
          unpacked-IsContained verdict entries extract_root d in
        (
          elim (Bool-cases (is_within paths fs (paths.clean extract_root) p)) [
            | inl e ↦ inl e
            | inr e ↦ inr (h.outside p e)
          ],
          elim (Option-cases r.0) [
            | inl e ↦ inl e
            | inr (ipa, e) ↦ inr ((h.complete ipa e).0, (h.complete ipa e).1 p)
          ],
        )
