-- ===== src/Ios/Unpack/Entries.antt =====
-- What one entry of an archive leaves on the disk, morf/ios/unpack.go.
use morf.Prelude.{
  ℕ, ◌≡◌, ◌≢◌, refl, ap, ◌∙◌, String, Bool, true, false, ◌||◌, Option, none, some, List, [], ◌∷◌,
  if◌then◌else◌, str_eq, eq_iff, arith, Bool-cases, inl, inr,
}
use morf.Prelude.Text.{ne_of_str_eq}
use morf.Ios.Tree.{ZipEntry, FilePaths, Tree}
use morf.Ios.Unpack.{
  copied, write_opened, write_zip_entry, target_of, is_within, place, unzip_entry,
}

module _ (paths : FilePaths) (fs : Tree) where
  -- what a path holds after the entries, the last one that has it as its target deciding
  abbrev pub after : String → ZipEntry → String → Option (List ℕ) → Option (List ℕ)
  after root f p old =
      if f.is_dir then old else if str_eq p (target_of paths fs root f) then f.contents else old

  abbrev pub extracted : String → List ZipEntry → String → Option (List ℕ) → Option (List ℕ)
  extracted root [] p old = old
  extracted root (f ∷ rest) p old = extracted root rest p (after root f p old)

  copied-others :
      (t p : String) (bytes : List ℕ) (fails : Bool) (d : fs.Disk)
      → p ≢ t
      → fs.files (copied paths fs t bytes fails (fs.create t d)).1 p ≡ fs.files d p
  copied-others t p bytes fails d h = elim (Bool-cases (fs.create t d).0) [
    | inl e ↦ rw e (fs.write-others t p bytes (fs.create t d).1 h ∙ fs.create-others t p d h)
    | inr e ↦ rw e (fs.create-others t p d h)
  ]

  copied-holds :
      (t : String) (bytes : List ℕ) (fails : Bool) (d : fs.Disk)
      → (copied paths fs t bytes fails (fs.create t d)).0 ≡ true
      → fs.files (copied paths fs t bytes fails (fs.create t d)).1 t ≡ some bytes
  copied-holds t bytes fails d h = elim (Bool-cases (fs.create t d).0) [
    | inl e ↦
        rw e
          (fs.write-holds t bytes (fs.create t d).1 (fs.create-empty t d e) (ground (arith, e, h)))
    | inr e ↦ absurd (ground (arith, e, h))
  ]

  write_opened-others :
      (t p : String) (fails : Bool) (contents : Option (List ℕ)) (d : fs.Disk)
      → p ≢ t
      → fs.files (write_opened paths fs t fails contents d).1 p ≡ fs.files d p
  write_opened-others t p fails none d h = refl
  write_opened-others t p fails (some bytes) d h = copied-others t p bytes fails d h

  write_opened-holds :
      (t : String) (fails : Bool) (contents : Option (List ℕ)) (d : fs.Disk)
      → (write_opened paths fs t fails contents d).0 ≡ true
      → fs.files (write_opened paths fs t fails contents d).1 t ≡ contents
  write_opened-holds t fails none d h = absurd (ground (arith, h))
  write_opened-holds t fails (some bytes) d h = copied-holds t bytes fails d h

  place-others :
      (f : ZipEntry) (t p : String) (d : fs.Disk)
      → p ≢ t
      → fs.files (place paths fs f t d).1 p ≡ fs.files d p
  unfolding write_zip_entry
  place-others f t p d h =
      let parent = fs.mkdir_all (paths.dir t) d in
      elim (Bool-cases f.is_dir) [
        | inl e ↦ rw e (fs.mkdir_all-files t p d)
        | inr e ↦ elim (Bool-cases parent.0) [
          | inl k ↦
              rw (e, k)
                (write_opened-others t p f.fails f.contents parent.1 h
                  ∙ fs.mkdir_all-files (paths.dir t) p d)
          | inr k ↦ rw (e, k) (fs.mkdir_all-files (paths.dir t) p d)
        ]
      ]

  place-after :
      (root : String) (f : ZipEntry) (p : String) (d : fs.Disk)
      → (place paths fs f (target_of paths fs root f) d).0 ≡ true
      → fs.files (place paths fs f (target_of paths fs root f) d).1 p
        ≡ after root f p (fs.files d p)
  unfolding write_zip_entry
  place-after root f p d h =
      let t = target_of paths fs root f in
      let parent = fs.mkdir_all (paths.dir t) d in
      elim (Bool-cases f.is_dir) [
        | inl e ↦ rw e (fs.mkdir_all-files t p d)
        | inr e ↦ elim (Bool-cases (str_eq p t)) [
          | inr k ↦ place-others f t p d (ne_of_str_eq p t k) ∙ rw (e, k) refl
          | inl k ↦ elim (Bool-cases parent.0) [
            | inl m ↦
                let opened =
                  write_opened-holds t f.fails f.contents parent.1 (ground (arith, e, m, h)) in
                rw (e, k, (eq_iff p t).0 k, m) opened
            | inr m ↦ absurd (ground (arith, e, m, h))
          ]
        ]
      ]

  pub unzip_entry-others :
      (root : String) (f : ZipEntry) (p : String) (d : fs.Disk)
      → is_within paths fs root p ≡ false
      → fs.files (unzip_entry paths fs root f d).1 p ≡ fs.files d p
  unfolding write_zip_entry
  unzip_entry-others root f p d h =
      let t = target_of paths fs root f in
      let name = f.header.name in
      elim (Bool-cases
        (paths.is_abs name || paths.has_prefix name "/" || paths.has_prefix name "\\")) [
          | inl e ↦ rw e refl
          | inr e ↦ elim (Bool-cases (is_within paths fs root t)) [
            | inl k ↦
                rw (e, k) (place-others f t p d λ q. cc (h, k, ap (is_within paths fs root) q))
            | inr k ↦ rw (e, k) refl
          ]
        ]

  pub unzip_entry-after :
      (root : String) (f : ZipEntry) (p : String) (d : fs.Disk)
      → (unzip_entry paths fs root f d).0 ≡ true
      → fs.files (unzip_entry paths fs root f d).1 p ≡ after root f p (fs.files d p)
  unfolding write_zip_entry
  unzip_entry-after root f p d h =
      let t = target_of paths fs root f in
      let name = f.header.name in
      elim (Bool-cases
        (paths.is_abs name || paths.has_prefix name "/" || paths.has_prefix name "\\")) [
          | inl e ↦ absurd (ground (arith, e, h))
          | inr e ↦ elim (Bool-cases (is_within paths fs root t)) [
            | inl k ↦ rw (e, k) (place-after root f p d (ground (arith, e, k, h)))
            | inr k ↦ absurd (ground (arith, e, k, h))
          ]
        ]
