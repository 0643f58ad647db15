-- ===== src/Storage/Atomic.antt =====
-- What morf/storage/local.go promises: its files implement the interface of a store.
use morf.Prelude.{
  ◌≡◌, ◌≢◌, ap, ◌∙◌, String, true, false, none, some, arith, inl, inr, Bool-cases, Option-cases,
}
use morf.Storage.{Storage}
use morf.Storage.Local.{
  FileSystem, Paths, resolve_key, commit, local_put, local_delete, local_objects,
}

module _ (fs : FileSystem) (paths : Paths) (base : String) where
  -- the disk after each call of `commit`
  abbrev written : String → String → fs.Disk → fs.Disk
  written t bytes d = (fs.copy t bytes d).1

  abbrev flushed : String → String → fs.Disk → fs.Disk
  flushed t bytes d = (fs.sync t (written t bytes d)).1

  abbrev closed : String → String → fs.Disk → fs.Disk
  closed t bytes d = (fs.close t (flushed t bytes d)).1

  closed-files :
      (t bytes : String) (d : fs.Disk) → fs.files (closed t bytes d) ≡ fs.files (written t bytes d)
  closed-files t bytes d =
      fs.close-files t (flushed t bytes d) ∙ fs.sync-files t (written t bytes d)

  commit-stores :
      (t full bytes : String) (d : fs.Disk)
      → (commit fs t full bytes d).0 ≡ true
      → fs.files (commit fs t full bytes d).1 full ≡ some bytes
  unfolding commit
  commit-stores t full bytes d ok = elim (Bool-cases (fs.copy t bytes d).0) [
    | inr e ↦ absurd (ground (arith, e, ok))
    | inl copied ↦ elim (Bool-cases (fs.sync t (written t bytes d)).0) [
      | inr e ↦ absurd (ground (arith, copied, e, ok))
      | inl synced ↦ elim (Bool-cases (fs.close t (flushed t bytes d)).0) [
        | inr e ↦ absurd (ground (arith, copied, synced, e, ok))
        | inl shut ↦ elim (Bool-cases (fs.rename t full (closed t bytes d)).0) [
          | inr e ↦ absurd (ground (arith, copied, synced, shut, e, ok))
          | inl moved ↦
              rw (commit, copied, synced, shut, moved)
                (fs.rename-moves t full (closed t bytes d) moved
                  ∙ ap (λ f. f t) (closed-files t bytes d)
                  ∙ fs.copy-writes t bytes d copied)
        ]
      ]
    ]
  ]

  -- files that differ from the temporary one are as they were
  give_up-keeps :
      (t full held : String) (d : fs.Disk)
      → full ≢ t
      → fs.files d full ≡ some held
      → fs.files (fs.remove t d).1 full ≡ some held
  give_up-keeps t full held d differs there = fs.remove-others t full d differs ∙ there

  written-keeps :
      (t full bytes held : String) (d : fs.Disk)
      → full ≢ t
      → fs.files d full ≡ some held
      → fs.files (written t bytes d) full ≡ some held
  written-keeps t full bytes held d differs there = fs.copy-others t bytes full d differs ∙ there

  commit-keeps :
      (t full bytes held : String) (d : fs.Disk)
      → full ≢ t
      → fs.files d full ≡ some held
      → (commit fs t full bytes d).0 ≡ false
      → fs.files (commit fs t full bytes d).1 full ≡ some held
  unfolding commit
  commit-keeps t full bytes held d differs there failed =
      let w = written-keeps t full bytes held d differs there in
      let f = ap (λ g. g full) (fs.sync-files t (written t bytes d)) ∙ w in
      let c = ap (λ g. g full) (closed-files t bytes d) ∙ w in
      elim (Bool-cases (fs.copy t bytes d).0) [
        | inr e ↦
            rw (commit, e)
              (give_up-keeps t full held (fs.close t (written t bytes d)).1 differs
                (ap (λ g. g full) (fs.close-files t (written t bytes d)) ∙ w))
        | inl copied ↦ elim (Bool-cases (fs.sync t (written t bytes d)).0) [
          | inr e ↦ rw (commit, copied, e) (give_up-keeps t full held (closed t bytes d) differs c)
          | inl synced ↦ elim (Bool-cases (fs.close t (flushed t bytes d)).0) [
            | inr e ↦
                rw (commit, copied, synced, e)
                  (give_up-keeps t full held (closed t bytes d) differs c)
            | inl shut ↦ elim (Bool-cases (fs.rename t full (closed t bytes d)).0) [
              | inl moved ↦ absurd (ground (arith, copied, synced, shut, moved, failed))
              | inr e ↦
                  rw (commit, copied, synced, shut, e)
                    (give_up-keeps t full held (fs.rename t full (closed t bytes d)).1 differs
                      (ap (λ g. g full) (fs.rename-failed t full (closed t bytes d) e) ∙ c))
            ]
          ]
        ]
      ]

  -- A `Put` that succeeds has stored the bytes under the key.
  pub local_put-stores :
      (key bytes : String) (d : fs.Disk)
      → (local_put fs paths base key bytes d).0 ≡ true
      → local_objects fs paths base (local_put fs paths base key bytes d).1 key ≡ some bytes
  unfolding local_put local_objects
  local_put-stores key bytes d ok = elim (Option-cases (resolve_key paths base key)) [
    | inl e ↦ absurd (ground (arith, e, ok))
    | inr (full, e) ↦
        let ready = (fs.mkdir_all (paths.dir full) d).1 in
        let opened = (fs.create_temp (paths.dir full) ready).1 in
        elim (Bool-cases (fs.mkdir_all (paths.dir full) d).0) [
          | inr m ↦ absurd (ground (arith, e, m, ok))
          | inl m ↦ elim (Option-cases (fs.create_temp (paths.dir full) ready).0) [
            | inl n ↦ absurd (ground (arith, e, m, n, ok))
            | inr (t, n) ↦
                rw (local_objects, e, local_put, e, m, n)
                  (commit-stores t full bytes opened (ground (arith, e, m, n, ok)))
          ]
        ]
  ]

  -- A `Put` that fails, at whatever step, leaves the object that was stored under the key.
  pub local_put-keeps :
      (key bytes held : String) (d : fs.Disk)
      → (local_put fs paths base key bytes d).0 ≡ false
      → local_objects fs paths base d key ≡ some held
      → local_objects fs paths base (local_put fs paths base key bytes d).1 key ≡ some held
  unfolding local_put local_objects
  local_put-keeps key bytes held d failed there = elim (Option-cases (resolve_key paths base key)) [
    | inl e ↦ absurd (ground (arith, e, there))
    | inr (full, e) ↦
        let made = fs.mkdir_all (paths.dir full) d in
        let temp = fs.create_temp (paths.dir full) made.1 in
        let before : fs.files made.1 full ≡ some held =
          ap (λ g. g full) (fs.mkdir_all-files (paths.dir full) d) ∙ (ground (arith, e, there)) in
        let opened : fs.files temp.1 full ≡ some held =
          fs.create_temp-keeps (paths.dir full) full held made.1 before in
        elim (Bool-cases made.0) [
          | inr m ↦ rw (local_objects, e, local_put, e, m) before
          | inl m ↦ elim (Option-cases temp.0) [
            | inl n ↦ rw (local_objects, e, local_put, e, m, n) opened
            | inr (t, n) ↦
                rw (local_objects, e, local_put, e, m, n)
                  (commit-keeps t full bytes held temp.1
                    (λ same. ground (
                      arith,
                      before,
                      ap (fs.files made.1) same,
                      fs.create_temp-fresh (paths.dir full) t made.1 n,
                    ))
                    opened (ground (arith, e, m, n, failed)))
          ]
        ]
  ]

  pub local_delete-removes :
      (key : String) (d : fs.Disk)
      → (local_delete fs paths base key d).0 ≡ true
      → local_objects fs paths base (local_delete fs paths base key d).1 key ≡ none
  unfolding local_delete local_objects
  local_delete-removes key d ok = elim (Option-cases (resolve_key paths base key)) [
    | inl e ↦ absurd (ground (arith, e, ok))
    | inr (full, e) ↦ elim (Bool-cases (fs.remove full d).0) [
      | inl gone ↦ rw (local_objects, e, local_delete, e) (fs.remove-removes full d gone)
      | inr failed ↦
          rw (local_objects, e, local_delete, e)
            (fs.remove-missing full d (ground (arith, e, failed, ok)) failed)
    ]
  ]

  abbrev pub local_storage : Storage
  local_storage = record {
    State = fs.Disk;
    objects = local_objects fs paths base;
    put = local_put fs paths base;
    delete = local_delete fs paths base;
    put-stores = local_put-stores;
    put-keeps = local_put-keeps;
    delete-removes = local_delete-removes;
  }
