-- ===== src/Ingest/Capped.antt =====
-- What the capped copy of morf/ingest/common.go accepts, and what it leaves behind when it refuses.
use morf.Prelude.{
  ℕ, zero, suc, ◌+◌, ◌-◌, ◌^◌, ◌≤◌, ◌<◌, ◌≡◌, ◌≢◌, refl, sym, ap, ◌∙◌, String, true, false, not,
  ◌||◌, Option, none, some, List, [], ◌∷◌, str_eq, eq_iff, ltb, lt→ltb, length, take, arith,
  Bool-cases, Option-cases, inl, inr,
}
use morf.Prelude.Text.{ne_of_str_eq}
use morf.Ingest.Download.{
  Files, Source, limited, limited_fails, give_up, copy_into, created, copy_capped,
}

-- int64 can hold the limit of the reader
abbrev pub Fits : ℕ → Type 0
Fits max_bytes = max_bytes + 1 < 2 ^ 63

take_short : (n : ℕ) (xs : List ℕ) → length (take n xs) < n → take n xs ≡ xs
take_short zero xs h = absurd (omega arith)
take_short (suc n) [] h = refl
take_short (suc n) (x ∷ xs) h = ap (λ ys. x ∷ ys) (take_short n xs (omega arith))

limited-short :
    (max_bytes : ℕ) (bytes : List ℕ)
    → Fits max_bytes
    → length (limited max_bytes bytes) ≤ max_bytes
    → limited max_bytes bytes ≡ bytes
limited-short max_bytes bytes h k =
    let b : ltb (max_bytes + 1) (2 ^ 63) ≡ true = lt→ltb _ _ h in
    let shorter : length (take (max_bytes + 1) bytes) ≤ max_bytes = rw b at k in
    rw b (take_short (max_bytes + 1) bytes (omega (arith, shorter)))

module _ (fs : Files) (src : Source) (max_bytes : ℕ) where
  -- the bytes of the source are in the file, all of them
  abbrev pub IsStored : Option String × fs.Disk → Type 0
  IsStored (none, d) = Unit {0}
  IsStored (some p, d) =
      (fs.files d p ≡ some src.bytes)
      × (length src.bytes ≤ max_bytes)
      × (limited max_bytes src.bytes ≡ src.bytes)

  copy_into-IsStored :
      (t : String) (d : fs.Disk) → Fits max_bytes → IsStored (copy_into fs t src max_bytes d)
  copy_into-IsStored t d h =
      let copied = fs.write t (limited max_bytes src.bytes) d in
      let closed = fs.close t copied.1 in
      elim (Bool-cases (limited_fails max_bytes src || not copied.0)) [
        | inl e ↦ rw e tt
        | inr e ↦ elim (Bool-cases closed.0) [
          | inr c ↦ rw (e, c) tt
          | inl c ↦ elim (Bool-cases (ltb max_bytes (length (limited max_bytes src.bytes)))) [
            | inl b ↦ rw (e, c, b) tt
            | inr b ↦
                let whole : limited max_bytes src.bytes ≡ src.bytes =
                  limited-short max_bytes src.bytes h (ground arith) in
                let held : fs.files closed.1 t ≡ some src.bytes =
                  ap (λ g. g t) (fs.close-files t copied.1)
                  ∙ fs.write-holds t (limited max_bytes src.bytes) d (ground (arith, e))
                  ∙ ap some whole in
                rw (e, c, b) (held, rw (← whole) (ground (arith, b)), whole)
          ]
        ]
      ]

  -- a download that is accepted is in its file whole, and is no longer than the limit.
  pub created-IsStored :
      (r : Option String × fs.Disk) → Fits max_bytes → IsStored (created fs src max_bytes r)
  created-IsStored (none, d) h = tt
  created-IsStored (some t, d) h = copy_into-IsStored t d h

  copy_into-others :
      (t q : String) (d : fs.Disk)
      → q ≢ t
      → fs.files (copy_into fs t src max_bytes d).1 q ≡ fs.files d q
  copy_into-others t q d differs =
      let read = limited max_bytes src.bytes in
      let copied = fs.write t read d in
      let closed = fs.close t copied.1 in
      let same : fs.files closed.1 q ≡ fs.files d q =
        ap (λ g. g q) (fs.close-files t copied.1) ∙ fs.write-others t q read d differs in
      let gone = fs.remove-others t q closed.1 differs ∙ same in
      elim (Bool-cases (limited_fails max_bytes src || not copied.0)) [
        | inl e ↦ rw e gone
        | inr e ↦ elim (Bool-cases closed.0) [
          | inr c ↦ rw (e, c) gone
          | inl c ↦ elim (Bool-cases (ltb max_bytes (length read))) [
            | inl b ↦ rw (e, c, b) gone
            | inr b ↦ rw (e, c, b) same
          ]
        ]
      ]

  copy_into-name :
      (t u : String) (d : fs.Disk) → (copy_into fs t src max_bytes d).0 ≡ some u → t ≡ u
  copy_into-name t u d h =
      let copied = fs.write t (limited max_bytes src.bytes) d in
      elim (Bool-cases (limited_fails max_bytes src || not copied.0)) [
        | inl e ↦ absurd (ground (arith, e, h))
        | inr e ↦ ground (arith, e, h)
      ]

  same_name : {o : Option String} (t q : String) → o ≡ some t → o ≡ some q → q ≡ t
  same_name t q e k = cc

  -- an accepted copy is a new file, and leaves the others
  pub created-others :
      (dir ext u : String) (d : fs.Disk)
      → let r = created fs src max_bytes (fs.create_temp dir ext d) in
        r.0 ≡ some u
        → (fs.files d u ≡ none) × ((q : String) → q ≢ u → fs.files r.1 q ≡ fs.files d q)
  created-others dir ext u d h =
      let t = fs.create_temp dir ext d in
      elim (Option-cases t.0) [
        | inl e ↦ absurd (ground (arith, e, h))
        | inr (tmp, e) ↦
            let named : tmp ≡ u = copy_into-name tmp u t.1 (rw e at h) in
            rw (← named, e)
              (
                fs.create_temp-fresh dir ext tmp d e,
                λ q differs.
                    copy_into-others tmp q t.1 differs
                    ∙ fs.create_temp-others dir ext q d (λ k. differs (same_name tmp q e k)),
              )
      ]

  module _ (removes : (t : String) (d : fs.Disk) → (fs.remove t d).0 ≡ true) where
    give_up-files :
        (t p : String) (d closed : fs.Disk)
        → fs.files d t ≡ none
        → ((q : String) → q ≢ t → fs.files closed q ≡ fs.files d q)
        → fs.files (give_up fs t closed).1 p ≡ fs.files d p
    give_up-files t p d closed fresh same = elim (Bool-cases (str_eq p t)) [
      | inl e ↦ rw ((eq_iff p t).0 e) (fs.remove-removes t closed (removes t closed) ∙ sym fresh)
      | inr e ↦
          let differs = ne_of_str_eq p t e in fs.remove-others t p closed differs ∙ same p differs
    ]

    copy_into-leaves :
        (t p : String) (d d' : fs.Disk)
        → fs.files d t ≡ none
        → ((q : String) → q ≢ t → fs.files d' q ≡ fs.files d q)
        → (copy_into fs t src max_bytes d').0 ≡ none
        → fs.files (copy_into fs t src max_bytes d').1 p ≡ fs.files d p
    copy_into-leaves t p d d' fresh same refused =
        let read = limited max_bytes src.bytes in
        let copied = fs.write t read d' in
        let closed = fs.close t copied.1 in
        let gone : fs.files (give_up fs t closed.1).1 p ≡ fs.files d p =
          give_up-files t p d closed.1 fresh (λ q differs.
            ap (λ g. g q) (fs.close-files t copied.1)
            ∙ fs.write-others t q read d' differs
            ∙ same q differs) in
        elim (Bool-cases (limited_fails max_bytes src || not copied.0)) [
          | inl e ↦ rw e gone
          | inr e ↦ elim (Bool-cases closed.0) [
            | inr c ↦ rw (e, c) gone
            | inl c ↦ elim (Bool-cases (ltb max_bytes (length read))) [
              | inl b ↦ rw (e, c, b) gone
              | inr b ↦ absurd (ground (arith, e, c, b, refused))
            ]
          ]
        ]

    -- a copy that is refused leaves the files as they were before its temporary file
    pub created-leaves :
        (dir ext p : String) (d : fs.Disk)
        → let r = created fs src max_bytes (fs.create_temp dir ext d) in
          r.0 ≡ none → fs.files r.1 p ≡ fs.files d p
    created-leaves dir ext p d refused =
        let t = fs.create_temp dir ext d in
        elim (Option-cases t.0) [
          | inl e ↦ rw e (fs.create_temp-others dir ext p d (λ k. cc (e, k)))
          | inr (tmp, e) ↦ rw e (
              copy_into-leaves tmp p d t.1 (fs.create_temp-fresh dir ext tmp d e)
                (λ q differs.
                  fs.create_temp-others dir ext q d (λ k. differs (same_name tmp q e k)))
                (rw e at refused))
        ]

-- With the largest int64 as the limit, the limit of the reader wraps: the copy of any source, one that
-- fails included, is accepted and its file is empty.
pub copy_capped-wraps :
    (fs : Files) (default_max : ℕ) (dir ext t : String) (src : Source) (d : fs.Disk)
    → (fs.create_temp dir ext d).0 ≡ some t
    → ((bytes : List ℕ) (d : fs.Disk) → (fs.write t bytes d).0 ≡ true)
    → ((d : fs.Disk) → (fs.close t d).0 ≡ true)
    → let r = copy_capped fs default_max dir ext src (2 ^ 63 - 1) d in
      (r.0 ≡ some t) × (fs.files r.1 t ≡ some [])
unfolding copy_capped
copy_capped-wraps fs default_max dir ext t src d e writes closes =
    let created = (fs.create_temp dir ext d).1 in
    let copied = fs.write t [] created in
    let unnoticed : limited_fails (2 ^ 63 - 1) src ≡ false = ground arith in
    let held =
      ap (λ g. g t) (fs.close-files t copied.1) ∙ fs.write-holds t [] created (writes [] created) in
    rw (copy_capped, e, writes [] created, closes copied.1, unnoticed) (refl, held)
