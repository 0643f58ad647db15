-- ===== src/Report/Preview.antt =====
-- How much of a secret the preview of morf/report/sarif.go shows.
use morf.Prelude.{
  ℕ, zero, suc, ◌-◌, ◌≤◌, ◌≡◌, refl, List, [], ◌∷◌, ◌++◌, length, length-append, length-drop, take,
  drop, arith,
}
use morf.Report.{ellipsis, mask_secret}

length-take-le : (n : ℕ) (xs : List ℕ) → length (take n xs) ≤ n
length-take-le zero xs = omega arith
length-take-le (suc n) [] = omega arith
length-take-le (suc n) (x ∷ xs) = omega (arith, length-take-le n xs)

-- from six runes on, the preview is made of the first four and the last two
mask_secret-long :
    (v : List ℕ) → 6 ≤ length v → mask_secret v ≡ take 4 v ++ (ellipsis ++ drop (length v - 2) v)
unfolding mask_secret
mask_secret-long v h = ground arith

-- Two secrets of at least six runes with the same first four and the same last two have the same
-- preview, so it shows nothing else of them, their lengths included; it has at most seven runes.
pub mask_secret-hides :
    (v w : List ℕ)
    → 6 ≤ length v
    → 6 ≤ length w
    → take 4 v ≡ take 4 w
    → drop (length v - 2) v ≡ drop (length w - 2) w
    → (mask_secret v ≡ mask_secret w) × (length (mask_secret v) ≤ 7)
mask_secret-hides v w h k first last = (
  rw (mask_secret-long v h, mask_secret-long w k, first, last) refl,
  rw (mask_secret-long v h) (
      omega (
        arith,
        length-append (take 4 v) (ellipsis ++ drop (length v - 2) v),
        length-take-le 4 v,
        length-drop (length v - 2) v,
      )),
)

-- A secret of six runes stands in its preview whole: leaving out the fifth rune gives it back.
mask_secret-reveals :
    (v : List ℕ) → length v ≡ 6 → take 4 (mask_secret v) ++ drop 5 (mask_secret v) ≡ v
unfolding mask_secret
mask_secret-reveals [] h = absurd (omega arith)
mask_secret-reveals (a ∷ []) h = absurd (omega arith)
mask_secret-reveals (a ∷ b ∷ []) h = absurd (omega arith)
mask_secret-reveals (a ∷ b ∷ c ∷ []) h = absurd (omega arith)
mask_secret-reveals (a ∷ b ∷ c ∷ d ∷ []) h = absurd (omega arith)
mask_secret-reveals (a ∷ b ∷ c ∷ d ∷ e ∷ []) h = absurd (omega arith)
mask_secret-reveals (a ∷ b ∷ c ∷ d ∷ e ∷ f ∷ []) h = refl
mask_secret-reveals (a ∷ b ∷ c ∷ d ∷ e ∷ f ∷ g ∷ v) h = absurd (omega arith)
