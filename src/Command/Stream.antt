-- ===== src/Command/Stream.antt =====
-- The lines that `RunWithContextStream` of morf/utils/command.go delivers.
use morf.Prelude.{
  ℕ, zero, suc, ◌≤◌, ◌≡◌, refl, sym, ap, ◌∙◌, Bool, true, false, List, [], ◌∷◌, ◌++◌, map, length,
  take, select, arith,
}
use morf.Command.{
  Fragment, Process, append_capped, deliver, read_loop, ending, max_line_bytes,
  run_with_context_stream,
}

-- the lines as the program wrote them, the first going on after `line`
abbrev pub lines_from : List ℕ → List Fragment → List (List ℕ)
lines_from line [] = line ∷ []
lines_from line ((frag, true) ∷ rest) = lines_from (line ++ frag) rest
lines_from line ((frag, false) ∷ rest) = (line ++ frag) ∷ lines_from [] rest

abbrev pub has_bytes : List ℕ → Bool
has_bytes [] = false
has_bytes (b ∷ line) = true

-- a callback that never fails, and a list of its calls
abbrev pub never_fails : {S : Type 0} → (List ℕ → S → S) → List ℕ → S → Bool × S
never_fails f line s = (true, f line s)

abbrev pub calls : {S : Type 0} → (List ℕ → S → S) → List (List ℕ) → S → S
calls f [] s = s
calls f (line ∷ rest) s = calls f rest (f line s)

take_all : (n : ℕ) (xs : List ℕ) → length xs ≤ n → take n xs ≡ xs
take_all zero [] h = refl
take_all zero (x ∷ xs) h = absurd (omega arith)
take_all (suc n) [] h = refl
take_all (suc n) (x ∷ xs) h = ap (λ ys. x ∷ ys) (take_all n xs (omega arith))

append_capped-take :
    (cap : ℕ) (line frag : List ℕ)
    → append_capped cap (take cap line) frag ≡ take cap (line ++ frag)
append_capped-take zero line frag = refl
append_capped-take (suc cap) [] frag = ground (arith, take_all (suc cap) frag)
append_capped-take (suc cap) (x ∷ line) frag = ground (arith, append_capped-take cap line frag)

take-nil : (n : ℕ) → take {A = ℕ} n [] ≡ []
take-nil zero = refl
take-nil (suc n) = refl

module _ (cap : ℕ) {S : Type 0} (f : List ℕ → S → S) where
  delivered : (line : List ℕ) (s : S) → (deliver cap (never_fails f) line s).0 ≡ true
  delivered [] s = refl
  delivered (b ∷ line) s = refl

  deliver-calls :
      (line : List ℕ) (lines : List (List ℕ)) (s : S)
      → calls f (select has_bytes (line ∷ lines)) s
        ≡ calls f (select has_bytes lines) (deliver cap (never_fails f) line s).1
  deliver-calls [] lines s = refl
  deliver-calls (b ∷ line) lines s = refl

  last_line :
      (line : List ℕ) (s : S)
      → deliver cap (never_fails f) line s ≡ (true, calls f (select has_bytes (line ∷ [])) s)
  last_line [] s = refl
  last_line (b ∷ line) s = refl

  read_loop-from :
      (frags : List Fragment) (line : List ℕ) (s : S)
      → read_loop cap (never_fails f) frags (take cap line) s
        ≡ (true, calls f (select has_bytes (map (take cap) (lines_from line frags))) s)
  unfolding read_loop
  read_loop-from [] line s = last_line (take cap line) s
  read_loop-from ((frag, true) ∷ rest) line s =
      rw (append_capped-take cap line frag) (read_loop-from rest (line ++ frag) s)
  read_loop-from ((frag, false) ∷ rest) line s =
      let full = take cap (line ++ frag) in
      let s' = (deliver cap (never_fails f) full s).1 in
      rw
        (
          append_capped-take cap line frag,
          delivered full s,
          deliver-calls full (map (take cap) (lines_from [] rest)) s,
        )
        (ap (λ buf. read_loop cap (never_fails f) rest buf s') (sym (take-nil cap))
          ∙ read_loop-from rest [] s')

-- A program that starts has each line of its output handed to the callback once, in order, cut to its
-- first 8 MiB, lines without bytes left out; with a callback that does not fail, only the end of the
-- program or of the pipe decides whether the run fails.
pub run_with_context_stream-lines :
    {S : Type 0} (f : List ℕ → S → S) (p : Process) (s : S)
    → p.pipe_opens ≡ true
    → p.starts ≡ true
    → run_with_context_stream (never_fails f) p s ≡ (
      ending true p,
      calls f (select has_bytes (map (take max_line_bytes) (lines_from [] p.fragments))) s,
    )
unfolding run_with_context_stream
run_with_context_stream-lines f p s opens starts =
    let all_read =
      ap (λ buf. read_loop max_line_bytes (never_fails f) p.fragments buf s)
        (sym (take-nil max_line_bytes))
      ∙ read_loop-from max_line_bytes f p.fragments [] s in
    rw (opens, starts, all_read) refl
