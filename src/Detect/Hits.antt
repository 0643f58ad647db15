-- ===== src/Detect/Hits.antt =====
-- What a scan of morf/detect/detect.go reports of what ripgrep has found.
use morf.Prelude.{ℕ, Bool, true, false, Option, none, some, List, [], ◌∷◌, ◌++◌, map, take, select}
use morf.Finding.{SecretModel}
use morf.Command.{Process, max_line_bytes}
use morf.Command.Stream.{lines_from, has_bytes}
use morf.Detect.Patterns.{Regexps, PatternCache}
use morf.Detect.Lines.{LineTexts}
use morf.Detect.Corpus.{Tools, parse_hit, hit_findings}

abbrev pub lines_of : Process → List (List ℕ)
lines_of p = select has_bytes (map (take max_line_bytes) (lines_from [] p.fragments))

abbrev is_some : {A : Type 0} → Option A → Bool
is_some none = false
is_some (some a) = true

module _ (tools : Tools) (texts : LineTexts) (regexps : Regexps) {F : Type 0} (no_score : F) where
  abbrev pub is_hit : List ℕ → Bool
  is_hit b = elim (parse_hit tools texts b) [ none ↦ false | some hit ↦ true ]

  abbrev pub all_findings : PatternCache regexps → List (List ℕ) → List (SecretModel F)
  all_findings c [] = []
  all_findings c (b ∷ lines) =
      hit_findings tools texts regexps no_score c (parse_hit tools texts b) ++ all_findings c lines

  abbrev collect : PatternCache regexps → List ℕ → List (SecretModel F) → List (SecretModel F)
  collect c b out = out ++ hit_findings tools texts regexps no_score c (parse_hit tools texts b)
