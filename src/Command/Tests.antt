-- ===== src/Command/Tests.antt =====
-- The theorem on morf/utils/command.go at the output of a small program.
use morf.Prelude.{◌≡◌, refl, true, false, none, List, [], ◌∷◌, ◌++◌, ℕ, map, take, select}
use morf.Command.{Process, max_line_bytes, ending, run_with_context_stream}
use morf.Command.Stream.{lines_from, has_bytes, calls, never_fails, run_with_context_stream-lines}

-- a line in two fragments, an empty one, and an end without a newline
abbrev program : Process
program = record {
  pipe_opens = true;
  starts = true;
  fragments = (97 ∷ 98 ∷ [], true) ∷ (99 ∷ [], false) ∷ ([], false) ∷ (100 ∷ [], true) ∷ [];
  read_fails = false;
  wait = none;
  context = none;
}

abbrev collect : List ℕ → List (List ℕ) → List (List ℕ)
collect line lines = lines ++ line ∷ []

collected :
    (run_with_context_stream (never_fails collect) program []).1
    ≡ (97 ∷ 98 ∷ 99 ∷ []) ∷ (100 ∷ []) ∷ []
unfolding run_with_context_stream
collected = refl

run_with_context_stream-lines_example : run_with_context_stream (never_fails collect) program [] ≡ (
  ending true program,
  calls collect (select has_bytes (map (take max_line_bytes) (lines_from [] program.fragments))) [],
)
run_with_context_stream-lines_example = run_with_context_stream-lines collect program [] refl refl
