-- ===== src/Command.antt =====
-- morf/utils/command.go: `RunWithContextStream`, which hands the output of a program to a callback line
-- by line, and `ExitCodeOf`. What the program and the pipe do is an argument: the results of
-- `bufio.Reader.ReadLine` in their order, and how the run ends.
pub mod Stream
mod Tests
use morf.Prelude.{
  ℕ, zero, suc, ◌-◌, Bool, true, false, Option, none, some, List, [], ◌∷◌, ◌++◌, if◌then◌else◌, ltb,
  length, take,
}

pub data ContextError : Type 0 where
  deadline_exceeded cancelled : ContextError

-- why a run has failed
pub data RunError : Type 0 where
  pipe_failed start_failed read_failed callback_failed : RunError
  -- a status, or none for a program that a signal has ended
  exited : Option ℕ → RunError
  ended : ContextError → RunError

pub data ExitCode : Type 0 where
  status : ℕ → ExitCode
  -- the codes -1 and -2
  unknown timed_out : ExitCode

unfoldable pub exit_code_of : Option RunError → ExitCode
exit_code_of none = status 0
exit_code_of (some (RunError.exited (some n))) = status n
exit_code_of (some (RunError.ended ContextError.deadline_exceeded)) = timed_out
exit_code_of (some e) = unknown

-- the bytes of a fragment, and whether the line goes on in the next one
abbrev pub Fragment : Type 0
Fragment = List ℕ × Bool

pub record Process : Type 0 where
  pub pipe_opens : Bool
  pub starts : Bool
  pub fragments : List Fragment
  -- the last read returns no bytes, with EOF or with an error
  pub read_fails : Bool
  -- how `Wait` ends: none for the status 0
  pub wait : Option (Option ℕ)
  pub context : Option ContextError

abbrev pub max_line_bytes : ℕ
max_line_bytes = 8_388_608

module _ (cap : ℕ) where
  abbrev pub append_capped : List ℕ → List ℕ → List ℕ
  append_capped line_buf frag =
      if ltb (length line_buf) cap
      then line_buf
        ++ (if ltb (cap - length line_buf) (length frag)
            then take (cap - length line_buf) frag
            else frag)
      else line_buf

  module _ {S : Type 0} (on_line : List ℕ → S → Bool × S) where
    abbrev pub deliver : List ℕ → S → Bool × S
    deliver [] s = (true, s)
    deliver (b ∷ line) s = on_line (b ∷ line) s

    -- whether no call of the callback has failed, and the state that the calls leave
    unfoldable pub read_loop : List Fragment → List ℕ → S → Bool × S
    read_loop [] line_buf s = deliver line_buf s
    read_loop ((frag, true) ∷ rest) line_buf s = read_loop rest (append_capped line_buf frag) s
    read_loop ((frag, false) ∷ rest) line_buf s =
        let delivered = deliver (append_capped line_buf frag) s in
        let others = read_loop rest [] delivered.1 in if delivered.0 then others else delivered

abbrev pub map_run_error : Option ContextError → Option ℕ → RunError
map_run_error none code = exited code
map_run_error (some e) code = ended e

abbrev pub ending : Bool → Process → Option RunError
ending false p = some callback_failed
ending true p = elim p.wait [
  | none ↦ if p.read_fails then some read_failed else none
  | some code ↦ some (map_run_error p.context code)
]

unfoldable pub run_with_context_stream :
    {S : Type 0} → (List ℕ → S → Bool × S) → Process → S → Option RunError × S
unfolding read_loop
run_with_context_stream on_line p s =
    let read = read_loop max_line_bytes on_line p.fragments [] s in
    if p.pipe_opens
    then (if p.starts then (ending read.0 p, read.1) else (some start_failed, s))
    else (some pipe_failed, s)
