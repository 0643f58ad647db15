-- ===== src/Storage.antt =====
-- The interface of morf/storage/storage.go: what a backend promises to the handlers that use it. The
-- bytes of an object are a text.
pub mod Local
pub mod Atomic
pub mod Plain
mod Tests
use morf.Prelude.{◌≡◌, String, Bool, true, false, Option, none, some}

pub record Storage : Type 1 where
  pub State : Type 0
  pub objects : State → String → Option String
  -- each reports whether it has succeeded
  pub put : String → String → State → Bool × State
  pub delete : String → State → Bool × State
  pub put-stores :
      (key bytes : String) (s : State)
      → (put key bytes s).0 ≡ true
      → objects (put key bytes s).1 key ≡ some bytes
  -- a failed call does not damage the object that the key had
  pub put-keeps :
      (key bytes held : String) (s : State)
      → (put key bytes s).0 ≡ false
      → objects s key ≡ some held
      → objects (put key bytes s).1 key ≡ some held
  pub delete-removes :
      (key : String) (s : State) → (delete key s).0 ≡ true → objects (delete key s).1 key ≡ none
