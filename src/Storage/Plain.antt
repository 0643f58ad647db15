-- ===== src/Storage/Plain.antt =====
-- A file system in memory, on which every call but the renaming onto "/data/full" succeeds.
use morf.Prelude.{
  ◌≡◌, ◌≢◌, refl, sym, ap, ◌∙◌, String, Bool, true, false, Option, none, some, [], ◌∷◌,
  if◌then◌else◌, str_eq, eq_refl, arith, inl, inr, Bool-cases, Option-cases,
}
use Prim.Native.String
use morf.Prelude.Text.{str_eq_of_ne}
use morf.Storage.Local.{FileSystem, Paths}

abbrev pub Tree : Type 0
Tree = String → Option String

abbrev write : String → Option String → Tree → Tree
write t v d p = if str_eq t p then v else d p

pub write-same : (t : String) (v : Option String) (d : Tree) → write t v d t ≡ v
write-same t v d = rw (eq_refl t) refl

pub write-other : (t p : String) (v : Option String) (d : Tree) → p ≢ t → write t v d p ≡ d p
write-other t p v d differs = rw (str_eq_of_ne t p λ e. differs (sym e)) refl

abbrev create : Tree → Option String × Tree
create d = elim (d "tmp") [ none ↦ (some "tmp", d) | some v ↦ (none, d) ]

abbrev move : String → String → Tree → Bool × Tree
move t p d = if str_eq p "/data/full" then (false, d) else (true, write p (d t) (write t none d))

pub create-fresh : (t : String) (d : Tree) → (create d).0 ≡ some t → d t ≡ none
create-fresh t d made = elim (Option-cases (d "tmp")) [
  | inl e ↦ ap d (sym (ground (arith, e, made))) ∙ e
  | inr (v, e) ↦ absurd (ground (arith, e, made))
]

pub create-keeps : (p held : String) (d : Tree) → d p ≡ some held → (create d).1 p ≡ some held
create-keeps p held d there = elim (Option-cases (d "tmp")) [
  | inl e ↦ rw (create, e) there
  | inr (v, e) ↦ rw (create, e) there
]

pub move-moves : (t p : String) (d : Tree) → (move t p d).0 ≡ true → (move t p d).1 p ≡ d t
move-moves t p d moved = elim (Bool-cases (str_eq p "/data/full")) [
  | inl e ↦ absurd (ground (arith, e, moved))
  | inr e ↦ rw e (write-same p (d t) (write t none d))
]

pub move-failed : (t p : String) (d : Tree) → (move t p d).0 ≡ false → (move t p d).1 ≡ d
move-failed t p d failed = elim (Bool-cases (str_eq p "/data/full")) [
  | inl e ↦ rw e refl
  | inr e ↦ absurd (ground (arith, e, failed))
]

abbrev pub in_memory : FileSystem
in_memory = record {
  Disk = Tree;
  files = λ d. d;
  mkdir_all = λ p d. (true, d);
  create_temp = λ dir d. create d;
  copy = λ t bytes d. (true, write t (some bytes) d);
  sync = λ t d. (true, d);
  close = λ t d. (true, d);
  rename = move;
  remove = λ t d. (true, write t none d);
  is_not_exist = λ p d. false;
  mkdir_all-files = λ p d. refl;
  create_temp-fresh = λ dir t d. create-fresh t d;
  create_temp-keeps = λ dir p held d. create-keeps p held d;
  copy-writes = λ t bytes d ok. write-same t (some bytes) d;
  copy-others = λ t bytes p d. write-other t p (some bytes) d;
  sync-files = λ t d. refl;
  close-files = λ t d. refl;
  rename-moves = move-moves;
  rename-failed = move-failed;
  remove-removes = λ p d gone. write-same p none d;
  remove-others = λ t p d. write-other t p none d;
  remove-missing = λ p d missing failed. write-same p none d;
}

-- paths of one segment
abbrev pub flat : Paths
flat = record {
  trim_space = λ s. s;
  is_abs = λ s. false;
  has_slash_prefix = λ s. str_eq (String.slice s 0 1) "/";
  clean = λ s. s;
  segments = λ s. s ∷ [];
  join = λ base rel. String.◌++◌ base (String.◌++◌ "/" rel);
  dir = λ p. "/data";
}
