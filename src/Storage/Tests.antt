-- ===== src/Storage/Tests.antt =====
-- Runs of morf/storage/local.go, and its theorems at concrete inputs.
use morf.Prelude.{◌≡◌, refl, true, false, none, some, if◌then◌else◌, str_eq}
use morf.Storage.Local.{resolve_key, sanitize_key, commit, local_put, local_delete, local_objects}
use morf.Storage.Atomic.{local_put-keeps}
use morf.Storage.Plain.{Tree, in_memory, flat}

program : Unit {0}
unfolding resolve_key sanitize_key commit local_put local_delete local_objects
program = tt

abbrev disk : Tree
disk p = if str_eq p "/data/full" then some "old" else none

parent_refused : resolve_key flat "/data" ".." ≡ none
unfolding program
parent_refused = refl

stores : (local_put in_memory flat "/data" "a" "new" disk).0 ≡ true
unfolding program
stores = refl

fails : (local_put in_memory flat "/data" "full" "new" disk).0 ≡ false
unfolding program
fails = refl

holds : local_objects in_memory flat "/data" disk "full" ≡ some "old"
unfolding program
holds = refl

local_put-keeps_example :
    local_objects in_memory flat "/data"
      (local_put in_memory flat "/data" "full" "new" disk).1
      "full"
    ≡ some "old"
local_put-keeps_example = local_put-keeps in_memory flat "/data" "full" "new" "old" disk fails holds
