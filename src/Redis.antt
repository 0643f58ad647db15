-- ===== src/Redis.antt =====
-- The Redis server and the connection to it, as morf/queue uses them through go-redis. The server
-- is not part of the repository: it is a parameter, with the documented effect of each command on
-- the data that can be read back. Keys are texts.
pub mod Memory
pub mod Frame
use morf.Prelude.{
  ℕ, zero, suc, ◌+◌, ◌-◌, ◌≡◌, String, Bool, true, false, Option, none, some, List, [], ◌∷◌, ◌++◌,
  if◌then◌else◌, str_eq, length, drop,
}

-- What can be read of a server: lists, hashes by field, sets by member, and plain values.
-- `hash_exists` is EXISTS on the key of a hash.
pub record Contents : Type 0 where
  pub lists : String → List String
  pub hashes : String → String → Option String
  pub hash_exists : String → Bool
  pub sets : String → String → Bool
  pub strings : String → Option String

abbrev pub update {ℓ} : {A : Type ℓ} → (String → A) → String → A → String → A
update f k v j = if str_eq k j then v else f j

-- LREM key 1 v
abbrev pub remove_first : String → List String → List String
remove_first v [] = []
remove_first v (x ∷ xs) = if str_eq x v then xs else x ∷ remove_first v xs

abbrev pub has : String → List String → Bool
has v [] = false
has v (x ∷ xs) = if str_eq x v then true else has v xs

abbrev pub MapValues : Type 0
MapValues = String → Option String

-- HSET is additive: a field that the new values leave out keeps its old value.
abbrev pub overlay : MapValues → MapValues → MapValues
overlay new old f = elim (new f) [ none ↦ old f | some v ↦ some v ]

module _ (c : Contents) where
  abbrev pub with_list : String → List String → Contents
  with_list k l = record c { lists = update c.lists k l }

  abbrev pub with_member : String → String → Bool → Contents
  with_member k v b = record c { sets = update c.sets k (update (c.sets k) v b) }

  abbrev pub with_fields : String → MapValues → Contents
  with_fields k new = record c {
    hashes = update c.hashes k (overlay new (c.hashes k));
    hash_exists = update c.hash_exists k true;
  }

  abbrev pub without_key : String → Contents
  without_key k = record c {
    lists = update c.lists k [];
    hashes = update c.hashes k (λ f. none);
    hash_exists = update c.hash_exists k false;
    sets = update c.sets k (λ v. false);
    strings = update c.strings k none;
  }

  -- BLMOVE source destination LEFT RIGHT, on what the source holds
  abbrev pub move_head : String → String → List String → Contents
  move_head k j [] = c
  move_head k j (v ∷ rest) =
      let popped = update c.lists k rest in
      record c { lists = update popped j (popped j ++ v ∷ []) }

-- The write commands. HSET is only called with at least one field.
pub record Redis : Type 1 where
  pub Store : Type 0
  pub view : Store → Contents
  pub rpush : String → String → Store → Store
  pub lpush : String → String → Store → Store
  pub blmove : String → String → Store → Store
  pub lrem_one : String → String → Store → Store
  pub ltrim_last : String → ℕ → Store → Store
  pub sadd : String → String → Store → Store
  pub srem : String → String → Store → Store
  pub hset : String → MapValues → Store → Store
  pub expire : String → ℕ → Store → Store
  pub set : String → String → Store → Store
  pub del : String → Store → Store
  pub view-rpush :
      (k v : String) (s : Store)
      → view (rpush k v s) ≡ with_list (view s) k ((view s).lists k ++ v ∷ [])
  pub view-lpush :
      (k v : String) (s : Store) → view (lpush k v s) ≡ with_list (view s) k (v ∷ (view s).lists k)
  pub view-blmove :
      (k j : String) (s : Store) → view (blmove k j s) ≡ move_head (view s) k j ((view s).lists k)
  pub view-lrem_one :
      (k v : String) (s : Store)
      → view (lrem_one k v s) ≡ with_list (view s) k (remove_first v ((view s).lists k))
  pub view-ltrim_last :
      (k : String) (n : ℕ) (s : Store)
      → view (ltrim_last k n s)
        ≡ with_list (view s) k (drop (length ((view s).lists k) - n) ((view s).lists k))
  pub view-sadd : (k v : String) (s : Store) → view (sadd k v s) ≡ with_member (view s) k v true
  pub view-srem : (k v : String) (s : Store) → view (srem k v s) ≡ with_member (view s) k v false
  pub view-hset :
      (k : String) (new : MapValues) (s : Store) → view (hset k new s) ≡ with_fields (view s) k new
  -- a timeout is set; what it deletes later is a step of its own
  pub view-expire : (k : String) (n : ℕ) (s : Store) → view (expire k n s) ≡ view s
  pub view-set :
      (k v : String) (s : Store)
      → view (set k v s) ≡ record (view s) { strings = update (view s).strings k (some v) }
  pub view-del : (k : String) (s : Store) → view (del k s) ≡ without_key (view s) k

-- What becomes of one round trip. A call that an open circuit breaker sheds counts as refused.
pub data Fault : Type 0 where
  delivered refused reply_lost : Fault

pub record World (S : Type 0) : Type 0 where
  pub store : S
  pub faults : List Fault

pub data Error : Type 0 where
  redis_failed no_job queue_full job_not_found not_in_dlq not_cancellable : Error

pub data Reply (A : Type 0) : Type 0 where
  ok : A → Reply A
  err : Error → Reply A

abbrev pub Net : Type 0 → Type 0 → Type 0
Net S A = World S → Reply A × World S

module _ {S A : Type 0} where
  abbrev pub pure : A → Net S A
  pure a w = (ok a, w)

  abbrev pub raise : Error → Net S A
  raise e w = (err e, w)

  -- the fate of the next round trip; where none is listed it is delivered
  abbrev answer : (S → A × S) → S → List Fault → Reply A × World S
  answer cmd s [] = let (a, s') = cmd s in (ok a, record { store = s'; faults = [] })
  answer cmd s (delivered ∷ fs) = let (a, s') = cmd s in (ok a, record { store = s'; faults = fs })
  answer cmd s (refused ∷ fs) = (err redis_failed, record { store = s; faults = fs })
  answer cmd s (reply_lost ∷ fs) =
      let (a, s') = cmd s in (err redis_failed, record { store = s'; faults = fs })

  -- One command, or one atomic script, sent to the server.
  abbrev pub trip : (S → A × S) → Net S A
  trip cmd w = answer cmd w.store w.faults

  -- Go code that looks at the error itself.
  abbrev pub attempt : Net S A → Net S (Reply A)
  attempt m w = let (r, w') = m w in (ok r, w')

module _ {S A B : Type 0} where
  abbrev continue : Reply A → (A → Net S B) → Net S B
  continue (ok a) f w = f a w
  continue (err e) f w = (err e, w)

  infixl 5 ◌>>=◌ ◌>>◌
  abbrev pub ◌>>=◌ : Net S A → (A → Net S B) → Net S B
  ◌>>=◌ m f w = let (r, w') = m w in continue r f w'

  abbrev pub ◌>>◌ : Net S A → Net S B → Net S B
  m >> k = m >>= λ _. k

module _ {S : Type 0} where
  -- a command whose reply carries nothing of interest
  abbrev pub write : (S → S) → Net S (Unit {0})
  write f = trip (λ s. (tt, f s))

-- Whatever becomes of a round trip: delivered, refused, or delivered with its reply lost.
pub trip_cases {ℓ} :
    {S A : Type 0} (P : Reply A × World S → Type ℓ) (cmd : S → A × S) (w : World S)
    → ((fs : List Fault) → P (ok (cmd w.store).0, record { store = (cmd w.store).1; faults = fs }))
    → ((fs : List Fault) → P (err redis_failed, record { store = w.store; faults = fs }))
    → ((fs : List Fault) → P (err redis_failed, record { store = (cmd w.store).1; faults = fs }))
    → P (trip cmd w)
trip_cases P cmd w done lost half = go w.faults
  where
    go : (fs : List Fault) → P (answer cmd w.store fs)
    go [] = done []
    go (delivered ∷ fs) = done fs
    go (refused ∷ fs) = lost fs
    go (reply_lost ∷ fs) = half fs
