-- ===== src/Redis/Memory.antt =====
-- A server in memory that meets the documented effects, for the concrete runs.
use morf.Prelude.{refl, [], none, ◌++◌, ◌∷◌, length, ◌-◌, drop, some, true, false}
use morf.Redis.{
  Redis, Contents, with_list, with_member, with_fields, without_key, remove_first, update,
  move_head,
}

abbrev pub empty : Contents
empty = record {
  lists = λ k. [];
  hashes = λ k f. none;
  hash_exists = λ k. false;
  sets = λ k v. false;
  strings = λ k. none;
}

abbrev pub memory : Redis
memory = record {
  Store = Contents;
  view = λ s. s;
  rpush = λ k v s. with_list s k (s.lists k ++ v ∷ []);
  lpush = λ k v s. with_list s k (v ∷ s.lists k);
  blmove = λ k j s. move_head s k j (s.lists k);
  lrem_one = λ k v s. with_list s k (remove_first v (s.lists k));
  ltrim_last = λ k n s. with_list s k (drop (length (s.lists k) - n) (s.lists k));
  sadd = λ k v s. with_member s k v true;
  srem = λ k v s. with_member s k v false;
  hset = λ k new s. with_fields s k new;
  expire = λ k n s. s;
  set = λ k v s. record s { strings = update s.strings k (some v) };
  del = λ k s. without_key s k;
  view-rpush = λ k v s. refl;
  view-lpush = λ k v s. refl;
  view-blmove = λ k j s. refl;
  view-lrem_one = λ k v s. refl;
  view-ltrim_last = λ k n s. refl;
  view-sadd = λ k v s. refl;
  view-srem = λ k v s. refl;
  view-hset = λ k new s. refl;
  view-expire = λ k n s. refl;
  view-set = λ k v s. refl;
  view-del = λ k s. refl;
}
