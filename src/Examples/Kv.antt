-- ===== src/Examples/Kv.antt =====
-- A database that is an association list, newest binding first; no operation of it fails.
use jkv.Base.{
  ◌≡◌, refl, true, Bool, inl, inr, false, Option, none, some, List, [], ◌∷◌, arith, Bytes, bytes_eq,
  bytes_eq_iff, if◌then◌else◌, Option-cases,
}
use jkv.Storage.{Status, ok_status, not_found, Leveldb, LeveldbLaws, IsDurable, read_of}
use jkv.Storage.View.{IsReliable}

abbrev pub Pairs : Type 0
Pairs = List (Bytes × Bytes)

abbrev look : Bytes → Pairs → Option Bytes
look j [] = none
look j ((k, v) ∷ l) = if bytes_eq k j then some v else look j l

abbrev drop_key : Bytes → Pairs → Pairs
drop_key k [] = []
drop_key k ((i, v) ∷ l) = if bytes_eq i k then drop_key k l else (i, v) ∷ drop_key k l

abbrev to_status : Option Bytes → Status × Bytes
to_status none = (not_found, [])
to_status (some v) = (ok_status, v)

-- The file system is the list of the databases, newest first, each with its path.
abbrev Dirs : Type 0
Dirs = List (Bytes × Pairs)

abbrev dir_at : Dirs → Bytes → Option Pairs
dir_at [] p = none
dir_at ((q, db) ∷ fs) p = if bytes_eq q p then some db else dir_at fs p

abbrev is_dir : Option Pairs → Bool
is_dir none = false
is_dir (some db) = true

abbrev db_of : Option Pairs → Pairs
db_of none = []
db_of (some db) = db

abbrev pub pairs_db : Leveldb
pairs_db = record {
  Db = Pairs;
  get = λ db k. to_status (look k db);
  put = λ db k v. (ok_status, (k, v) ∷ db);
  delete = λ db k. (ok_status, drop_key k db);
  Files = Dirs;
  exists = λ fs p. is_dir (dir_at fs p);
  create_directories = λ fs p. (false, (p, []) ∷ fs);
  open_db = λ fs p. (ok_status, db_of (dir_at fs p));
  delete_db = λ fs p db. (p, db) ∷ fs;
  killed = λ fs p db. (p, db) ∷ fs;
}

read-to_status : (o : Option Bytes) → read_of (to_status o) ≡ o
read-to_status none = refl
read-to_status (some v) = refl

look-drop_key :
    (k j : Bytes) (l : Pairs) → look j (drop_key k l) ≡ (if bytes_eq k j then none else look j l)
look-drop_key k j [] = ground arith
look-drop_key k j ((i, v) ∷ l) =
    ground (arith, look-drop_key k j l, bytes_eq_iff i k, bytes_eq_iff i j, bytes_eq_iff k j)

pub pairs_db-laws : LeveldbLaws pairs_db
pairs_db-laws = record {
  get-put = λ db k v j _.
      ground (arith, read-to_status (look j db), read-to_status (look j ((k, v) ∷ db)));
  get-delete = λ db k j _. ground (
    arith,
    read-to_status (look j db),
    read-to_status (look j (drop_key k db)),
    look-drop_key k j db,
  );
}

bytes_eq_refl : (p : Bytes) → bytes_eq p p ≡ true
bytes_eq_refl p = (bytes_eq_iff p p).1 refl

pub pairs_db-durable : IsDurable pairs_db
pairs_db-durable = record {
  exists-delete_db = λ fs p db. rw (bytes_eq_refl p) refl;
  exists-killed = λ fs p db. rw (bytes_eq_refl p) refl;
  get-delete_db = λ fs p db k. rw (bytes_eq_refl p) refl;
  get-killed = λ fs p db k. rw (bytes_eq_refl p) refl;
  get-new = λ fs p k _. rw (bytes_eq_refl p) refl;
}

pub pairs_db-reliable : IsReliable pairs_db
pairs_db-reliable = record {
  get_ok = λ db k. elim (Option-cases (look k db)) [ inl e ↦ inr (rw e) | inr (v, e) ↦ inl (rw e) ];
  put_ok = λ db k v. refl;
  delete_ok = λ db k. refl;
}
