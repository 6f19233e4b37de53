-- ===== src/Storage/View.antt =====
-- A `DiskStorage` as the finite map that it stands for, and its methods as operations on that map.
use mathlib.Core.Path.{fun_ext}
use jkv.Base.{
  ◌≡◌, refl, Bool, true, false, fatal_if-passes, dirs_failed, open_failed, ◌⊎◌, inl, inr, Option,
  none, some, returned, fatal, get_failed, Bytes, bytes_eq, arith, if◌then◌else◌,
}
use jkv.Storage.{
  ok_status, not_found, Leveldb, LeveldbLaws, IsDurable, is_ok, disk_storage, delete_storage,
  DiskStorage, read_of, get, put, del,
}

abbrev pub Map : Type 0
Map = Bytes → Option Bytes

abbrev pub update : Map → Bytes → Bytes → Map
update m k v = λ j. if bytes_eq k j then some v else m j

abbrev pub erase : Map → Bytes → Map
erase m k = λ j. if bytes_eq k j then none else m j

-- No operation of the database fails, but for a read of a missing key.
pub record IsReliable (l : Leveldb) : Type 0 where
  pub get_ok : (db : l.Db) (k : Bytes) → ((l.get db k).0 ≡ ok_status) ⊎ ((l.get db k).0 ≡ not_found)
  pub put_ok : (db : l.Db) (k v : Bytes) → (l.put db k v).0 ≡ ok_status
  pub delete_ok : (db : l.Db) (k : Bytes) → (l.delete db k).0 ≡ ok_status

module _ (l : Leveldb) where
  abbrev pub view : DiskStorage l → Map
  view s = λ k. read_of (l.get s.db k)

  -- The files when there is a directory at a path, made if it was not there; and did that throw?
  abbrev pub files_with : l.Files → Bytes → Bool × l.Files
  files_with fs path = if l.exists fs path then (false, fs) else l.create_directories fs path

  -- The map of the database that `DiskStorage` would open at a path.
  abbrev pub map_on : l.Files → Bytes → Map
  map_on fs path = λ k. read_of (l.get (l.open_db (files_with fs path).1 path).1 k)

  pub view-disk_storage :
      (fs fs' : l.Files) (path : Bytes) (s : DiskStorage l)
      → disk_storage l fs path ≡ returned (s, fs')
      → (view s ≡ map_on fs path) × (s.db_path ≡ path)
  unfolding disk_storage
  view-disk_storage fs fs' path s h =
      let opened = l.open_db (files_with fs path).1 path in
      let (_, made) = fatal_if-passes (files_with fs path).0 dirs_failed _ h in
      let (_, e) = fatal_if-passes (if is_ok opened.0 then false else true) open_failed _ made in
      let same : record { db_path = path; db = opened.1 } ≡ s = ground arith in
      rw (← same) (refl, refl)

  module _ (durable : IsDurable l) where
    -- What a process leaves when it closes its database, and when it ends without.
    pub map_on-delete_storage :
        (fs : l.Files) (s : DiskStorage l) → map_on (delete_storage l fs s) s.db_path ≡ view s
    map_on-delete_storage fs s = fun_ext λ k.
        rw (durable.exists-delete_db fs s.db_path s.db) (durable.get-delete_db fs s.db_path s.db k)

    pub map_on-killed :
        (fs : l.Files) (s : DiskStorage l) → map_on (l.killed fs s.db_path s.db) s.db_path ≡ view s
    map_on-killed fs s =
        fun_ext
          λ k. rw (durable.exists-killed fs s.db_path s.db) (durable.get-killed fs s.db_path s.db k)

    pub map_on-new :
        (fs : l.Files) (path : Bytes) → l.exists fs path ≡ false → map_on fs path ≡ λ k. none
    map_on-new fs path new = fun_ext λ k. rw new (durable.get-new fs path k new)

  -- What `Get` returns is what the map holds, also where the database may fail.
  pub view_of-get : (s : DiskStorage l) (k v : Bytes) → get l s k ≡ returned v → view s k ≡ some v
  unfolding get
  view_of-get s k v h = ground arith

  module _ (reliable : IsReliable l) where
    -- `Get` returns exactly the value that the map holds, and aborts on a missing key.
    pub get_cases :
        (s : DiskStorage l) (k : Bytes)
        → ((view s k ≡ none) × (get l s k ≡ fatal get_failed))
          ⊎ ((v : Bytes) × (view s k ≡ some v) × (get l s k ≡ returned v))
    unfolding get
    get_cases s k = elim (reliable.get_ok s.db k) [
      | inl e ↦ inr ((l.get s.db k).1, ground arith, ground arith)
      | inr e ↦ inl (ground arith, ground arith)
    ]

    module _ (laws : LeveldbLaws l) where
      -- `Put` returns, and the map is updated at the key.
      pub view-put :
          (s : DiskStorage l) (k v : Bytes)
          → (s' : DiskStorage l) × (put l s k v ≡ returned s') × (view s' ≡ update (view s) k v)
      unfolding put
      view-put s k v = (
        record s { db = (l.put s.db k v).1 },
        ground (arith, reliable.put_ok s.db k v),
        fun_ext λ j. laws.get-put s.db k v j (reliable.put_ok s.db k v),
      )

      -- `Del` returns, and the map has lost the key.
      pub view-del :
          (s : DiskStorage l) (k : Bytes)
          → (s' : DiskStorage l) × (del l s k ≡ returned s') × (view s' ≡ erase (view s) k)
      unfolding del
      view-del s k = (
        record s { db = (l.delete s.db k).1 },
        ground (arith, reliable.delete_ok s.db k),
        fun_ext λ j. laws.get-delete s.db k j (reliable.delete_ok s.db k),
      )
