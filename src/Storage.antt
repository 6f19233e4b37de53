-- ===== src/Storage.antt =====
-- storage/disk_storage.{h,cc}: a LevelDB database behind `DiskStorage`.
-- LevelDB and the file system are the parameter `Leveldb`; its laws are LevelDB's documented ones: a
-- key that was put reads back as that value, a deleted key as nothing, other keys are left alone.

pub mod View
use jkv.Base.{
  ◌≡◌, Bool, true, false, Option, none, some, Outcome, returned, fatal, dirs_failed, open_failed,
  get_failed, put_failed, del_failed, fatal_if, ◌>>◌, Bytes, bytes_eq, if◌then◌else◌,
}

-- `leveldb::Status`, as far as the code tells values apart
pub data Status : Type 0 where
  ok_status not_found io_error : Status

abbrev pub is_ok : Status → Bool
is_ok ok_status = true
is_ok not_found = false
is_ok io_error = false

pub record Leveldb : Type 1 where
  pub Db : Type 0
  -- `db->Get(ReadOptions(), key, &val)`: the status, and `val`
  pub get : Db → Bytes → Status × Bytes
  pub put : Db → Bytes → Bytes → Status × Db
  pub delete : Db → Bytes → Status × Db
  -- the file system: does a path exist, make directories and do they throw, open a database with
  -- `create_if_missing`
  pub Files : Type 0
  pub exists : Files → Bytes → Bool
  pub create_directories : Files → Bytes → Bool × Files
  pub open_db : Files → Bytes → Status × Db
  -- the files after `delete db`, and after the process of an open database has ended without it
  pub delete_db : Files → Bytes → Db → Files
  pub killed : Files → Bytes → Db → Files

-- The read that a client of the database sees: a value, or nothing.
abbrev pub read_of : Status × Bytes → Option Bytes
read_of (ok_status, v) = some v
read_of (not_found, v) = none
read_of (io_error, v) = none

pub record LeveldbLaws (l : Leveldb) : Type 0 where
  pub get-put :
      (db : l.Db) (k v j : Bytes)
      → (l.put db k v).0 ≡ ok_status
      → read_of (l.get (l.put db k v).1 j) ≡ (if bytes_eq k j then some v else read_of (l.get db j))
  pub get-delete :
      (db : l.Db) (k j : Bytes)
      → (l.delete db k).0 ≡ ok_status
      → read_of (l.get (l.delete db k).1 j) ≡ (if bytes_eq k j then none else read_of (l.get db j))

-- A database outlives its process: it is found again as it was left, whether it was closed or not, and
-- a database that is opened in a new directory is empty.
pub record IsDurable (l : Leveldb) : Type 0 where
  pub exists-delete_db :
      (fs : l.Files) (p : Bytes) (db : l.Db) → l.exists (l.delete_db fs p db) p ≡ true
  pub exists-killed : (fs : l.Files) (p : Bytes) (db : l.Db) → l.exists (l.killed fs p db) p ≡ true
  pub get-delete_db :
      (fs : l.Files) (p : Bytes) (db : l.Db) (k : Bytes)
      → read_of (l.get (l.open_db (l.delete_db fs p db) p).1 k) ≡ read_of (l.get db k)
  pub get-killed :
      (fs : l.Files) (p : Bytes) (db : l.Db) (k : Bytes)
      → read_of (l.get (l.open_db (l.killed fs p db) p).1 k) ≡ read_of (l.get db k)
  pub get-new :
      (fs : l.Files) (p k : Bytes)
      → l.exists fs p ≡ false
      → read_of (l.get (l.open_db (l.create_directories fs p).1 p).1 k) ≡ none

module _ (l : Leveldb) where
  open l use {Db, Files}

  -- `DiskStorage`: the path, and the open database
  pub record DiskStorage : Type 0 where
    pub db_path : Bytes
    pub db : Db

  -- `DiskStorage::DiskStorage`
  unfoldable pub disk_storage : Files → Bytes → Outcome (DiskStorage × Files)
  disk_storage fs path =
      let (throws, fs') = if l.exists fs path then (false, fs) else l.create_directories fs path in
      let (status, db) = l.open_db fs' path in
      do
        fatal_if throws dirs_failed
        fatal_if (if is_ok status then false else true) open_failed
        returned (record { db_path = path; db = db }, fs')

  -- `DiskStorage::~DiskStorage`; the pointer is not null once the constructor has returned.
  abbrev pub delete_storage : Files → DiskStorage → Files
  delete_storage fs s = l.delete_db fs s.db_path s.db

  -- `DiskStorage::Get`
  unfoldable pub get : DiskStorage → Bytes → Outcome Bytes
  get s key =
      let (status, val) = l.get s.db key in if is_ok status then returned val else fatal get_failed

  -- `DiskStorage::Put`
  unfoldable pub put : DiskStorage → Bytes → Bytes → Outcome DiskStorage
  put s key val =
      let (status, db) = l.put s.db key val in
      if is_ok status then returned (record s { db = db }) else fatal put_failed

  -- `DiskStorage::Del`
  unfoldable pub del : DiskStorage → Bytes → Outcome DiskStorage
  del s key =
      let (status, db) = l.delete s.db key in
      if is_ok status then returned (record s { db = db }) else fatal del_failed
