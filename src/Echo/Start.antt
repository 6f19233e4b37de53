-- ===== src/Echo/Start.antt =====
-- When the echo server starts at all.
use jkv.Base.{
  ◌≡◌, ◌↔◌, refl, true, false, Bytes, [], ◌∷◌, returned, arith, fatal_if-passes, dirs_failed,
  open_failed, Table, if◌then◌else◌, leb, ==_refl, >>=-eq-returned,
}
use jkv.Env.{Env}
use jkv.Storage.View.{files_with}
use jkv.Storage.{Leveldb, DiskStorage, disk_storage, is_ok}
use jkv.Peer.State.{Peer, GroupMember}
use jkv.Peer.Members.{init_group_members}
use jkv.Peer.Create.{is_not_ok, create_peer}
use jkv.Calls.{no_calls}
use jkv.Peer.Create.Voters.{made, create_peer_inv}
use jkv.Host.{peer_host, add_local_peer}
use jkv.Host.Invariant.{add_local_peer_inv}
use jkv.Echo.ServerMain.{
  ServerFlags, check_server_flags, Launched, host_option, peer_option, server_main,
}
use jkv.Echo.Launch.{IsValid, check_server_flags_iff, peer_path, server_main_lem}

module _ (l : Leveldb) where
  -- The directory is there or can be made, and LevelDB opens a database in it.
  abbrev pub Opens : l.Files → Bytes → Type 0
  Opens fs path =
      ((files_with l fs path).0 ≡ false)
      × (is_ok (l.open_db (files_with l fs path).1 path).0 ≡ true)

  disk_storage_iff :
      (fs : l.Files) (path : Bytes)
      → ((x : DiskStorage l × l.Files) × (disk_storage l fs path ≡ returned x)) ↔ Opens fs path
  unfolding disk_storage
  disk_storage_iff fs path = (
    (λ h.
        let opened = l.open_db (files_with l fs path).1 path in
        let (made, rest) = fatal_if-passes (files_with l fs path).0 dirs_failed _ h.1 in
        let (fine, _) =
          fatal_if-passes (if is_ok opened.0 then false else true) open_failed _ rest in
        (made, ground arith)),
    (λ e.
        let fs' = (files_with l fs path).1 in
        ((record { db_path = path; db = (l.open_db fs' path).1 }, fs'), rw (e.0, e.1) refl)),
  )

module _ (env : Env) where
  open env use {raft, jrpc, leveldb}

  -- What a start needs.
  abbrev pub CanStart : ServerFlags → raft.Storage → leveldb.Files → Type 0
  CanStart f storage fs =
      IsValid f
      × ((ms : Table GroupMember) × (init_group_members env.split f.members [] ≡ returned ms))
      × (is_not_ok (raft.get_snapshot storage).0 ≡ false)
      × Opens leveldb fs (peer_path f.host_path f.host_id f.peer_id)

  start_needs :
      (f : ServerFlags) (worker : jrpc.Worker) (storage : raft.Storage) (fs : leveldb.Files)
      (l : Launched env)
      → server_main env f worker storage fs ≡ returned l
      → CanStart f storage fs
  unfolding server_main
  start_needs f worker storage fs l h =
      let started = server_main_lem env f worker storage fs l h in
      let (p, _, _, _, read, opened) = started.3 in
      let opt = host_option env f worker storage in
      let popt = peer_option env f opt in
      let (_, _, h1) = >>=-eq-returned (check_server_flags f) _ h in
      let (x, added, _) = >>=-eq-returned (add_local_peer env popt (peer_host env opt) fs) _ h1 in
      let a = add_local_peer_inv env popt (peer_host env opt) x.0 fs x.1 added in
      let c = create_peer_inv env popt opt.db_path fs x.1 a.peer a.made in
      let same : storage ≡ c.storage = ground (arith, c.given) in
      (
        started.0,
        (p.peers, read),
        rw same c.has_snapshot,
        (disk_storage_iff leveldb fs _).0 ((p.kv_db, l.files), opened),
      )

  create_peer_returns :
      (f : ServerFlags) (worker : jrpc.Worker) (storage : raft.Storage) (fs : leveldb.Files)
      → CanStart f storage fs
      → let opt = host_option env f worker storage in
        (x : Peer env × leveldb.Files) × (create_peer env (peer_option env f opt) opt.db_path fs
          ≡ returned x)
  unfolding create_peer
  create_peer_returns f worker storage fs (valid, (ms, read), snap, opens) =
      let path = peer_path f.host_path f.host_id f.peer_id in
      let (x, opened) = (disk_storage_iff leveldb fs path).1 opens in
      let opt = peer_option env f (host_option env f worker storage) in
      ((made env opt storage ms x.0, x.1), rw (read, snap, opened) refl)

  -- The echo server's start-up returns exactly when the flags are valid, the members' text can be read,
  -- the storage gives its snapshot, the directory at the flags' path is there or can be made, and LevelDB
  -- opens the database in it; else it aborts.
  pub server_main_iff :
      (f : ServerFlags) (worker : jrpc.Worker) (storage : raft.Storage) (fs : leveldb.Files)
      → ((l : Launched env) × (server_main env f worker storage fs ≡ returned l))
        ↔ CanStart f storage fs
  unfolding server_main add_local_peer
  server_main_iff f worker storage fs = (
    (λ h. start_needs f worker storage fs h.0 h.1),
    (λ can.
        let checked = (check_server_flags_iff f).1 can.0 in
        let (x, creates) = create_peer_returns f worker storage fs can in
        let big : leb f.peer_id 0 ≡ false = ground (arith, can.0.peer_given) in
        (
          record {
            server = record {
              host = record (peer_host env (host_option env f worker storage)) {
                local_peers = (f.peer_id, x.0) ∷ [];
              };
              calls = no_calls;
              acks = [];
              tasks = [];
            };
            files = x.1;
            timers = f.peer_id ∷ [];
          },
          rw (checked, big, ==_refl f.host_id, creates, ==_refl f.peer_id) refl,
        )),
  )
