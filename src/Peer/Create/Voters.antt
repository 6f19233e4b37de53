-- ===== src/Peer/Create/Voters.antt =====
-- What a peer is made of, and the voters that its raft node starts with.
use jkv.Base.{
  ℕ, ◌+◌, ◌≡◌, refl, ap, inl, inr, true, false, some, List, [], ◌∷◌, ◌++◌, returned, ◌∙◌, ◌>>=◌,
  >>=-eq-returned, arith, count, count-append, Bool-cases, Option-cases, Bytes, Table, find, keys,
  find-none-count, if◌then◌else◌, ◌==◌,
}
use jkv.Text.Decimal.{to_string}
use jkv.Proto.{Snapshot}
use jkv.Config.{PeerOption, read_only_safe}
use jkv.Env.{Env, RaftConfig}
use jkv.Storage.{DiskStorage, disk_storage}
use jkv.Peer.State.{Peer, GroupMember}
use jkv.Peer.Members.{is_found, init_group_members}
use jkv.Peer.Members.Entries.{IsMemberTable, init_group_members-IsMemberTable}
use jkv.Peer.Create.{is_not_ok, raft_config, add_voters, slash_peer, create_peer}

-- In a member table a host stands once or not at all.
count-keys :
    (d : ℕ) (m : Table GroupMember)
    → IsMemberTable m
    → count d (keys m) ≡ (if is_found (find d m) then 1 else 0)
count-keys d [] t = refl
count-keys d ((k, g) ∷ m) t = elim (Bool-cases (k == d)) [
  | inl e ↦
      let same : k ≡ d = ground arith in
      rw e (ground (arith, find-none-count k m t.1, same, ap (λ i. count i (keys m)) same))
  | inr e ↦ rw e (ground (arith, count-keys d m t.5))
]

module _ (env : Env) where
  open env use {raft, leveldb, jrpc, split, iteration_order}

  -- The peer that is made of a storage, the members read and an open database.
  abbrev pub made :
      PeerOption jrpc.Worker raft.Storage
      → raft.Storage
      → Table GroupMember
      → DiskStorage leveldb
      → Peer env
  made opt st ms db = record {
    self = record { host_id = opt.host_id; peer_id = opt.peer_id; ip = opt.ip; port = opt.port };
    worker = opt.worker;
    peers = ms;
    raw_node =
        raft.raw_node (raft.validate (raft_config opt.host_id))
          (raft.put_snapshot st (add_voters (raft.get_snapshot st).1 (iteration_order (keys ms))));
    kv_db = db;
    proposals = [];
  }

  -- Where the parts of a new peer come from.
  pub record IsCreated (opt : PeerOption jrpc.Worker raft.Storage) (db_path : Bytes)
      (fs fs' : leveldb.Files) (p : Peer env) : Type 0 where
    pub storage : raft.Storage
    pub given : opt.storage ≡ some storage
    pub has_snapshot : is_not_ok (raft.get_snapshot storage).0 ≡ false
    pub members_read : init_group_members split opt.members [] ≡ returned p.peers
    pub opened :
        disk_storage leveldb fs (db_path ++ slash_peer ++ to_string opt.peer_id)
        ≡ returned (p.kv_db, fs')
    pub at : p ≡ made opt storage p.peers p.kv_db

  create_peer_opened :
      (opt : PeerOption jrpc.Worker raft.Storage) (db_path : Bytes) (fs fs' : leveldb.Files)
      (p : Peer env) (st : raft.Storage) (ms : Table GroupMember)
      → opt.storage ≡ some st
      → is_not_ok (raft.get_snapshot st).0 ≡ false
      → init_group_members split opt.members [] ≡ returned ms
      → ◌>>=◌ {B = Peer env × leveldb.Files}
          (disk_storage leveldb fs (db_path ++ slash_peer ++ to_string opt.peer_id))
          (λ x. returned (made opt st ms x.0, x.1))
        ≡ returned (p, fs')
      → IsCreated opt db_path fs fs' p
  create_peer_opened opt db_path fs fs' p st ms given fine read h =
      let (x, opens, e) =
        >>=-eq-returned (disk_storage leveldb fs (db_path ++ slash_peer ++ to_string opt.peer_id)) _
          h in
      let same : made opt st ms x.0 ≡ p = ground arith in
      let files : x.1 ≡ fs' = ground arith in
      rw (← same) (record {
        storage = st;
        given = given;
        has_snapshot = fine;
        members_read = read;
        opened = opens ∙ ap (λ f. returned (x.0, f)) files;
        at = refl;
      })

  pub create_peer_inv :
      (opt : PeerOption jrpc.Worker raft.Storage) (db_path : Bytes) (fs fs' : leveldb.Files)
      (p : Peer env)
      → create_peer env opt db_path fs ≡ returned (p, fs')
      → IsCreated opt db_path fs fs' p
  unfolding create_peer
  create_peer_inv opt db_path fs fs' p h =
      let (ms, read, e1) = >>=-eq-returned (init_group_members split opt.members []) _ h in
      elim (Option-cases opt.storage) [
        | inl e ↦ absurd (cc (rw e at e1))
        | inr (st, e) ↦ elim (Bool-cases (is_not_ok (raft.get_snapshot st).0)) [
          | inl bad ↦ absurd (cc (rw bad at (rw e at e1)))
          | inr fine ↦
              create_peer_opened opt db_path fs fs' p st ms e fine read (rw fine at (rw e at e1))
        ]
      ]

  -- The snapshot that a new peer's raft node starts from is the storage's, with a voter more for the
  -- host of each member, and for no other host.
  pub record StartsWith (members : Table GroupMember) (old new : Snapshot) : Type 0 where
    pub voters :
        (d : ℕ)
        → count d new.metadata.conf_state.voters
          ≡ count d old.metadata.conf_state.voters + (if is_found (find d members) then 1 else 0)
    pub rest : new ≡ record old {
      metadata = record (old.metadata) {
        conf_state = record (old.metadata.conf_state) { voters = new.metadata.conf_state.voters };
      };
    }

  -- The settings that a raft node starts with: elections after 8 ticks and heartbeats after 1, messages of
  -- up to 1 MiB, up to 1 GiB not yet committed, 256 messages in flight, with a check of the quorum, a
  -- vote before the vote, and safe reads.
  abbrev pub fixed : ℕ → RaftConfig
  fixed host_id = record {
    id = host_id;
    election_tick = 8;
    heartbeat_tick = 1;
    applied = 0;
    max_size_per_msg = 1048576;
    max_committed_size_per_ready = 0;
    max_uncommitted_entries_size = 1073741824;
    max_inflight_msgs = 256;
    check_quorum = true;
    pre_vote = true;
    read_only_option = read_only_safe;
    disable_proposal_forwarding = false;
  }

  -- Nothing waits, the member table is well formed, and the raft node starts with the fixed settings
  -- from the storage's snapshot with the members' hosts as voters.
  abbrev pub StartsFrom : PeerOption jrpc.Worker raft.Storage → Peer env → Type 0
  StartsFrom opt p =
      (p.proposals ≡ [])
      × IsMemberTable p.peers
      × ((st : raft.Storage) × (new : Snapshot) × (opt.storage ≡ some st)
          × (p.raw_node
              ≡ raft.raw_node (raft.validate (fixed opt.host_id)) (raft.put_snapshot st new))
          × StartsWith p.peers (raft.get_snapshot st).1 new)

  -- Where the loop over the member table meets each host once, a peer that is created has nothing in its
  -- queue and a well-formed member table, and its raft node starts with the settings that are fixed in
  -- the code, from the storage's snapshot with a voter more for each member's host and no other.
  pub create_peer_lem :
      (opt : PeerOption jrpc.Worker raft.Storage) (db_path : Bytes) (fs fs' : leveldb.Files)
      (p : Peer env)
      → ((d : ℕ) (ks : List ℕ) → count d (iteration_order ks) ≡ count d ks)
      → create_peer env opt db_path fs ≡ returned (p, fs')
      → StartsFrom opt p
  create_peer_lem opt db_path fs fs' p each h =
      let made_by = create_peer_inv opt db_path fs fs' p h in
      let table = init_group_members-IsMemberTable split opt.members p.peers made_by.members_read in
      let old = (raft.get_snapshot made_by.storage).1 in
      let hosts = iteration_order (keys p.peers) in
      (
        ap (λ (q : Peer env). q.proposals) made_by.at,
        table,
        (
          made_by.storage,
          add_voters old hosts,
          made_by.given,
          ap (λ (q : Peer env). q.raw_node) made_by.at,
          record {
            voters = λ d. omega (
              arith,
              count-append d old.metadata.conf_state.voters hosts,
              each d (keys p.peers),
              count-keys d p.peers table,
            );
            rest = refl;
          },
        ),
      )
