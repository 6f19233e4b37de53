-- ===== src/Peer/Create.antt =====
-- The constructor `Peer::Peer` of peer/peer.cc.
pub mod Voters
use jkv.Base.{
  ℕ, ◌*◌, ◌^◌, Bool, true, false, Option, none, some, List, [], ◌∷◌, ◌++◌, Outcome, returned, fatal,
  fatal_if, no_storage, no_snapshot, ◌>>=◌, ◌>>◌, Bytes, Table, keys,
}
use jkv.Text.Decimal.{to_string}
use jkv.Proto.{ErrNum, Snapshot}
use jkv.Config.{HostId, PeerOption, read_only_safe}
use jkv.Env.{Env, RaftConfig}
use jkv.Storage.{disk_storage}
use jkv.Peer.State.{Peer, GroupMember}
use jkv.Peer.Members.{init_group_members}

abbrev pub is_not_ok : ErrNum → Bool
is_not_ok ErrNum.ok = false
is_not_ok _ = true

-- The settings are fixed in the code; those of the option are not read.
abbrev pub raft_config : HostId → RaftConfig
raft_config host_id = record {
  id = host_id;
  election_tick = 8;
  heartbeat_tick = 1;
  applied = 0;
  max_size_per_msg = 1024 * 1024;
  max_committed_size_per_ready = 0;
  max_uncommitted_entries_size = 2 ^ 30;
  max_inflight_msgs = 256;
  check_quorum = true;
  pre_vote = true;
  read_only_option = read_only_safe;
  disable_proposal_forwarding = false;
}

-- `conf_state->add_voters(id)` for each id, on the metadata of the snapshot.
abbrev pub add_voters : Snapshot → List ℕ → Snapshot
add_voters snap ids =
    let conf = snap.metadata.conf_state in
    record snap {
      metadata = record (snap.metadata) {
        conf_state = record conf { voters = conf.voters ++ ids };
      };
    }

-- "/peer_"
abbrev pub slash_peer : Bytes
slash_peer = b'/' ∷ b'p' ∷ b'e' ∷ b'e' ∷ b'r' ∷ b'_' ∷ []

abbrev pub or_no_storage {ℓ} : {A : Type ℓ} → Option A → Outcome A
or_no_storage none = fatal no_storage
or_no_storage (some a) = returned a

module _ (env : Env) where
  open env use {raft, leveldb, jrpc, split, iteration_order}

  -- `Peer::Peer(peer_opt, host)`, with the host's `db_path` and the file system.
  unfoldable pub create_peer :
      PeerOption jrpc.Worker raft.Storage
      → Bytes
      → leveldb.Files
      → Outcome (Peer env × leveldb.Files)
  create_peer opt db_path fs = do
    peers ← init_group_members split opt.members []
    storage ← or_no_storage opt.storage
    fatal_if (is_not_ok (raft.get_snapshot storage).0) no_snapshot
    let snap = add_voters (raft.get_snapshot storage).1 (iteration_order (keys peers))
    (db, fs') ← disk_storage leveldb fs (db_path ++ slash_peer ++ to_string opt.peer_id)
    returned (
      record {
        self = record {
          host_id = opt.host_id;
          peer_id = opt.peer_id;
          ip = opt.ip;
          port = opt.port;
        };
        worker = opt.worker;
        peers = peers;
        raw_node =
            raft.raw_node (raft.validate (raft_config opt.host_id))
              (raft.put_snapshot storage snap);
        kv_db = db;
        proposals = [];
      },
      fs',
    )
