-- ===== src/Host.antt =====
-- `class PeerHost` of peer/peer_host.{h,cc}: the peers of one process. `GetClient` is in `Clients`.
pub mod Invariant
use jkv.Base.{
  ℕ, Bool, true, false, Option, Outcome, returned, fatal_if, peer_existed, bad_peer_id, other_host,
  [], ◌∷◌, ◌>>=◌, ◌>>◌, Bytes, Table, find, assign, leb, ◌==◌, if◌then◌else◌,
}
use jkv.Config.{HostId, PeerId, PeerHostOption, PeerOption}
use jkv.Env.{Env}
use jkv.Clients.{Net}
use jkv.Storage.{delete_storage}
use jkv.Peer.State.{Peer}
use jkv.Peer.Members.{is_found}
use jkv.Peer.Create.{create_peer}

-- `net` holds `rpc_cli_mgr_`.
pub record Host (env : Env) : Type 0 where
  pub option : PeerHostOption env.jrpc.Worker env.raft.Storage
  pub local_peers : Table (Peer env)
  pub net : Net env

module _ (env : Env) where
  open env use {raft, jrpc, leveldb}

  -- `PeerHost::PeerHost`
  abbrev pub peer_host : PeerHostOption jrpc.Worker raft.Storage → Host env
  peer_host opt = record {
    option = opt;
    local_peers = [];
    net = record { rpc_cli_mgr = []; sent = []; controllers = []; responses = [] };
  }

  -- `PeerHost::mutable_local_peers`
  abbrev pub mutable_local_peers : ℕ → Host env → Option (Peer env)
  mutable_local_peers i h = find i h.local_peers

  -- `PeerHost::CheckPeerOption`; the id is unsigned
  abbrev pub check_peer_option : PeerOption jrpc.Worker raft.Storage → Host env → Outcome (Unit {0})
  check_peer_option opt h = do
    fatal_if (leb opt.peer_id 0) bad_peer_id
    fatal_if (if opt.host_id == h.option.host_id then false else true) other_host

  -- `PeerHost::AddLocalPeer`
  unfoldable pub add_local_peer :
      PeerOption jrpc.Worker raft.Storage
      → Host env
      → leveldb.Files
      → Outcome (Host env × leveldb.Files)
  add_local_peer opt h fs = do
    fatal_if (is_found (find opt.peer_id h.local_peers)) peer_existed
    check_peer_option opt h
    (p, fs') ← create_peer env opt h.option.db_path fs
    returned (record h { local_peers = assign opt.peer_id p h.local_peers }, fs')

  -- `Peer::~Peer`: what it does to the files; the pointers are not null once the constructor has
  -- returned, and the raft node is in memory only.
  abbrev pub delete_peer : leveldb.Files → Peer env → leveldb.Files
  delete_peer fs p = delete_storage leveldb fs p.kv_db

  -- The local peers of a map that is destroyed.
  abbrev pub delete_peers : leveldb.Files → Table (Peer env) → leveldb.Files
  delete_peers fs [] = fs
  delete_peers fs ((i, p) ∷ m) = delete_peers (delete_peer fs p) m

  -- `PeerHost::~PeerHost`, whose body is empty: the members are destroyed.
  abbrev pub delete_host : leveldb.Files → Host env → leveldb.Files
  delete_host fs h = delete_peers fs h.local_peers
