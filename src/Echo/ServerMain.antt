-- ===== src/Echo/ServerMain.antt =====
-- example/echo/server/main.cc and server_flags.cc. gflags, the log, the worker's thread and the RPC
-- server are not modelled: the flags' values, the worker and a new `jraft::MemoryStorage` are given.
use jkv.Base.{
  ℕ, ◌%◌, ◌^◌, Option, none, some, List, [], ◌∷◌, ◌++◌, ◌||◌, Outcome, returned, fatal, fatal_if,
  no_host_id, no_peer_id, no_ip, bad_port, no_members, no_log_level, no_host_path, bad_iterator,
  ◌>>=◌, ◌>>◌, Bytes, ltb, ◌==◌, is_empty,
}
use jkv.Text.Decimal.{to_string}
use jkv.Calls.{no_calls}
use jkv.Config.{PeerHostOption, PeerOption, default_host_option, default_peer_option}
use jkv.Env.{Env}
use jkv.Host.{peer_host, mutable_local_peers, add_local_peer}
use jkv.Server.{Server}

-- `port` is a `uint32_t`.
pub record ServerFlags : Type 0 where
  pub host_id : ℕ
  pub peer_id : ℕ
  pub ip : Bytes
  pub port : ℕ
  pub members : Bytes
  pub heartbeat_interval : ℕ
  pub election_interval : ℕ
  pub log_level : Bytes
  pub host_path : Bytes

-- The flags where the command line gives none: "127.0.0.1", "info", "./host".
abbrev pub default_server_flags : ServerFlags
default_server_flags = record {
  host_id = 0;
  peer_id = 0;
  ip = b'1' ∷ b'2' ∷ b'7' ∷ b'.' ∷ b'0' ∷ b'.' ∷ b'0' ∷ b'.' ∷ b'1' ∷ [];
  port = 0;
  members = [];
  heartbeat_interval = 0;
  election_interval = 0;
  log_level = b'i' ∷ b'n' ∷ b'f' ∷ b'o' ∷ [];
  host_path = b'.' ∷ b'/' ∷ b'h' ∷ b'o' ∷ b's' ∷ b't' ∷ [];
}

-- `CheckFlags`
unfoldable pub check_server_flags : ServerFlags → Outcome (Unit {0})
check_server_flags f = do
  fatal_if (f.host_id == 0) no_host_id
  fatal_if (f.peer_id == 0) no_peer_id
  fatal_if (is_empty f.ip) no_ip
  fatal_if (ltb f.port 1024 || ltb 65535 f.port) bad_port
  fatal_if (is_empty f.members) no_members
  fatal_if (is_empty f.log_level) no_log_level
  fatal_if (is_empty f.host_path) no_host_path

-- To call a method through a null pointer.
abbrev pub or_null {ℓ} : {A : Type ℓ} → Option A → Outcome A
or_null none = fatal bad_iterator
or_null (some a) = returned a

-- `Peer::StartTimer`: the worker's loop will call `Tick` of the peer from now on.
abbrev pub start_timer : ℕ → List ℕ → List ℕ
start_timer i timers = timers ++ i ∷ []

-- The server that runs, the files, and the local peers whose timer runs.
pub record Launched (env : Env) : Type 0 where
  pub server : Server env
  pub files : env.leveldb.Files
  pub timers : List ℕ

module _ (env : Env) where
  open env use {raft, jrpc, leveldb}

  abbrev pub host_option :
      ServerFlags → jrpc.Worker → raft.Storage → PeerHostOption jrpc.Worker raft.Storage
  host_option f worker storage = record (default_host_option jrpc.Worker raft.Storage) {
    host_id = f.host_id;
    db_path = f.host_path ++ b'_' ∷ to_string f.host_id;
    worker = some worker;
    storage = some storage;
  }

  -- `peer_opt.port` is a `uint16_t`.
  abbrev pub peer_option :
      ServerFlags → PeerHostOption jrpc.Worker raft.Storage → PeerOption jrpc.Worker raft.Storage
  peer_option f host_opt = record (default_peer_option jrpc.Worker raft.Storage) {
    host_id = f.host_id;
    peer_id = f.peer_id;
    ip = f.ip;
    port = f.port % 2 ^ 16;
    worker = host_opt.worker;
    members = f.members;
    storage = host_opt.storage;
  }

  -- `main`, up to where the process waits to be asked to quit.
  unfoldable pub server_main :
      ServerFlags → jrpc.Worker → raft.Storage → leveldb.Files → Outcome (Launched env)
  server_main f worker storage fs = do
    check_server_flags f
    let host_opt = host_option f worker storage
    (host, fs') ← add_local_peer env (peer_option f host_opt) (peer_host env host_opt) fs
    peer ← or_null (mutable_local_peers env f.peer_id host)
    returned (record {
      server = record { host = host; calls = no_calls; acks = []; tasks = [] };
      files = fs';
      timers = start_timer f.peer_id [];
    })
