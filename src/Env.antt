-- ===== src/Env.antt =====
-- What the program calls and does not implement, as parameters: jraft, jrpc, LevelDB and the code
-- that protobuf generates. Only what the program calls is here, with no law; a theorem that relies
-- on a documented behaviour has it as a hypothesis.
use jkv.Base.{ℕ, Bool, Option, List, Bytes}
use jkv.Proto.{ErrNum, Entry, Snapshot, Message}
use jkv.Proto.Codec.{Codec}
use jkv.Config.{ReadOnlyOption}
use jkv.Storage.{Leveldb}

-- The fields of `jraft::Config` that peer.cc sets, but for the storage.
pub record RaftConfig : Type 0 where
  pub id : ℕ
  pub election_tick : ℕ
  pub heartbeat_tick : ℕ
  pub applied : ℕ
  pub max_size_per_msg : ℕ
  pub max_committed_size_per_ready : ℕ
  pub max_uncommitted_entries_size : ℕ
  pub max_inflight_msgs : ℕ
  pub check_quorum : Bool
  pub pre_vote : Bool
  pub read_only_option : ReadOnlyOption
  pub disable_proposal_forwarding : Bool

-- `jraft::RawNode` with the storage that it shares, `jraft::Ready` and `jraft::MemoryStorage`.
pub record Raft : Type 1 where
  pub Node : Type 0
  pub Ready : Type 0
  pub Storage : Type 0
  -- `storage->GetSnapshot(snap)`, and the storage after a change of the snapshot through `snap`
  pub get_snapshot : Storage → ErrNum × Snapshot
  pub put_snapshot : Storage → Snapshot → Storage
  -- `Validate(&c)`, which may fill in settings
  pub validate : RaftConfig → RaftConfig
  pub raw_node : RaftConfig → Storage → Node
  pub is_leader : Node → Bool
  pub term : Node → ℕ
  -- `raft().raft_log()->LastIndex()`
  pub last_index : Node → ℕ
  pub tick : Node → Node
  pub step : Node → Message → ErrNum × Node
  pub propose : Node → Bytes → ErrNum × Node
  pub has_ready : Node → Bool
  pub get_ready : Node → Ready × Node
  pub entries : Ready → List Entry
  pub messages : Ready → List Message
  pub committed_entries : Ready → List Entry
  -- `mutable_raft()->mutable_storage()->Append(entries)`
  pub append : Node → List Entry → Node
  pub advance : Node → Ready → Node

-- `jrpc::RpcClient`, `jrpc::SockAddress`, `jrpc::EventWorker*`.
pub record Jrpc : Type 1 where
  pub Worker : Type 0
  pub SockAddress : Type 0
  pub Client : Type 0
  pub sock_address : Bytes → ℕ → SockAddress
  -- `RpcClient(kTcp, w, addr, name)`, with a worker that may be null
  pub rpc_client : Option Worker → SockAddress → Bytes → Client
  pub set_timeout_ms : Client → ℕ → Client
  pub set_rpc_depth : Client → ℕ → Client
  -- `Connect()`: is the result other than 0
  pub connect : Client → Bool × Client

pub record Env : Type 1 where
  pub codec : Codec
  pub leveldb : Leveldb
  pub raft : Raft
  pub jrpc : Jrpc
  -- `boost::split(pieces, s, boost::is_any_of("c"))`
  pub split : ℕ → Bytes → List Bytes
  -- the order in which a `for` loop goes through the keys of a `std::unordered_map`
  pub iteration_order : List ℕ → List ℕ
