-- ===== src/Examples/World.antt =====
-- Connections that never fail and the environment made of these, of the raft node of one voter and of
-- a database that is a list; a peer of the group of hosts 1 and 2 in it.
use jkv.Base.{ℕ, none, true, false, [], ◌∷◌, Bytes}
use jkv.Proto.{KvReq, CmdType, empty_req}
use jkv.Env.{Env, Jrpc}
use jkv.Clients.{Net}
use jkv.Calls.{no_calls}
use jkv.Peer.State.{Peer, GroupMember}
use jkv.Peer.History.{Member}
use jkv.Examples.Kv.{pairs_db}
use jkv.Text.Split.{pieces}
use mathlib.Core.List.{reverse}
use jkv.Examples.Protobuf.{texts_codec}
use jkv.Examples.Solo.{Solo, solo_raft}

-- A connection is the host's address and what was set on it.
pub record Link : Type 0 where
  pub ip : Bytes
  pub port : ℕ
  pub timeout : ℕ
  pub depth : ℕ

abbrev pub plain_jrpc : Jrpc
plain_jrpc = record {
  Worker = Unit {0};
  SockAddress = Bytes × ℕ;
  Client = Link;
  sock_address = λ ip port. (ip, port);
  rpc_client = λ w a name. record { ip = a.0; port = a.1; timeout = 3000; depth = 0 };
  set_timeout_ms = λ c t. record c { timeout = t };
  set_rpc_depth = λ c d. record c { depth = d };
  connect = λ c. (false, c);
}

abbrev pub world : Env
world = record {
  codec = texts_codec;
  leveldb = pairs_db;
  raft = solo_raft;
  jrpc = plain_jrpc;
  split = pieces;
  iteration_order = reverse;
}

abbrev pub member_1 : GroupMember
member_1 = record { host_id = 1; peer_id = 1; ip = b'a' ∷ []; port = 10000 }

abbrev pub member_2 : GroupMember
member_2 = record { host_id = 2; peer_id = 1; ip = b'b' ∷ []; port = 10001 }

abbrev pub node : Solo
node = record { leads = true; term = 1; stable = 0; fresh = []; outbox = [] }

abbrev pub peer : Peer world
peer = record {
  self = member_1;
  worker = none;
  peers = (1, member_1) ∷ (2, member_2) ∷ [];
  raw_node = node;
  kv_db = record { db_path = []; db = [] };
  proposals = [];
}

abbrev pub net : Net world
net = record { rpc_cli_mgr = []; sent = []; controllers = []; responses = [] }

abbrev pub member : Member world
member = record { peer = peer; net = net; calls = no_calls }

-- Requests about the key "k".
abbrev pub put_k : KvReq
put_k = record empty_req {
  cmd_type = CmdType.put;
  put_req = record { key = b'k' ∷ []; value = b'v' ∷ [] };
}

abbrev pub get_k : KvReq
get_k = record empty_req { cmd_type = CmdType.get; get_req = record { key = b'k' ∷ [] } }
