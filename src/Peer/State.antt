-- ===== src/Peer/State.antt =====
-- The state of `class Peer` of peer/peer.h and `struct GroupMember`.
use jkv.Base.{ℕ, Option, List, Bytes, Table}
use jkv.Config.{HostId, PeerId}
use jkv.Env.{Env}
use jkv.Storage.{DiskStorage}
use jkv.Peer.Proposals.{Proposal}

pub record GroupMember : Type 0 where
  pub host_id : HostId
  pub peer_id : PeerId
  pub ip : Bytes
  pub port : ℕ

-- The pointer `host_` is the host that the methods are given; `mem_storage_` is the storage inside
-- the raw node, which shares it.
pub record Peer (env : Env) : Type 0 where
  pub self : GroupMember
  pub worker : Option env.jrpc.Worker
  pub peers : Table GroupMember
  pub raw_node : env.raft.Node
  pub kv_db : DiskStorage env.leveldb
  pub proposals : List Proposal
