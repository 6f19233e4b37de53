-- ===== src/Clients.antt =====
-- `rpc_cli_mgr_` and `PeerHost::GetClient` of peer/peer_host.cc: the connections to other hosts.
pub mod Cache
use jkv.Base.{
  ℕ, Bool, Option, none, some, List, Outcome, returned, connect_failed, fatal_if, ◌>>◌, Table, find,
  assign, if◌then◌else◌, Bytes,
}
use jkv.Proto.{RaftMsgReq}
use jkv.Config.{HostId}
use jkv.Env.{Env}

-- `rpc_cli_mgr_`, the requests handed to jrpc so far (`stub.HandleRaftMsg`), in order, and the controllers
-- and the responses that have not been freed, each by the place of its call among the requests.
pub record Net (env : Env) : Type 0 where
  pub rpc_cli_mgr : Table env.jrpc.Client
  pub sent : List (env.jrpc.Client × RaftMsgReq)
  pub controllers : List ℕ
  pub responses : List ℕ

module _ (env : Env) where
  open env.jrpc use {
    Client, Worker, SockAddress, rpc_client, set_timeout_ms, set_rpc_depth, connect,
  }

  abbrev get_or_create :
      HostId
      → Option Worker
      → SockAddress
      → ℕ
      → Bytes
      → Bool
      → Net env
      → Option Client
      → Outcome (Option Client × Net env)
  get_or_create host_id w addr timeout_ms name create net (some client) =
      returned (some client, net)
  get_or_create host_id w addr timeout_ms name create net none =
      if create
      then (let client = set_rpc_depth (set_timeout_ms (rpc_client w addr name) timeout_ms) 10000 in
          let (failed, client') = connect client in
          do
            fatal_if failed connect_failed
            returned
                (some client', record net { rpc_cli_mgr = assign host_id client' net.rpc_cli_mgr }))
      else returned (none, net)

  -- `PeerHost::GetClient`, with `create` for `create_if_missing`
  unfoldable pub get_client :
      HostId
      → Option Worker
      → SockAddress
      → ℕ
      → Bytes
      → Bool
      → Net env
      → Outcome (Option Client × Net env)
  get_client host_id w addr timeout_ms name create net =
      get_or_create host_id w addr timeout_ms name create net (find host_id net.rpc_cli_mgr)
