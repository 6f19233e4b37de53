-- ===== src/Config.antt =====
-- common/config.h: identities and options. `jraft` and `jrpc` types are parameters: `Worker` is
-- `jrpc::EventWorker*`, `Storage` is `jraft::MemoryStoragePtr`, null being `none`.
use jkv.Base.{ℕ, ◌-◌, ◌^◌, Bool, false, Option, none, [], ◌∷◌, Bytes}

abbrev pub HostId : Type 0
HostId = ℕ

abbrev pub PeerId : Type 0
PeerId = ℕ

abbrev pub no_host : HostId
no_host = 0

abbrev pub no_peer_id : PeerId
no_peer_id = 0

abbrev pub uint64_max : ℕ
uint64_max = 2 ^ 64 - 1

pub data ReadOnlyOption : Type 0 where
  read_only_safe read_only_lease_based : ReadOnlyOption

module _ (Worker Storage : Type 0) where
  pub record PeerHostOption : Type 0 where
    pub host_id : HostId
    pub worker : Option Worker
    pub db_path : Bytes
    pub storage : Option Storage

  abbrev pub default_host_option : PeerHostOption
  default_host_option = record { host_id = no_host; worker = none; db_path = []; storage = none }

  pub record PeerOption : Type 0 where
    pub host_id : HostId
    pub peer_id : PeerId
    pub ip : Bytes
    pub port : ℕ
    pub worker : Option Worker
    pub members : Bytes
    pub election_tick : ℕ
    pub heartbeat_tick : ℕ
    pub storage : Option Storage
    pub max_size_per_msg : ℕ
    pub max_committed : ℕ
    pub max_uncommitted_entries_size : ℕ
    pub max_inflight_msgs : ℕ
    pub max_inflight_bytes : ℕ
    pub check_quorum : Bool
    pub pre_vote : Bool
    pub read_only_option : ReadOnlyOption
    pub disable_proposal_forwarding : Bool

  abbrev pub default_peer_option : PeerOption
  default_peer_option = record {
    host_id = no_host;
    peer_id = no_peer_id;
    -- "127.0.0.1"
    ip = b'1' ∷ b'2' ∷ b'7' ∷ b'.' ∷ b'0' ∷ b'.' ∷ b'0' ∷ b'.' ∷ b'1' ∷ [];
    port = 0;
    worker = none;
    members = [];
    election_tick = 0;
    heartbeat_tick = 0;
    storage = none;
    max_size_per_msg = uint64_max;
    max_committed = uint64_max;
    max_uncommitted_entries_size = 0;
    max_inflight_msgs = uint64_max;
    max_inflight_bytes = 0;
    check_quorum = false;
    pre_vote = false;
    read_only_option = read_only_safe;
    disable_proposal_forwarding = false;
  }
