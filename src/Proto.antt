-- ===== src/Proto.antt =====
-- The protobuf messages of pb/*.proto. A field that is a message is its record where the code reads
-- it through the default, and an `Option` where its presence shows; enums of proto3 are open, so an
-- unknown value of `CmdType` is kept.
pub mod Codec
use jkv.Base.{ℕ, Bool, false, Option, none, List, [], Bytes}

-- pb/kv_op.proto
pub record GetReq : Type 0 where
  pub key : Bytes

pub record PutReq : Type 0 where
  pub key : Bytes
  pub value : Bytes

pub record DelReq : Type 0 where
  pub key : Bytes

pub record GetResp : Type 0 where
  pub value : Bytes

pub data CmdType : Type 0 where
  invalid get put del : CmdType
  unknown : ℕ → CmdType

pub record KvReq : Type 0 where
  pub cmd_type : CmdType
  pub get_req : GetReq
  pub put_req : PutReq
  pub del_req : DelReq

pub record KvResp : Type 0 where
  pub cmd_type : CmdType
  pub rejected : Bool
  pub get_resp : Option GetResp
  pub has_put_resp : Bool
  pub has_del_resp : Bool

-- What a constructor with no arguments makes.
abbrev pub empty_req : KvReq
empty_req = record {
  cmd_type = invalid;
  get_req = record { key = [] };
  put_req = record { key = []; value = [] };
  del_req = record { key = [] };
}

abbrev pub empty_resp : KvResp
empty_resp = record {
  cmd_type = invalid;
  rejected = false;
  get_resp = none;
  has_put_resp = false;
  has_del_resp = false;
}

-- pb/errnum.proto
pub data ErrNum : Type 0 where
  ok compacted snap_out_of_data unavailable snapshot_temporarily_unavailable serialize_fail : ErrNum
  proposal_dropped step_local_msg step_peer_not_found : ErrNum

-- pb/eraft.proto
pub data EntryType : Type 0 where
  entry_normal entry_conf_change : EntryType

pub record Entry : Type 0 where
  pub type : EntryType
  pub term : ℕ
  pub index : ℕ
  pub payload : Bytes

pub data MessageType : Type 0 where
  hup beat prop app app_resp vote vote_resp snap heartbeat heartbeat_resp unreachable : MessageType
  snap_status check_quorum transfer_leader timeout_now read_index read_index_resp : MessageType
  pre_vote pre_vote_resp : MessageType

pub record ConfState : Type 0 where
  pub voters : List ℕ
  pub learners : List ℕ
  pub voters_outgoing : List ℕ
  pub learners_next : List ℕ
  pub auto_leave : Bool

pub record SnapshotMetadata : Type 0 where
  pub conf_state : ConfState
  pub index : ℕ
  pub term : ℕ

pub record Snapshot : Type 0 where
  pub payload : Bytes
  pub metadata : SnapshotMetadata

pub record Message : Type 0 where
  pub type : MessageType
  pub to : ℕ
  pub from : ℕ
  pub term : ℕ
  pub log_term : ℕ
  pub index : ℕ
  pub entries : List Entry
  pub commit : ℕ
  pub snapshot : Option Snapshot
  pub reject : Bool
  pub reject_hint : ℕ
  pub context : Bytes

-- pb/meta.proto
pub record PeerMeta : Type 0 where
  pub host_id : ℕ
  pub peer_id : ℕ

-- pb/raft_msg.proto
pub record RaftMsgReq : Type 0 where
  pub from_peer : PeerMeta
  pub to_peer : PeerMeta
  pub msg : Message
