-- ===== src/Peer/Propose.antt =====
-- `Peer::ProposeKvOp` and `NextProposalIndex` of peer/peer.{h,cc}.
pub mod Steps
pub mod Queue
pub mod Backed
pub mod Dropped
use jkv.Base.{
  ℕ, ◌+◌, ◌%◌, ◌^◌, Option, none, some, List, [], ◌∷◌, ◌++◌, Outcome, returned, fatal,
  not_serialized, ◌>>=◌, if◌then◌else◌, Bytes,
}
use jkv.Proto.{KvReq}
use jkv.Env.{Env}
use jkv.Peer.Proposals.{Proposal}
use jkv.Peer.State.{Peer}

abbrev pub or_not_serialized : Option Bytes → Outcome Bytes
or_not_serialized none = fatal not_serialized
or_not_serialized (some s) = returned s

module _ (env : Env) where
  open env use {raft, codec}

  -- `uint64_t`
  abbrev pub next_proposal_index : Peer env → ℕ
  next_proposal_index p = (raft.last_index p.raw_node + 1) % 2 ^ 64

  abbrev pub new_proposal : Peer env → ℕ → ℕ → Proposal
  new_proposal p resp done = record {
    index = next_proposal_index p;
    term = raft.term p.raw_node;
    resp = resp;
    done = done;
  }

  -- `if (IsLeader()) { proposals_.push_back(p); }`
  abbrev pub queue_of : Peer env → ℕ → ℕ → List Proposal
  queue_of p resp done =
      if raft.is_leader p.raw_node
      then p.proposals ++ new_proposal p resp done ∷ []
      else p.proposals

  -- `Peer::ProposeKvOp`. What `Propose` returns is not looked at.
  unfoldable pub propose_kv_op : KvReq → ℕ → ℕ → Peer env → Outcome (Peer env)
  propose_kv_op req resp done p = do
    context ← or_not_serialized (codec.serialize req)
    returned (record p {
      proposals = queue_of p resp done;
      raw_node = (raft.propose p.raw_node context).1;
    })
