-- ===== src/Peer/Apply.antt =====
-- How committed entries are applied: `Peer::ProcessEntries`, `ProcessEntry`, `ProcessNormal` and
-- `ProcessConfChange` of peer/peer.cc.
pub mod Steps
pub mod Machine
pub mod Replay
pub mod Lives
pub mod Says
pub mod Told
pub mod Queue
pub mod Replies
pub mod Answered
pub mod Account
use jkv.Base.{
  Bool, true, false, Option, none, some, List, [], ◌∷◌, Outcome, returned, fatal, not_parsed,
  unknown_cmd, ◌>>=◌, if◌then◌else◌, Bytes,
}
use jkv.Proto.{KvReq, CmdType, Entry, EntryType, entry_normal, entry_conf_change}
use jkv.Calls.{Calls, set_value, run}
use jkv.Env.{Env}
use jkv.Storage.{DiskStorage}
use jkv.Storage
use jkv.Peer.Proposals.{Proposal, Got, get_proposal, callback_all}
use jkv.Peer.State.{Peer}

-- `if (p != nullptr) { p->done->Run(); }`
abbrev pub finish : Option Proposal → Calls → Calls
finish none c = c
finish (some p) c = run p.done p.resp c

-- The same after `p->resp->mutable_get_resp()->set_value(val)`.
abbrev pub finish_get : Option Proposal → Bytes → Calls → Calls
finish_get none val c = c
finish_get (some p) val c = run p.done p.resp (set_value p.resp val c)

abbrev pub or_fatal {ℓ} : {A : Type ℓ} → Option A → Outcome A
or_fatal none = fatal not_parsed
or_fatal (some a) = returned a

module _ (env : Env) where
  open env use {leveldb, codec, raft}

  -- The branches of `ProcessNormal` on the request's type.
  unfoldable pub process_req :
      KvReq
      → CmdType
      → Option Proposal
      → DiskStorage leveldb
      → Calls
      → Outcome (DiskStorage leveldb × Calls)
  process_req req CmdType.invalid p db c = returned (db, c)
  process_req req CmdType.get p db c = do
    val ← Storage.get leveldb db req.get_req.key
    returned (db, finish_get p val c)
  process_req req CmdType.put p db c = do
    db' ← Storage.put leveldb db req.put_req.key req.put_req.value
    returned (db', finish p c)
  process_req req CmdType.del p db c = do
    db' ← Storage.del leveldb db req.del_req.key
    returned (db', finish p c)
  process_req req (CmdType.unknown n) p db c = fatal unknown_cmd

  -- `Peer::ProcessNormal`
  unfoldable pub process_normal :
      Entry → Option Proposal → DiskStorage leveldb → Calls → Outcome (DiskStorage leveldb × Calls)
  unfolding process_req
  process_normal entry p db c = do
    req ← or_fatal (codec.parse entry.payload)
    process_req req req.cmd_type p db c

  -- `Peer::ProcessConfChange`, whose body is a TODO
  abbrev pub process_conf_change :
      Entry → Option Proposal → DiskStorage leveldb → Calls → Outcome (DiskStorage leveldb × Calls)
  process_conf_change entry p db c = returned (db, c)

  -- The first test of `ProcessEntry`: the proposal of an entry on the leader; any other peer rejects
  -- all that wait.
  abbrev pub take_proposal : Bool → Entry → List Proposal → Calls → Got
  take_proposal true entry ps c = get_proposal entry.index entry.term ps c
  take_proposal false entry ps c = record {
    found = none;
    proposals = [];
    calls = callback_all ps c;
  }

  abbrev pub process_by_type :
      EntryType
      → Entry
      → Option Proposal
      → DiskStorage leveldb
      → Calls
      → Outcome (DiskStorage leveldb × Calls)
  process_by_type entry_normal entry p db c = process_normal entry p db c
  process_by_type entry_conf_change entry p db c = process_conf_change entry p db c

  -- `Peer::ProcessEntry`
  unfoldable pub process_entry : Entry → Peer env → Calls → Outcome (Peer env × Calls)
  process_entry entry p c =
      let got = take_proposal (raft.is_leader p.raw_node) entry p.proposals c in
      do
        (db, c') ← process_by_type entry.type entry got.found p.kv_db got.calls
        returned (record p { kv_db = db; proposals = got.proposals }, c')

  -- `Peer::ProcessEntries`
  unfoldable pub process_entries : List Entry → Peer env → Calls → Outcome (Peer env × Calls)
  process_entries [] p c = returned (p, c)
  process_entries (ent ∷ es) p c = do (p', c') ← process_entry ent p c; process_entries es p' c'
