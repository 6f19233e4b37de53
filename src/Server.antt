-- ===== src/Server.antt =====
-- The server process: the services of service/kv_service.cc and service/raft_msg_service.cc, and the
-- worker's loop that runs what they hand to `RunInLoop` and the peers' timers.
-- The tasks in the loop are a list, and the loop may run any of them next; so no order is assumed.
pub mod Inputs
pub mod Runs
pub mod Closures
pub mod Account
pub mod Answers
pub mod Identity
pub mod Ends
pub mod Ticks
pub mod Replica
pub mod Moves
pub mod Lift
pub mod Order
pub mod Honest
pub mod Told
pub mod Objects
use jkv.Base.{
  ℕ, zero, suc, Bool, true, false, Option, none, some, List, [], ◌∷◌, ◌++◌, Outcome, returned,
  fatal, fatal_if, no_peer, wrong_host, ◌>>=◌, ◌>>◌, Table, find, assign, ◌==◌, if◌then◌else◌,
}
use jkv.Proto.{KvReq, RaftMsgReq}
use jkv.Calls.{Calls, set_rejected, run}
use jkv.Env.{Env}
use jkv.Peer.State.{Peer}
use jkv.Peer.Propose.{propose_kv_op}
use jkv.Peer.Ready.{tick, step}
use jkv.Peer.Send.{handle_send_msg2_peer}
use jkv.Host.{Host, mutable_local_peers}

-- What `std::bind` makes of the callbacks; responses and closures are pointers.
pub data Task : Type 0 where
  kv_op_cb : KvReq → ℕ → ℕ → Task
  handle_raft_msg_cb : RaftMsgReq → ℕ → Task

-- `acks` are the closures of raft messages that have been run.
pub record Server (env : Env) : Type 0 where
  pub host : Host env
  pub calls : Calls
  pub acks : List ℕ
  pub tasks : List Task

abbrev pub or_no_peer {ℓ} : {A : Type ℓ} → Option A → Outcome A
or_no_peer none = fatal no_peer
or_no_peer (some a) = returned a

-- Takes the task at a place out of the list.
abbrev pub take_at : ℕ → List Task → Option (Task × List Task)
take_at n [] = none
take_at zero (t ∷ ts) = some (t, ts)
take_at (suc n) (t ∷ ts) = elim (take_at n ts) [ none ↦ none | some (u, us) ↦ some (u, t ∷ us) ]

module _ (env : Env) where
  -- The peer object is shared: what a method writes is in the table afterwards.
  abbrev pub put_peer : ℕ → Peer env → Server env → Server env
  put_peer i p s = record s {
    host = record (s.host) { local_peers = assign i p s.host.local_peers };
  }

  -- `KvServiceImpl::KvOp`
  abbrev pub kv_op : KvReq → ℕ → ℕ → Server env → Server env
  kv_op req resp done s = record s { tasks = s.tasks ++ kv_op_cb req resp done ∷ [] }

  -- The end of `KvOpCb`, for the peer that was found. The guard runs the closure when it goes out of
  -- scope, after the response has been marked.
  unfoldable pub kv_op_on : KvReq → ℕ → ℕ → Server env → Peer env → Outcome (Server env)
  kv_op_on req resp done s peer =
      if env.raft.is_leader peer.raw_node
      then (do p ← propose_kv_op env req resp done peer; returned (put_peer 1 p s))
      else returned (record s { calls = run done resp (set_rejected resp s.calls) })

  -- `KvServiceImpl::KvOpCb`: the peer is always number 1.
  unfoldable pub run_kv_op : KvReq → ℕ → ℕ → Server env → Outcome (Server env)
  unfolding kv_op_on
  run_kv_op req resp done s = do
    peer ← or_no_peer (mutable_local_peers env 1 s.host)
    kv_op_on req resp done s peer

  -- `RaftMsgServiceImpl::HandleRaftMsg`
  unfoldable pub handle_raft_msg : RaftMsgReq → ℕ → Server env → Outcome (Server env)
  handle_raft_msg req done s = do
    fatal_if (if req.to_peer.host_id == s.host.option.host_id then false else true) wrong_host
    returned (record s { tasks = s.tasks ++ handle_raft_msg_cb req done ∷ [] })

  -- `RaftMsgServiceImpl::HandleRaftMsgCb`; what `Step` returns is not looked at, and the guard runs
  -- the closure at the end.
  unfoldable pub run_raft_msg : RaftMsgReq → ℕ → Server env → Outcome (Server env)
  run_raft_msg req done s = do
    peer ← or_no_peer (mutable_local_peers env req.to_peer.peer_id s.host)
    let s' = put_peer req.to_peer.peer_id (step env peer req.msg).1 s
    returned (record s' { acks = done ∷ s'.acks })

  -- The timer of `Peer::StartTimer` fires for a local peer.
  unfoldable pub fire : ℕ → Server env → Outcome (Server env)
  fire i s = do
    peer ← or_no_peer (mutable_local_peers env i s.host)
    (p, net, c) ← tick env peer s.host.net s.calls
    let s' = put_peer i p s
    returned (record s' { host = record (s'.host) { net = net }; calls = c })

  -- jrpc runs the closure of a call that the server has made.
  unfoldable pub answer_call : ℕ → Server env → Outcome (Server env)
  answer_call call s = do
    net ← handle_send_msg2_peer env call s.host.net
    returned (record s { host = record (s.host) { net = net } })

  abbrev pub run_task : Task → Server env → Outcome (Server env)
  run_task (kv_op_cb req resp done) s = run_kv_op req resp done s
  run_task (handle_raft_msg_cb req done) s = run_raft_msg req done s

  -- One round of the loop that takes the task at a place; there may be none.
  abbrev pub run_taken : Option (Task × List Task) → Server env → Outcome (Server env)
  run_taken none s = returned s
  run_taken (some (t, ts)) s = run_task t (record s { tasks = ts })

  unfoldable pub run_at : ℕ → Server env → Outcome (Server env)
  run_at n s = run_taken (take_at n s.tasks) s
