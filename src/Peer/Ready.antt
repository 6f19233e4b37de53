-- ===== src/Peer/Ready.antt =====
-- One round of the raft node: `Peer::HandleRaftReady`, `Tick` and `Step` of peer/peer.cc.
pub mod Frame
use jkv.Base.{List, Outcome, returned, ◌>>=◌, is_empty, if◌then◌else◌}
use jkv.Proto.{ErrNum, Message, Entry}
use jkv.Calls.{Calls}
use jkv.Env.{Env}
use jkv.Clients.{Net}
use jkv.Peer.State.{Peer}
use jkv.Peer.Apply.{process_entries}
use jkv.Peer.Send.{send_msgs}

module _ (env : Env) where
  open env use {raft}

  -- `if (!rd->entries().empty()) { …->Append(rd->entries()); }`
  abbrev pub append_entries : raft.Node → List Entry → raft.Node
  append_entries n es = if is_empty es then n else raft.append n es

  -- What follows `GetReady`: append, send, apply, advance.
  unfoldable pub handle_ready :
      raft.Ready → Peer env → Net env → Calls → Outcome (Peer env × Net env × Calls)
  handle_ready rd p net c =
      let p1 = record p { raw_node = append_entries p.raw_node (raft.entries rd) } in
      do
        net' ←
            if is_empty (raft.messages rd)
            then returned net
            else send_msgs env p1 (raft.messages rd) net
        (p2, c') ←
            if is_empty (raft.committed_entries rd)
            then returned (p1, c)
            else process_entries env (raft.committed_entries rd) p1 c
        returned (record p2 { raw_node = raft.advance p2.raw_node rd }, net', c')

  -- `Peer::HandleRaftReady`
  unfoldable pub handle_raft_ready :
      Peer env → Net env → Calls → Outcome (Peer env × Net env × Calls)
  unfolding handle_ready
  handle_raft_ready p net c =
      let (rd, n) = raft.get_ready p.raw_node in
      if raft.has_ready p.raw_node
      then handle_ready rd (record p { raw_node = n }) net c
      else returned (p, net, c)

  -- `Peer::Tick`
  unfoldable pub tick : Peer env → Net env → Calls → Outcome (Peer env × Net env × Calls)
  tick p net c = handle_raft_ready (record p { raw_node = raft.tick p.raw_node }) net c

  -- `Peer::Step`
  unfoldable pub step : Peer env → Message → ErrNum × Peer env
  step p msg = let (err, n) = raft.step p.raw_node msg in (err, record p { raw_node = n })
