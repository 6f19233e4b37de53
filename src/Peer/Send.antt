-- ===== src/Peer/Send.antt =====
-- How raft's messages go out: `Peer::SendMsgs` and `SendMsg2Peer` of peer/peer.cc.
pub mod Order
pub mod Objects
use jkv.Base.{
  ℕ, length, leb, count, filter, ◌==◌, false, if◌then◌else◌, freed_twice, Option, none, some, true,
  List, [], ◌∷◌, ◌++◌, Outcome, returned, fatal, bad_iterator, ◌>>=◌, Table, find,
}
use jkv.Proto.{Message, RaftMsgReq}
use jkv.Env.{Env}
use jkv.Clients.{Net, get_client}
use jkv.Peer.State.{Peer, GroupMember}

-- `it->second`: undefined behaviour at `end()`
abbrev pub deref {ℓ} : {A : Type ℓ} → Option A → Outcome A
deref none = fatal bad_iterator
deref (some a) = returned a

-- `delete` of the object of a call. To free what is not there is undefined behaviour.
abbrev pub free : ℕ → List ℕ → Outcome (List ℕ)
free call objects =
    if leb 1 (count call objects)
    then returned (filter (λ c. if c == call then false else true) objects)
    else fatal freed_twice

module _ (env : Env) where
  open env.jrpc use {Client, sock_address}

  -- The request that carries `msg` from `p` to a member of its group.
  abbrev pub raft_msg_req : Peer env → GroupMember → Message → RaftMsgReq
  raft_msg_req p to_member msg = record {
    from_peer = record { host_id = p.self.host_id; peer_id = p.self.peer_id };
    to_peer = record { host_id = to_member.host_id; peer_id = to_member.peer_id };
    msg = msg;
  }

  -- `stub.HandleRaftMsg(cntl, &raft_msg, raft_msg_cb, done)`, with a new controller and response that
  -- belong to the closure `done`.
  abbrev pub call_stub : Client → RaftMsgReq → Net env → Net env
  call_stub client req net = record net {
    sent = net.sent ++ (client, req) ∷ [];
    controllers = net.controllers ++ length net.sent ∷ [];
    responses = net.responses ++ length net.sent ∷ [];
  }

  -- `Peer::HandleSendMsg2Peer`, which the closure of this call runs: the guards free the response and the
  -- controller, the last guard first.
  unfoldable pub handle_send_msg2_peer : ℕ → Net env → Outcome (Net env)
  handle_send_msg2_peer call net = do
    responses ← free call net.responses
    controllers ← free call net.controllers
    returned (record net { controllers = controllers; responses = responses })

  -- `Peer::SendMsg2Peer`; `client.get()` of a null client would be dereferenced by the stub
  unfoldable pub send_msg2_peer : Peer env → Message → Net env → Outcome (Net env)
  send_msg2_peer p msg net = do
    to_member ← deref (find msg.to p.peers)
    (found, net') ←
        get_client env msg.to p.worker (sock_address to_member.ip to_member.port) 300 [] true net
    client ← deref found
    returned (call_stub client (raft_msg_req p to_member msg) net')

  -- `Peer::SendMsgs`
  unfoldable pub send_msgs : Peer env → List Message → Net env → Outcome (Net env)
  send_msgs p [] net = returned net
  send_msgs p (msg ∷ msgs) net = do net' ← send_msg2_peer p msg net; send_msgs p msgs net'
