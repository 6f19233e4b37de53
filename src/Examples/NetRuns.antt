-- ===== src/Examples/NetRuns.antt =====
-- Messages and connections at concrete inputs.
use jkv.Base.{
  ℕ, ◌≡◌, refl, true, false, Option, none, some, List, [], ◌∷◌, ◌++◌, Outcome, returned, fatal,
  bad_iterator, find,
}
use jkv.Proto.{Message, RaftMsgReq, heartbeat}
use jkv.Calls.{Calls, no_calls}
use jkv.Clients.{Net, get_client}
use jkv.Clients.Cache.{Connected, get_client_lem}
use jkv.Peer.State.{Peer}
use jkv.Peer.Send.{send_msgs, send_msg2_peer}
use jkv.Peer.Send.Order.{Delivers, send_msgs_lem}
use jkv.Peer.Ready.{handle_raft_ready}
use jkv.Examples.World.{world, Link, peer, net, node, member_2}

abbrev pub beat : ℕ → Message
beat to = record {
  type = heartbeat;
  to = to;
  from = 1;
  term = 1;
  log_term = 0;
  index = 0;
  entries = [];
  commit = 0;
  snapshot = none;
  reject = false;
  reject_hint = 0;
  context = [];
}

abbrev beats : List Message
beats = beat 2 ∷ beat 2 ∷ []

abbrev value_of {ℓ} : {A : Type ℓ} → A → Outcome A → A
value_of a (returned b) = b
value_of a (fatal e) = a

sent_twice : Net world
unfolding send_msgs send_msg2_peer get_client
sent_twice = value_of net (send_msgs world peer beats net)

sends_twice : send_msgs world peer beats net ≡ returned sent_twice
unfolding sent_twice
sends_twice = refl

-- One connection serves both messages.
one_connection :
    sent_twice.rpc_cli_mgr
    ≡ (2, record { ip = member_2.ip; port = 10001; timeout = 300; depth = 10000 }) ∷ []
unfolding sent_twice
one_connection = refl

-- A message to a host outside the group dereferences `peers_.end()`.
stranger : send_msgs world peer (beat 3 ∷ []) net ≡ fatal bad_iterator
unfolding send_msgs send_msg2_peer
stranger = refl

send_msgs_lem_example :
    (ds : List (Link × RaftMsgReq)) × Delivers world peer sent_twice.rpc_cli_mgr beats ds
    × (sent_twice.sent ≡ [] ++ ds)
    × ((j : ℕ) (c : Link) → none ≡ some c → find j sent_twice.rpc_cli_mgr ≡ some c)
send_msgs_lem_example = send_msgs_lem world peer beats net sent_twice sends_twice

got : Option Link × Net world
unfolding get_client
got = value_of (none, net) (get_client world 2 none (member_2.ip, 10001) 300 [] true net)

gets : get_client world 2 none (member_2.ip, 10001) 300 [] true net ≡ returned (got.0, got.1)
unfolding got
gets = refl

get_client_lem_example : (cl : Link) × (got.0 ≡ some cl) × Connected world 2 net got.1 cl
get_client_lem_example =
    get_client_lem world 2 none (member_2.ip, 10001) 300 [] net got.1 got.0 gets

abbrev busy : Peer world
busy = record peer { raw_node = record node { outbox = beats } }

rounded : Peer world × Net world × Calls
unfolding handle_raft_ready send_msgs send_msg2_peer get_client
rounded = value_of (peer, net, no_calls) (handle_raft_ready world busy net no_calls)

rounds : handle_raft_ready world busy net no_calls ≡ returned (rounded.0, rounded.1, rounded.2)
unfolding rounded
rounds = refl
