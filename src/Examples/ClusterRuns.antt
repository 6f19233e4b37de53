-- ===== src/Examples/ClusterRuns.antt =====
-- A group of two servers, of which the first sends a message to the second one.
mod Agreement
mod Answered
use jkv.Base.{
  List, count, ◌+◌, ◌<◌, length, ◌≤◌, ℕ, ◌≡◌, refl, [], ◌∷◌, ◌++◌, returned, Table, assign, arith,
  inl, inr, Bool-cases, if◌then◌else◌, ◌==◌,
}
use jkv.Proto.{RaftMsgReq}
use jkv.Env.{Env, Raft}
use jkv.Storage.{disk_storage}
use jkv.Clients.{get_client}
use jkv.Text.Split.{pieces}
use jkv.Text.Atoi.{atoi}
use jkv.Text.Decimal.{to_string}
use jkv.Peer.State.{GroupMember}
use jkv.Peer.Members.{init_group_members, add_members}
use jkv.Peer.Members.RoundTrip.{table_of}
use jkv.Peer.Members.Entries.{IsMemberTable, init_group_members-IsMemberTable}
use jkv.Peer.Create.{create_peer}
use jkv.Peer.Send.{send_msgs, send_msg2_peer}
use jkv.Peer.Ready.{tick, handle_raft_ready}
use jkv.Calls.{no_calls}
use jkv.Host.{peer_host, add_local_peer}
use jkv.Server.{Server, handle_raft_msg_cb, handle_raft_msg, run_at, fire}
use jkv.Peer.Send.{handle_send_msg2_peer}
use jkv.Peer.Send.Objects.{made}
use jkv.Server.{answer_call}
use jkv.Server.Objects.{answers, serve-made, answer_call-frees}
use jkv.Server.Inputs.{Input, call_answered, serve, timer_fires, raft_call, receive}
use jkv.Echo.ServerMain.{ServerFlags, check_server_flags, Launched, host_option, server_main}
use jkv.Cluster.{
  Deployment, Cluster, set_disk, sent_by, starts, acts, delivers, Reach, none_yet, later,
}
use jkv.Cluster.Wiring.{IsNetwork}
use jkv.Cluster.Delivery.{handle_raft_msg-Reach, run_at-Reach, rpc_cli_mgr-Reach}
use jkv.Examples.Kv.{pairs_db-reliable, pairs_db-laws}
use jkv.Examples.MemberRuns.{members_text, reads_members}
use jkv.Examples.NetRuns.{beat}
use jkv.Examples.ServerRuns.{flags_of, empty_snapshot, value_of}
use jkv.Peer.Propose.Backed.{LogMatching}
use jkv.Examples.Solo.{
  solo_raft, Holds, Holds-take_request, Holds-fresh, Holds-committed, Holds-get_ready,
}
use jkv.Examples.World.{world, Link, member_1, member_2}

-- At each tick the raft node has a message for host 2.
abbrev pub chatty_raft : Raft
chatty_raft = record solo_raft { tick = λ n. record n { outbox = beat 2 ∷ [] } }

abbrev chat : Env
chat = record {
  codec = world.codec;
  leveldb = world.leveldb;
  raft = chatty_raft;
  jrpc = world.jrpc;
  split = pieces;
  iteration_order = world.iteration_order;
}

pub chatty_raft-LogMatching : LogMatching chatty_raft
chatty_raft-LogMatching = record {
  Sound = λ n m. Unit {0};
  Put = Holds;
  put_tick = λ n t i s h. h;
  put_step = λ n m sound t i s h. h;
  put_propose = Holds-take_request;
  put_get_ready = λ n t i s h. Holds-get_ready n t i s h;
  put_append = λ n es t i s h. h;
  put_advance = λ n rd t i s h. h;
  put_new = Holds-fresh;
  put_committed = Holds-committed;
}

abbrev both_members : Table GroupMember
both_members = table_of (member_1 ∷ member_2 ∷ [])

-- The host whose process listens on an address; there is one on each of two ports.
abbrev host_behind : Link → ℕ
host_behind c = if c.port == 10000 then 1 else 2

chat-IsNetwork : IsNetwork chat both_members host_behind
chat-IsNetwork h g at w name timeout depth = elim (Bool-cases (1 == h)) [
  | inl e ↦ let one : member_1 ≡ g = ground (arith, rw e at at) in rw (← one) refl
  | inr e ↦ let two : member_2 ≡ g = ground (arith, rw e at at) in rw (← two) refl
]

both-IsMemberTable : IsMemberTable both_members
both-IsMemberTable = init_group_members-IsMemberTable pieces members_text both_members reads_members

abbrev flags_2 : ServerFlags
flags_2 = record (flags_of 1) { host_id = 2; ip = b'b' ∷ []; port = 10001; host_path = b'.' ∷ [] }

abbrev before_start : ServerFlags → Launched chat
before_start f = record {
  server = record {
    host = peer_host chat (host_option chat f tt empty_snapshot);
    calls = no_calls;
    acks = [];
    tasks = [];
  };
  files = [];
  timers = [];
}

started : ServerFlags → Launched chat
unfolding server_main check_server_flags add_local_peer create_peer init_group_members add_members
    pieces atoi to_string disk_storage
started f = value_of (before_start f) (server_main chat f tt empty_snapshot [])

starts_1 : server_main chat (flags_of 1) tt empty_snapshot [] ≡ returned (started (flags_of 1))
unfolding started
starts_1 = refl

starts_2 : server_main chat flags_2 tt empty_snapshot [] ≡ returned (started flags_2)
unfolding started
starts_2 = refl

-- The first server after its timer has fired.
spoken : Server chat
unfolding fire tick handle_raft_ready send_msgs send_msg2_peer get_client started
spoken =
    value_of (before_start (flags_of 1)).server
      (receive chat (timer_fires 1) (started (flags_of 1)).server)

speaks : receive chat (timer_fires 1) (started (flags_of 1)).server ≡ returned spoken
unfolding spoken
speaks = refl

abbrev link_2 : Link
link_2 = record { ip = b'b' ∷ []; port = 10001; timeout = 300; depth = 10000 }

abbrev beat_req : RaftMsgReq
beat_req = record {
  from_peer = record { host_id = 1; peer_id = 1 };
  to_peer = record { host_id = 2; peer_id = 1 };
  msg = beat 2;
}

sent_beat : spoken.host.net.sent ≡ [] ++ (link_2, beat_req) ∷ []
unfolding spoken
sent_beat = refl

abbrev pair : Deployment chat
pair = record {
  group = both_members;
  reaches = host_behind;
  host_path = λ h. if h == 2 then flags_2.host_path else (flags_of 1).host_path;
  disks = λ h. [];
}

abbrev nobody : Cluster chat
nobody = record { servers = []; disks = λ h. []; wire = [] }

abbrev with_server : ℕ → Server chat → Cluster chat → Cluster chat
with_server h s c = record c { servers = assign h s c.servers }

abbrev with_start : ServerFlags → Launched chat → Cluster chat → Cluster chat
with_start f l c = record c {
  servers = assign f.host_id l.server c.servers;
  disks = set_disk chat f.host_id l.files c.disks;
}

abbrev two_servers : Cluster chat
two_servers =
    with_start flags_2 (started flags_2) (with_start (flags_of 1) (started (flags_of 1)) nobody)

abbrev talking : Cluster chat
talking = with_server 1 spoken two_servers

two_servers-Reach : Reach chat pair two_servers
two_servers-Reach =
    later
      (later none_yet (
        starts (flags_of 1) tt empty_snapshot (started (flags_of 1))
          (reads_members, (member_1, refl, refl), refl) refl starts_1))
      (starts flags_2 tt empty_snapshot (started flags_2)
        (reads_members, (member_2, refl, refl), refl) refl starts_2)

talking-Reach : Reach chat pair talking
talking-Reach =
    later two_servers-Reach
      (acts 1 (timer_fires 1) (started (flags_of 1)).server spoken tt refl speaks)

abbrev told : Server chat
told = record ((started flags_2).server) { tasks = handle_raft_msg_cb beat_req 50 ∷ [] }

no_task : (started flags_2).server.tasks ≡ []
unfolding started
no_task = refl

handle_raft_msg-Reach_example :
    handle_raft_msg chat beat_req 50 (started flags_2).server
    ≡ returned (record ((started flags_2).server) {
      tasks = (started flags_2).server.tasks ++ handle_raft_msg_cb beat_req 50 ∷ [];
    })
handle_raft_msg-Reach_example =
    handle_raft_msg-Reach chat pair both-IsMemberTable chat-IsNetwork talking
      (started flags_2).server link_2 beat_req 50 talking-Reach
      (sent_by 1 spoken [] [] refl sent_beat) refl

takes_beat : receive chat (raft_call beat_req 50) (started flags_2).server ≡ returned told
unfolding handle_raft_msg started
takes_beat = refl

abbrev delivered_once : Cluster chat
delivered_once = with_server 2 told talking

delivered_once-Reach : Reach chat pair delivered_once
delivered_once-Reach = later talking-Reach (
    delivers link_2 beat_req 50 (started flags_2).server told
      (sent_by 1 spoken [] [] refl sent_beat) refl takes_beat)

run_at-Reach_example : (s : Server chat) × (run_at chat 0 told ≡ returned s)
run_at-Reach_example =
    run_at-Reach chat pair both-IsMemberTable chat-IsNetwork delivered_once 2 0 told beat_req 50 []
      delivered_once-Reach refl refl

rpc_cli_mgr-Reach_example : length spoken.host.net.rpc_cli_mgr ≤ length both_members
rpc_cli_mgr-Reach_example =
    rpc_cli_mgr-Reach chat pair both-IsMemberTable chat-IsNetwork talking 1 spoken talking-Reach
      refl
