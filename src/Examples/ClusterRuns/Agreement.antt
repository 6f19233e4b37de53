-- ===== src/Examples/ClusterRuns/Agreement.antt =====
-- Both servers of the group write the key, and then the second one reads it.
mod Crash
mod Recovered
mod Fired
use jkv.Peer.State.{Peer}
use jkv.Base.{Table, true, none, ◌≡◌, refl, [], ◌∷◌, ◌++◌, returned}
use jkv.Storage
use jkv.Clients.{get_client}
use jkv.Peer.Proposals.{get_proposal}
use jkv.Peer.Apply.{process_entries, process_entry, process_normal}
use jkv.Peer.Send.{send_msgs, send_msg2_peer}
use jkv.Peer.Ready.{tick, handle_raft_ready}
use jkv.Peer.Propose.{propose_kv_op}
use jkv.Server.{Server, run_at, run_kv_op, fire}
use jkv.Server.Inputs.{Input, kv_call, task_runs, timer_fires, receive}
use jkv.Server.Replica.{map_at, serve_at}
use jkv.Cluster.{Cluster, acts, Reach, later}
use jkv.Cluster.Log.{log_at, first_map, Reach-serve_at, Reach-agreement}
use jkv.Examples.ClusterRuns.{
  chat, pair, with_server, flags_2, started, two_servers, two_servers-Reach,
}
use jkv.Examples.Kv.{pairs_db-reliable, pairs_db-laws}
use jkv.Examples.PeerRuns.{entry_at}
use jkv.Examples.ServerRuns.{flags_of, value_of}
use jkv.Examples.World.{put_k, get_k, member_1}

next : Input → Server chat → Server chat
unfolding fire tick handle_raft_ready send_msgs send_msg2_peer get_client run_at run_kv_op
    propose_kv_op process_entries process_entry process_normal Storage.put Storage.get get_proposal
next e s = value_of s (receive chat e s)

abbrev put_called : Server chat
put_called = next (kv_call put_k 10 20) ((started (flags_of 1)).server)

abbrev put_asked : Server chat
put_asked = next (task_runs 0) put_called

abbrev put_done : Server chat
put_done = next (timer_fires 1) put_asked

abbrev put_called_2 : Server chat
put_called_2 = next (kv_call put_k 30 40) ((started flags_2).server)

abbrev put_asked_2 : Server chat
put_asked_2 = next (task_runs 0) put_called_2

abbrev put_done_2 : Server chat
put_done_2 = next (timer_fires 1) put_asked_2

abbrev get_called_2 : Server chat
get_called_2 = next (kv_call get_k 31 41) put_done_2

abbrev get_asked_2 : Server chat
get_asked_2 = next (task_runs 0) get_called_2

abbrev get_done_2 : Server chat
get_done_2 = next (timer_fires 1) get_asked_2

goes_put_called :
    receive chat (kv_call put_k 10 20) (started (flags_of 1)).server ≡ returned put_called
unfolding next started
goes_put_called = refl

goes_put_asked : receive chat (task_runs 0) put_called ≡ returned put_asked
unfolding next started
goes_put_asked = refl

goes_put_done : receive chat (timer_fires 1) put_asked ≡ returned put_done
unfolding next started
goes_put_done = refl

goes_put_called_2 :
    receive chat (kv_call put_k 30 40) (started flags_2).server ≡ returned put_called_2
unfolding next started
goes_put_called_2 = refl

goes_put_asked_2 : receive chat (task_runs 0) put_called_2 ≡ returned put_asked_2
unfolding next started
goes_put_asked_2 = refl

goes_put_done_2 : receive chat (timer_fires 1) put_asked_2 ≡ returned put_done_2
unfolding next started
goes_put_done_2 = refl

goes_get_called_2 : receive chat (kv_call get_k 31 41) put_done_2 ≡ returned get_called_2
unfolding next started
goes_get_called_2 = refl

goes_get_asked_2 : receive chat (task_runs 0) get_called_2 ≡ returned get_asked_2
unfolding next started
goes_get_asked_2 = refl

goes_get_done_2 : receive chat (timer_fires 1) get_asked_2 ≡ returned get_done_2
unfolding next started
goes_get_done_2 = refl

abbrev first : Server chat
first = (started (flags_of 1)).server

abbrev second : Server chat
second = (started flags_2).server

abbrev second_served : Cluster chat
second_served = with_server 2 get_done_2 (
    with_server 2 get_asked_2 (
      with_server 2 get_called_2 (
        with_server 2 put_done_2
          (with_server 2 put_asked_2 (with_server 2 put_called_2 two_servers)))))

second_serves : Reach chat pair second_served
second_serves =
    later
      (later
        (later
          (later
            (later
              (later two_servers-Reach
                (acts 2 (kv_call put_k 30 40) second put_called_2 tt refl goes_put_called_2))
              (acts 2 (task_runs 0) put_called_2 put_asked_2 tt refl goes_put_asked_2))
            (acts 2 (timer_fires 1) put_asked_2 put_done_2 tt refl goes_put_done_2))
          (acts 2 (kv_call get_k 31 41) put_done_2 get_called_2 tt refl goes_get_called_2))
        (acts 2 (task_runs 0) get_called_2 get_asked_2 tt refl goes_get_asked_2))
      (acts 2 (timer_fires 1) get_asked_2 get_done_2 tt refl goes_get_done_2)

abbrev worked : Cluster chat
worked = with_server 1 put_done (with_server 1 put_asked (with_server 1 put_called second_served))

abbrev worked-Reach : Reach chat pair worked
worked-Reach =
    later
      (later
        (later second_serves
          (acts 1 (kv_call put_k 10 20) first put_called tt refl goes_put_called))
        (acts 1 (task_runs 0) put_called put_asked tt refl goes_put_asked))
      (acts 1 (timer_fires 1) put_asked put_done tt refl goes_put_done)

abbrev get_called : Server chat
get_called = next (kv_call get_k 11 21) put_asked

abbrev get_asked : Server chat
get_asked = next (task_runs 0) get_called

-- The peer that is there, or else one without anything.
abbrev peer_of : Table (Peer chat) → Peer chat
peer_of [] = record {
  self = member_1;
  worker = none;
  peers = [];
  raw_node = record { leads = true; term = 1; stable = 0; fresh = []; outbox = [] };
  kv_db = record { db_path = []; db = [] };
  proposals = [];
}
peer_of ((i, p) ∷ m) = p

-- Raft has delivered the read to the second server only.
one_more :
    log_at chat pair 1 worked-Reach 2 ≡ log_at chat pair 1 worked-Reach 1 ++ entry_at 2 get_k ∷ []
unfolding next started two_servers-Reach second_serves
one_more = refl

-- The second server answers a write and a read before, and the first one is asked for both.
abbrev asked : Cluster chat
asked =
    with_server 1 get_asked
      (with_server 1 get_called (with_server 1 put_asked (with_server 1 put_called second_served)))

goes_get_called : receive chat (kv_call get_k 11 21) put_asked ≡ returned get_called
unfolding next started
goes_get_called = refl

goes_get_asked : receive chat (task_runs 0) get_called ≡ returned get_asked
unfolding next started
goes_get_asked = refl

asked-Reach : Reach chat pair asked
asked-Reach =
    later
      (later
        (later
          (later second_serves
            (acts 1 (kv_call put_k 10 20) first put_called tt refl goes_put_called))
          (acts 1 (task_runs 0) put_called put_asked tt refl goes_put_asked))
        (acts 1 (kv_call get_k 11 21) put_asked get_called tt refl goes_get_called))
      (acts 1 (task_runs 0) get_called get_asked tt refl goes_get_asked)
