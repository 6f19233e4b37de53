-- ===== src/Examples/ClusterRuns/Agreement/Crash.antt =====
-- The first server of the group ends in the middle of a round, with one of two entries applied, and is
-- started again on its disk.
use jkv.Base.{arith, arith, ◌≡◌, refl, none, some, [], ◌∷◌, Table, find, assign, returned}
use jkv.Calls.{Calls}
use jkv.Clients.{Net}
use jkv.Storage
use jkv.Storage.{disk_storage}
use jkv.Text.Decimal.{to_string}
use jkv.Clients.{get_client}
use jkv.Peer.Send.{send_msgs, send_msg2_peer}
use jkv.Examples.NetRuns.{beat}
use jkv.Peer.State.{Peer}
use jkv.Peer.Proposals.{get_proposal}
use jkv.Peer.Apply.{process_entries, process_entry, process_normal, process_req}
use jkv.Peer.Ready.Frame.{appended}
use jkv.Peer.History.Steps.{ticked}
use jkv.Server.{fire, Server}
use jkv.Server.Ends.{CutShort, in_a_round, killed_peers}
use jkv.Server.Inputs.{kv_call, task_runs, timer_fires, receive}
use jkv.Echo.ServerMain.{Launched, server_main}
use jkv.Cluster.{Step, Cluster, ended, starts, dies, acts, Reach, later}
use jkv.Echo.Start.{CanStart, server_main_iff}
use jkv.Server.Replica.{map_at, map_of_peer}
use jkv.Cluster.Progress.{fire-Reach}
use jkv.Storage.View.{update}
use jkv.Peer.Apply.Replay.{empty_map}
use jkv.Examples.Kv.{pairs_db-reliable, pairs_db-laws}
use jkv.Cluster.Restart.{dies-restarts}
use jkv.Examples.Kv.{pairs_db-durable}
use jkv.Cluster.Runs.{launch_of, inputs_of}
use jkv.Server.Told.{TakesInputs}
use jkv.Cluster.Log.{log_at, past_logs}
use jkv.Cluster.Recovery.{IsHome}
use jkv.Examples.ClusterRuns.{
  chatty_raft-LogMatching, chat, pair, with_server, with_start, started, before_start,
  two_servers-Reach,
}
use jkv.Examples.ClusterRuns.Agreement.{asked, asked-Reach, get_asked, peer_of, next, second_serves}
use jkv.Echo.ServerMain.{check_server_flags}
use jkv.Host.{add_local_peer}
use jkv.Peer.Create.{create_peer}
use jkv.Peer.Members.{init_group_members, add_members}
use jkv.Text.Split.{pieces}
use jkv.Text.Atoi.{atoi}
use jkv.Examples.MemberRuns.{reads_members}
use jkv.Examples.PeerRuns.{entry_at}
use jkv.Examples.ServerRuns.{flags_of, empty_snapshot, value_of}
use jkv.Examples.World.{put_k, get_k, member_1, member_2}

abbrev in_round : Peer chat
in_round = appended chat (ticked chat (peer_of get_asked.host.local_peers))

half_done : Peer chat × Calls
unfolding process_entries process_entry process_normal process_req Storage.put get_proposal
half_done =
    value_of (in_round, get_asked.calls)
      (process_entries chat (entry_at 1 put_k ∷ []) in_round get_asked.calls)

half_runs :
    process_entries chat (entry_at 1 put_k ∷ []) in_round get_asked.calls
    ≡ returned (half_done.0, half_done.1)
unfolding half_done next started
half_runs = refl

-- The message is sent, and the first of the two entries applied.
sent_net : Net chat
unfolding send_msgs send_msg2_peer get_client
sent_net = value_of get_asked.host.net (send_msgs chat in_round (beat 2 ∷ []) get_asked.host.net)

sends : send_msgs chat in_round (beat 2 ∷ []) get_asked.host.net ≡ returned sent_net
unfolding sent_net next started
sends = refl

abbrev left_peers : Table (Peer chat)
left_peers = assign 1 half_done.0 get_asked.host.local_peers

cut : CutShort chat get_asked left_peers sent_net
unfolding next started
cut =
    in_a_round 1 (peer_of get_asked.host.local_peers) half_done.0 half_done.1 sent_net (beat 2 ∷ [])
      [] (entry_at 1 put_k ∷ []) (entry_at 2 get_k ∷ []) refl refl refl sends refl half_runs

abbrev crashed : Cluster chat
crashed = ended chat 1 (killed_peers chat (asked.disks 1) left_peers) sent_net.sent asked

crashed-Reach : Reach chat pair crashed
crashed-Reach = later asked-Reach (dies 1 get_asked left_peers sent_net refl cut)

-- The server that is started again has the database, and is delivered the write again.
pub again : Launched chat
unfolding server_main check_server_flags add_local_peer create_peer init_group_members add_members
    pieces atoi to_string disk_storage
again =
    value_of (before_start (flags_of 1))
      (server_main chat (flags_of 1) tt empty_snapshot (crashed.disks 1))

starts_again : server_main chat (flags_of 1) tt empty_snapshot (crashed.disks 1) ≡ returned again
unfolding again started next half_done
starts_again = refl

none_runs : find 1 crashed.servers ≡ none
none_runs = refl

abbrev restarted : Cluster chat
restarted = with_start (flags_of 1) again crashed

restarted-Reach : Reach chat pair restarted
restarted-Reach = later crashed-Reach (
    starts (flags_of 1) tt empty_snapshot again (reads_members, (member_1, refl, refl), refl)
      none_runs starts_again)

abbrev restarts_put : Server chat
restarts_put = next (kv_call put_k 12 22) again.server

abbrev restarts_asked : Server chat
restarts_asked = next (task_runs 0) restarts_put

pub back : Server chat
back = next (timer_fires 1) restarts_asked

goes_restarts_put : receive chat (kv_call put_k 12 22) again.server ≡ returned restarts_put
unfolding next again started half_done
goes_restarts_put = refl

goes_restarts_asked : receive chat (task_runs 0) restarts_put ≡ returned restarts_asked
unfolding next again started half_done
goes_restarts_asked = refl

goes_back : receive chat (timer_fires 1) restarts_asked ≡ returned back
unfolding back next again started half_done
goes_back = refl

restarted_1 : find 1 restarted.servers ≡ some again.server
restarted_1 = refl

abbrev waiting : Cluster chat
waiting = with_server 1 restarts_asked (with_server 1 restarts_put restarted)

waiting-Reach : Reach chat pair waiting
waiting-Reach =
    later
      (later restarted-Reach
        (acts 1 (kv_call put_k 12 22) again.server restarts_put tt restarted_1 goes_restarts_put))
      (acts 1 (task_runs 0) restarts_put restarts_asked tt refl goes_restarts_asked)

pub recovered : Cluster chat
recovered = with_server 1 back waiting

pub recovered-Reach : Reach chat pair recovered
unfolding recovered back
recovered-Reach = later waiting-Reach (acts 1 (timer_fires 1) restarts_asked back tt refl goes_back)

pub member_1-IsHome : IsHome chat pair 1 member_1
unfolding to_string
member_1-IsHome = record { member = refl; blank = refl }

pub member_2-IsHome : IsHome chat pair 2 member_2
unfolding to_string
member_2-IsHome = record { member = refl; blank = refl }

-- The process that ended had been delivered what the one after it has been.
pub log_1 : log_at chat pair 1 recovered-Reach 1 ≡ entry_at 1 put_k ∷ []
unfolding recovered-Reach waiting-Reach next started again half_done restarted-Reach crashed-Reach
    cut asked-Reach second_serves two_servers-Reach
log_1 = refl

pub log_2 : log_at chat pair 1 recovered-Reach 2 ≡ entry_at 1 put_k ∷ entry_at 2 get_k ∷ []
unfolding recovered-Reach waiting-Reach next started again half_done restarted-Reach crashed-Reach
    cut asked-Reach second_serves two_servers-Reach
log_2 = refl

pub past_1 : past_logs chat pair 1 recovered-Reach 1 ≡ [] ∷ (entry_at 1 put_k ∷ []) ∷ []
unfolding recovered-Reach waiting-Reach next started again half_done restarted-Reach crashed-Reach
    cut asked-Reach second_serves two_servers-Reach
past_1 = refl

pub past_2 : past_logs chat pair 1 recovered-Reach 2 ≡ [] ∷ []
unfolding recovered-Reach waiting-Reach next started again half_done restarted-Reach crashed-Reach
    cut asked-Reach second_serves two_servers-Reach
past_2 = refl

pub back_runs : find 1 recovered.servers ≡ some back
unfolding recovered
back_runs = refl

pub again_launched : launch_of chat pair recovered-Reach 1 ≡ some again
unfolding recovered-Reach waiting-Reach restarted-Reach
again_launched = refl

-- The one request is accepted.
pub takes_put :
    TakesInputs chat chatty_raft-LogMatching (inputs_of chat pair recovered-Reach 1) again.server
unfolding recovered-Reach waiting-Reach restarted-Reach next again started half_done
    chatty_raft-LogMatching
takes_put = (tt, (((λ s e l. refl), omega arith), (tt, tt)))

can_restart :
    CanStart chat (flags_of 1) empty_snapshot (killed_peers chat (asked.disks 1) left_peers)
can_restart =
    (server_main_iff chat (flags_of 1) tt empty_snapshot (crashed.disks 1)).0 (again, starts_again)

dies-restarts_example :
    Step chat pair asked crashed
    × ((c : Cluster chat) × (t : Server chat) × Step chat pair crashed c
        × (find 1 c.servers ≡ some t)
        × (map_at chat 1 t ≡ map_of_peer chat 1 (find 1 left_peers)))
dies-restarts_example =
    dies-restarts chat pair 1 member_1 refl pairs_db-durable asked asked-Reach get_asked left_peers
      sent_net (flags_of 1) tt empty_snapshot refl cut refl
      (reads_members, (member_1, refl, refl), refl) can_restart

-- The server that has been started again is about to deliver the write.
peer_waits : find 1 restarts_asked.host.local_peers ≡ some (peer_of restarts_asked.host.local_peers)
unfolding next started again half_done
peer_waits = refl

fire-Reach_example : (s : Server chat) × (fire chat 1 restarts_asked ≡ returned s)
unfolding next started again half_done waiting-Reach restarted-Reach crashed-Reach cut asked-Reach
    second_serves two_servers-Reach
fire-Reach_example =
    fire-Reach chat pair 1 member_1 member_1-IsHome pairs_db-durable pairs_db-reliable pairs_db-laws
      (λ cl. refl) waiting waiting-Reach restarts_asked (peer_of restarts_asked.host.local_peers)
      (entry_at 1 put_k ∷ entry_at 2 get_k ∷ [])
      (update (empty_map chat) put_k.put_req.key put_k.put_req.value) refl peer_waits
      ((member_2, refl), tt)
      ((entry_at 1 put_k ∷ entry_at 2 get_k ∷ [], refl), ((entry_at 2 get_k ∷ [], refl), tt))
      (entry_at 2 get_k ∷ [], refl) refl
