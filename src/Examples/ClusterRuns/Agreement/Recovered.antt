-- ===== src/Examples/ClusterRuns/Agreement/Recovered.antt =====
-- What the group holds, and its clients have been told, after the first server has come back.
use jkv.Base.{List, sym, ap, ◌∙◌, ◌≡◌, refl, some, [], ◌∷◌, ◌++◌, returned}
use jkv.Calls.{no_calls}
use jkv.Peer.Proposals.News.{News}
use jkv.Peer.History.Honest.{Honest}
use jkv.Peer.Apply.Replay.{empty_map}
use jkv.Proto.{Entry}
use jkv.Storage.View.{update}
use jkv.Peer.Apply.Machine.{serve_entries}
use jkv.Server.Replica.{serve_at}
use jkv.Server.Told.{Asked}
use jkv.Cluster.Log.{log_at}
use jkv.Cluster.Runs.{inputs_of}
use jkv.Cluster.Disk.{map_held, whole_log}
use jkv.Cluster.Durable.{Reach-map_held}
use jkv.Cluster.Recovery.{HasCaughtUp, Reach-recovers, Reach-converges}
use jkv.Cluster.Promise.{Reach-Told, Reach-one_history}
use jkv.Examples.ClusterRuns.{chatty_raft-LogMatching, chat, pair}
use jkv.Examples.ClusterRuns.Agreement.Crash.{
  recovered, recovered-Reach, back, back_runs, again, again_launched, takes_put, member_1-IsHome,
  member_2-IsHome, log_1, log_2, past_1, past_2,
}
use jkv.Examples.Kv.{pairs_db-reliable, pairs_db-laws, pairs_db-durable}
use jkv.Examples.PeerRuns.{entry_at}
use jkv.Examples.World.{put_k, get_k, member_1, member_2}

caught_1 : HasCaughtUp chat pair 1 member_1 recovered-Reach
caught_1 = rw (past_1, log_1) ((entry_at 1 put_k ∷ [], refl), (([], refl), tt))

caught_2 : HasCaughtUp chat pair 2 member_2 recovered-Reach
caught_2 = rw past_2 ((log_at chat pair 1 recovered-Reach 2, refl), tt)

Reach-map_held_example :
    serve_at chat 1 (whole_log chat pair 1 member_1 recovered-Reach) (some (empty_map chat))
    ≡ returned (map_held chat pair 1 member_1 recovered)
Reach-map_held_example =
    Reach-map_held chat pair 1 member_1 member_1-IsHome.member pairs_db-durable pairs_db-reliable
      pairs_db-laws member_1-IsHome.blank recovered recovered-Reach

Reach-recovers_example :
    serve_at chat 1 (log_at chat pair 1 recovered-Reach 1) (some (empty_map chat))
    ≡ returned (map_held chat pair 1 member_1 recovered)
Reach-recovers_example =
    Reach-recovers chat pair pairs_db-durable pairs_db-reliable pairs_db-laws recovered
      recovered-Reach 1 member_1 member_1-IsHome caught_1

Reach-converges_example :
    serve_at chat 1 (entry_at 2 get_k ∷ []) (map_held chat pair 1 member_1 recovered)
    ≡ returned (map_held chat pair 2 member_2 recovered)
Reach-converges_example =
    Reach-converges chat pair pairs_db-durable pairs_db-reliable pairs_db-laws recovered
      recovered-Reach 1 2 member_1 member_2 (entry_at 2 get_k ∷ []) member_1-IsHome member_2-IsHome
      caught_1 caught_2 (log_2 ∙ ap (λ l. l ++ entry_at 2 get_k ∷ []) (sym log_1))

Reach-Told_example :
    News
      (Honest chat chatty_raft-LogMatching
        (Asked (inputs_of chat pair recovered-Reach 1))
        (whole_log chat pair 1 member_1 recovered-Reach)
        (empty_map chat))
      no_calls
      back.calls
Reach-Told_example =
    Reach-Told chat pair 1 member_1 member_1-IsHome pairs_db-durable pairs_db-reliable pairs_db-laws
      chatty_raft-LogMatching recovered recovered-Reach back again back_runs again_launched
      takes_put

abbrev group_log : List Entry
group_log = entry_at 1 put_k ∷ entry_at 2 get_k ∷ []

group_served :
    serve_entries chat group_log (empty_map chat)
    ≡ returned (update (empty_map chat) put_k.put_req.key put_k.put_req.value)
group_served = refl

Reach-one_history_example :
    News
      (Honest chat chatty_raft-LogMatching
        (Asked (inputs_of chat pair recovered-Reach 1))
        group_log
        (empty_map chat))
      no_calls
      back.calls
Reach-one_history_example =
    Reach-one_history chat pair 1 member_1 member_1-IsHome pairs_db-durable pairs_db-reliable
      pairs_db-laws chatty_raft-LogMatching recovered recovered-Reach back again group_log
      (update (empty_map chat) put_k.put_req.key put_k.put_req.value) back_runs again_launched
      takes_put (rw past_1 ((group_log, refl), ((entry_at 2 get_k ∷ [], refl), tt)))
      (rw log_1 (entry_at 2 get_k ∷ [], refl)) group_served
