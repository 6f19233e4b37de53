-- ===== src/Examples/ServerRuns/Told.antt =====
-- What the clients of that server are told.
use jkv.Base.{◌≡◌, refl, some, [], arith, AllIn}
use jkv.Calls.{no_calls}
use jkv.Storage
use jkv.Storage.{disk_storage}
use jkv.Peer.Proposals.{get_proposal}
use jkv.Peer.Apply.{process_entries, process_entry, process_normal}
use jkv.Peer.Ready.{tick, handle_raft_ready}
use jkv.Peer.Propose.{propose_kv_op}
use jkv.Server.{run_kv_op, run_at, fire}
use jkv.Server.Inputs.{serve, delivered_in}
use jkv.Server.Replica.{map_at}
use jkv.Peer.Proposals.News.{News}
use jkv.Server.Honest.{HonestAt}
use jkv.Server.Told.{IsIdle, TakesInputs, Asked, serve-Told}
use jkv.Storage.View.{Map}
use jkv.Peer.History.Honest.{Honest}
use jkv.Echo.Promise.{server_main-Told}
use jkv.Examples.Kv.{pairs_db-reliable, pairs_db-laws}
use jkv.Examples.Solo.{solo_raft-LogMatching}
use jkv.Examples.World.{world}
use jkv.Examples.ServerRuns.{
  flags_of, empty_snapshot, launched, launches, two_calls, served, serves,
}

two_calls-TakesInputs : TakesInputs world solo_raft-LogMatching two_calls (launched 1).server
unfolding serve run_at run_kv_op propose_kv_op fire tick handle_raft_ready process_entries
    process_entry process_normal Storage.put Storage.get get_proposal launched
two_calls-TakesInputs =
    (tt, (tt, (((λ s e l. refl), omega arith), (((λ s e l. refl), omega arith), (tt, tt)))))

launched-IsIdle : AllIn IsIdle (launched 1).server.host.local_peers
unfolding launched
launched-IsIdle = (refl, tt)

no_tasks_yet : (launched 1).server.tasks ≡ []
unfolding launched
no_tasks_yet = refl

serve-Told_example :
    News
      (HonestAt world solo_raft-LogMatching
        (Asked two_calls)
        (λ j. delivered_in world j two_calls (launched 1).server)
        (λ j. map_at world j (launched 1).server))
      (launched 1).server.calls
      served.calls
serve-Told_example =
    serve-Told world solo_raft-LogMatching two_calls (launched 1).server served pairs_db-reliable
      pairs_db-laws no_tasks_yet launched-IsIdle two_calls-TakesInputs serves

server_main-Told_example :
    (m : Map) × (map_at world 1 (launched 1).server ≡ some m)
    × News
        (Honest world solo_raft-LogMatching
          (Asked two_calls)
          (delivered_in world 1 two_calls (launched 1).server)
          m)
        no_calls
        served.calls
server_main-Told_example =
    server_main-Told world solo_raft-LogMatching (flags_of 1) tt empty_snapshot [] (launched 1)
      two_calls served pairs_db-reliable pairs_db-laws launches two_calls-TakesInputs serves
