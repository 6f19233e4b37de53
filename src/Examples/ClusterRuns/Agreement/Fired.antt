-- ===== src/Examples/ClusterRuns/Agreement/Fired.antt =====
-- The first server's timer fires when a write and a read wait for it.
use jkv.Base.{◌≡◌, refl, some, find}
use jkv.Peer.State.{Peer}
use jkv.Server.{fire}
use jkv.Server.Inputs.{timer_fires, delivered_by}
use jkv.Server.Replica.{map_at, serve_at}
use jkv.Server.Ticks.{seen_at, fire-serve_at}
use jkv.Examples.ClusterRuns.{chat, started}
use jkv.Examples.ClusterRuns.Agreement.{next, get_asked, peer_of}
use jkv.Examples.Kv.{pairs_db-reliable, pairs_db-laws}
use jkv.Examples.World.{member_2}

abbrev asked_peer : Peer chat
asked_peer = peer_of get_asked.host.local_peers

found : find 1 get_asked.host.local_peers ≡ some asked_peer
unfolding next started
found = refl

fire-serve_at_example :
    seen_at chat 1 (fire chat 1 get_asked)
    ≡ serve_at chat 1 (delivered_by chat 1 (timer_fires 1) get_asked) (map_at chat 1 get_asked)
unfolding next started
fire-serve_at_example =
    fire-serve_at chat (λ c. refl) pairs_db-reliable pairs_db-laws 1 get_asked asked_peer found
      ((member_2, refl), tt)
