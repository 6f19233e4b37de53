-- ===== src/Cluster/Progress.antt =====
-- That a server goes on, whatever its host has been through.
use mathlib.Core.List.{IsPrefix, flatten}
use mathlib.Core.Path.{subst}
use jkv.Base.{
  false, ℕ, ◌≡◌, refl, sym, ap, ◌∙◌, Option, some, List, ◌++◌, All, Outcome, returned, fatal, ◌>>=◌,
  >>=-eq-returned, find,
}
use jkv.Proto.{Entry}
use jkv.Env.{Env}
use jkv.Storage.{LeveldbLaws, IsDurable}
use jkv.Storage.View.{Map, IsReliable, map_on}
use jkv.Peer.State.{Peer, GroupMember}
use jkv.Peer.Apply.Machine.{serve_entries, serve_entries-append}
use jkv.Peer.Apply.Replay.{
  empty_map, IsLeftBy, IsLeftBy-Ahead, Ahead, writes, serve_entries-Ahead_left,
}
use jkv.Peer.Apply.Lives.{flatten-IsLeftBy}
use jkv.Peer.Send.Order.{IsMember}
use jkv.Peer.Ready.Frame.{ready_of}
use jkv.Peer.History.Steps.{ticked}
use jkv.Server.{Server, fire}
use jkv.Server.Inputs.{timer_fires, delivered_by}
use jkv.Server.Replica.{map_at, serve_at, serve_at-append}
use jkv.Server.Ticks.{seen_at, fire-serve_at}
use jkv.Cluster.{Deployment, Cluster, Reach}
use jkv.Cluster.Log.{log_at, past_logs, first_map, Reach-serve_at}
use jkv.Cluster.Runs.{Reach-IsRun}
use jkv.Cluster.Disk.{home_path, server_main-map_at}
use jkv.Cluster.Recovery.{IsHome}
use jkv.Cluster.Promise.{served_map, past-first_map}

module _ (env : Env) where
  -- A log that a longer one begins, which the empty map can serve, can be served on what is left.
  serve_entries-left :
      (es fs log : List Entry) (m n : Map)
      → es ++ fs ≡ log
      → serve_entries env log (empty_map env) ≡ returned m
      → IsLeftBy env log n
      → (b : Map) × (serve_entries env es n ≡ returned b)
  serve_entries-left es fs log m n cut ran left =
      let (a, first, _) =
        >>=-eq-returned (serve_entries env es (empty_map env)) (serve_entries env fs) (
          sym (serve_entries-append env es fs (empty_map env))
          ∙ ap (λ l. serve_entries env l (empty_map env)) cut
          ∙ ran) in
      let (b, goes, _) =
        serve_entries-Ahead_left env es fs (empty_map env) a n
          (subst (λ l. Ahead (writes env.codec l) (empty_map env) n) (sym cut)
            (IsLeftBy-Ahead env log n left))
          first in
      (b, goes)

  returned_of :
      (j : ℕ) (o : Outcome (Server env)) (a : Option Map)
      → seen_at env j o ≡ returned a
      → (s : Server env) × (o ≡ returned s)
  returned_of j (returned s) a h = (s, refl)
  returned_of j (fatal e) a h = absurd (cc)

module _ (env : Env) (d : Deployment env) (home : ℕ) (g : GroupMember)
    (is_home : IsHome env d home g) (durable : IsDurable env.leveldb)
    (reliable : IsReliable env.leveldb) (laws : LeveldbLaws env.leveldb) where
  open env use {raft, jrpc, leveldb}

  -- What the start has found is what runs of the group's log have left.
  first_map-IsLeftBy :
      (c : Cluster env) (r : Reach env d c) (s : Server env) (log : List Entry)
      → find home c.servers ≡ some s
      → All (λ k. IsPrefix k log) (past_logs env d g.peer_id r home)
      → (n : Map) × (first_map env d g.peer_id r home ≡ some n) × IsLeftBy env log n
  first_map-IsLeftBy c r s log at earlier =
      let o = Reach-IsRun env d c r home s at in
      let (_, began) =
        server_main-map_at env d home g is_home.member o.flags o.worker o.storage o.files o.launch
          o.here o.names o.launches in
      let n = map_on leveldb o.files (home_path env d home g) in
      let found = o.first g.peer_id ∙ began in
      let past = flatten (past_logs env d g.peer_id r home) in
      let held =
        served_map env d home g is_home past (empty_map env) n
          (past-first_map env d home g is_home durable reliable laws c r n found) in
      (
        n,
        found,
        flatten-IsLeftBy env (past_logs env d g.peer_id r home) log (empty_map env) n earlier
            (λ k w. refl) held,
      )

  -- In a cluster that begins without a database at the path of a host's member, over databases that
  -- outlive their processes and do not fail, where connecting never fails: when raft's messages are for
  -- members of the peer's group, and what the peer of each process of the host has been handed over and
  -- has applied, for the last one with what its next tick hands over, begins one log of the group that
  -- can be served from the empty map, the timer of the server that runs there fires without an abort,
  -- whatever the host and its database have been through.
  pub fire-Reach :
      ((cl : jrpc.Client) → (jrpc.connect cl).0 ≡ false)
      → (c : Cluster env) (r : Reach env d c) (s : Server env) (p : Peer env) (log : List Entry)
        (m : Map)
      → find home c.servers ≡ some s
      → find g.peer_id s.host.local_peers ≡ some p
      → All (IsMember env p) (raft.messages (ready_of env (ticked env p)))
      → All (λ k. IsPrefix k log) (past_logs env d g.peer_id r home)
      → IsPrefix
          (log_at env d g.peer_id r home ++ delivered_by env g.peer_id (timer_fires g.peer_id) s)
          log
      → serve_entries env log (empty_map env) ≡ returned m
      → (s' : Server env) × (fire env g.peer_id s ≡ returned s')
  fire-Reach fine c r s p log m at here members earlier (rest, cut) ran =
      let j = g.peer_id in
      let mine = log_at env d j r home in
      let next = delivered_by env j (timer_fires j) s in
      let (n, found, left) = first_map-IsLeftBy c r s log at earlier in
      let (b, goes) = serve_entries-left env (mine ++ next) rest log m n cut ran left in
      let so_far = rw found at (Reach-serve_at env d j reliable laws c r home s at) in
      let served : serve_at env j next (map_at env j s) ≡ returned (some b) =
        sym (serve_at-append env j mine next (some n) (map_at env j s) so_far)
        ∙ ap (λ o. o >>= λ (x : Map). returned (some x)) goes in
      returned_of env j (fire env j s) (some b)
        (fire-serve_at env fine reliable laws j s p here members ∙ served)
