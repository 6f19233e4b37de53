-- ===== src/Cluster/Recovery.antt =====
-- Hosts that come back: a server that is started again has its database and an empty raft log, and is
-- delivered the group's log from its first entry on.
use mathlib.Core.List.{IsPrefix}
use jkv.Base.{ℕ, ◌≡◌, sym, ap, ◌∙◌, some, List, ◌++◌, All, returned, >>=-eq-returned, find, false}
use jkv.Proto.{Entry}
use jkv.Env.{Env}
use jkv.Storage.{LeveldbLaws, IsDurable}
use jkv.Storage.View.{IsReliable}
use jkv.Peer.State.{GroupMember}
use jkv.Peer.Apply.Machine.{serve_entries}
use jkv.Peer.Apply.Replay.{empty_map}
use jkv.Peer.Apply.Lives.{serve_entries-lives}
use jkv.Server.Replica.{serve_at, serve_at-append}
use jkv.Cluster.{Deployment, Cluster, Reach}
use jkv.Cluster.Log.{log_at, past_logs}
use jkv.Cluster.Disk.{home_path, map_held, whole_log}
use jkv.Cluster.Durable.{Reach-map_held}

module _ (env : Env) (d : Deployment env) where
  -- The host of a member, without a database at first.
  pub record IsHome (home : ℕ) (g : GroupMember) : Type 0 where
    pub member : find home d.group ≡ some g
    pub blank : env.leveldb.exists (d.disks home) (home_path env d home g) ≡ false

  -- The host's earlier processes were delivered beginnings of what the last one was delivered.
  abbrev pub HasCaughtUp : ℕ → GroupMember → {c : Cluster env} → Reach env d c → Type 0
  HasCaughtUp home g r =
      All (λ l. IsPrefix l (log_at env d g.peer_id r home)) (past_logs env d g.peer_id r home)

module _ (env : Env) (d : Deployment env) (durable : IsDurable env.leveldb)
    (reliable : IsReliable env.leveldb) (laws : LeveldbLaws env.leveldb) where
  -- In a cluster that begins without a database at the path of a host's member, over databases that
  -- outlive their processes and do not fail, and after any requests, tasks, timers, deliveries, ends in
  -- the middle of a round and restarts: when each earlier process of the host has been delivered, that
  -- is its peer has been handed over and has applied, a beginning of the entries that the last one has
  -- been delivered, the map that the host holds is the one that serving these entries once, in order,
  -- makes of the empty map, and serving them does not abort.
  pub Reach-recovers :
      (c : Cluster env) (r : Reach env d c) (home : ℕ) (g : GroupMember)
      → IsHome env d home g
      → HasCaughtUp env d home g r
      → serve_at env g.peer_id (log_at env d g.peer_id r home) (some (empty_map env))
        ≡ returned (map_held env d home g c)
  Reach-recovers c r home g is_home caught =
      let held =
        Reach-map_held env d home g is_home.member durable reliable laws is_home.blank c r in
      let (m, ran, same) =
        >>=-eq-returned (serve_entries env (whole_log env d home g r) (empty_map env)) _ held in
      rw
        (serve_entries-lives env (past_logs env d g.peer_id r home) (log_at env d g.peer_id r home)
          m caught ran)
        same

  -- In a cluster that begins without a database at the paths of two hosts' members, over databases that
  -- outlive their processes and do not fail, and after any requests, tasks, timers, deliveries, ends in
  -- the middle of a round and restarts: when each earlier process of either host has been delivered,
  -- that is its peer has been handed over and has applied, a beginning of what the host's last one has
  -- been delivered, and the second host's last process what the first one's has and then some more
  -- entries, the second host holds the map that serving these makes of the map that the first one
  -- holds.
  pub Reach-converges :
      (c : Cluster env) (r : Reach env d c) (home other : ℕ) (g k : GroupMember) (rest : List Entry)
      → IsHome env d home g
      → IsHome env d other k
      → HasCaughtUp env d home g r
      → HasCaughtUp env d other k r
      → log_at env d k.peer_id r other ≡ log_at env d g.peer_id r home ++ rest
      → serve_at env k.peer_id rest (map_held env d home g c) ≡ returned (map_held env d other k c)
  Reach-converges c r home other g k rest is_home is_other caught caught' more =
      let first = Reach-recovers c r home g is_home caught in
      let second = Reach-recovers c r other k is_other caught' in
      sym (
        serve_at-append env g.peer_id (log_at env d g.peer_id r home) rest (some (empty_map env))
          (map_held env d home g c) first)
      ∙ ap (λ l. serve_at env k.peer_id l (some (empty_map env))) (sym more)
      ∙ second
