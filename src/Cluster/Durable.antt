-- ===== src/Cluster/Durable.antt =====
-- The map of a host over all its processes.
use mathlib.Core.List.{append_assoc, flatten, append-nil}
use jkv.Base.{
  ℕ, ◌≡◌, sym, ap, ◌∙◌, inl, inr, true, false, Option, none, some, List, [], ◌∷◌, ◌++◌, returned,
  arith, Table, find, find-assign, find-erase, find-erase-same, Bool-cases, ◌==◌, ==_refl,
}
use jkv.Proto.{Entry, RaftMsgReq}
use jkv.Echo.ServerMain.{ServerFlags, Launched, server_main}
use jkv.Env.{Env}
use jkv.Clients.{Net}
use jkv.Storage.{LeveldbLaws, IsDurable, delete_storage}
use jkv.Storage.View.{Map, IsReliable, map_on, map_on-delete_storage, map_on-killed, map_on-new}
use jkv.Peer.State.{Peer, GroupMember}
use jkv.Peer.Apply.Replay.{empty_map}
use jkv.Host.{delete_peers}
use jkv.Server.{Server}
use jkv.Server.Inputs.{Input, receive, raft_call, delivered_by}
use jkv.Server.Ends.{CutShort, killed_peers, applied_in, CutShort-Holds, CutShort-serve_at}
use jkv.Server.Replica.{
  map_at, map_of_peer, serve_at, serve_at_nil, serve_at-append, receive-serve_at,
}
use jkv.Cluster.{
  Deployment, Cluster, IsLocal, InFlight, NamesMember, starts, quits, dies, acts, delivers, Reach,
  none_yet, later,
}
use jkv.Cluster.Log.{log_at, past_logs}
use jkv.Cluster.Disk.{
  flatten-last, home_path, IsAtHome, IsAtHome-IsKept, map_held, whole_log, server_main-map_at,
  Reach-AtHome,
}

module _ (env : Env) (d : Deployment env) (home : ℕ) (g : GroupMember)
    (member : find home d.group ≡ some g) where
  open env use {leveldb}

  abbrev path : List ℕ
  path = home_path env d home g

  module _ (durable : IsDurable leveldb) where
    -- A peer's map is on the disk after its process has quit, and after it has ended without.
    delete_peers-map_on :
        (fs : leveldb.Files) (m : Table (Peer env))
        → IsAtHome env d home g m
        → some (map_on leveldb (delete_peers env fs m) path)
          ≡ map_of_peer env g.peer_id (find g.peer_id m)
    delete_peers-map_on fs m (p, only, at) =
        rw (only, ==_refl g.peer_id)
          (ap some (
            ap (map_on leveldb (delete_storage leveldb fs p.kv_db)) (sym at)
            ∙ map_on-delete_storage leveldb durable fs p.kv_db))

    pub killed_peers-map_on :
        (fs : leveldb.Files) (m : Table (Peer env))
        → IsAtHome env d home g m
        → some (map_on leveldb (killed_peers env fs m) path)
          ≡ map_of_peer env g.peer_id (find g.peer_id m)
    killed_peers-map_on fs m (p, only, at) =
        rw (only, ==_refl g.peer_id)
          (ap some (
            ap (map_on leveldb (leveldb.killed fs p.kv_db.db_path p.kv_db.db)) (sym at)
            ∙ map_on-killed leveldb durable fs p.kv_db))

  -- More entries on the last log.
  serve_at-more :
      (past : List (List Entry)) (log es : List Entry) (a b c : Option Map)
      → serve_at env g.peer_id (flatten past ++ log) a ≡ returned b
      → serve_at env g.peer_id es b ≡ returned c
      → serve_at env g.peer_id (flatten past ++ (log ++ es)) a ≡ returned c
  serve_at-more past log es a b c first next =
      ap (λ l. serve_at env g.peer_id l a) (sym (append_assoc (flatten past) log es))
      ∙ serve_at-append env g.peer_id (flatten past ++ log) es a b first
      ∙ next

  module _ (durable : IsDurable leveldb) (reliable : IsReliable leveldb)
      (laws : LeveldbLaws leveldb) (blank : leveldb.exists (d.disks home) path ≡ false) where
    abbrev Serves : {c : Cluster env} → Reach env d c → Type 0
    Serves {c} r =
        serve_at env g.peer_id (whole_log env d home g r) (some (empty_map env))
        ≡ returned (map_held env d home g c)

    -- The entries that an input delivers are served on the map of the server that takes it.
    received-Serves :
        (c : Cluster env) (past : List (List Entry)) (log es : List Entry) (s s' : Server env)
        → find home c.servers ≡ some s
        → serve_at env g.peer_id (flatten past ++ log) (some (empty_map env))
          ≡ returned (map_held env d home g c)
        → serve_at env g.peer_id es (map_at env g.peer_id s) ≡ returned (map_at env g.peer_id s')
        → serve_at env g.peer_id (flatten past ++ (log ++ es)) (some (empty_map env))
          ≡ returned (map_at env g.peer_id s')
    received-Serves c past log es s s' at before now =
        serve_at-more past log es (some (empty_map env)) (map_at env g.peer_id s)
          (map_at env g.peer_id s') (rw at at before) now

    starts-Serves :
        (c : Cluster env) (r : Reach env d c) (f : ServerFlags) (w : env.jrpc.Worker)
        (st : env.raft.Storage) (l : Launched env) (names : NamesMember env d f)
        (new : find f.host_id c.servers ≡ none)
        (ran : server_main env f w st (c.disks f.host_id) ≡ returned l)
        → Serves r
        → Serves (later r (starts f w st l names new ran))
    unfolding flatten
    starts-Serves c r f w st l names new ran before = elim (Bool-cases (f.host_id == home)) [
      | inr other ↦ rw (find-assign f.host_id home l.server c.servers, other) before
      | inl one ↦
          let here : f.host_id ≡ home = ground arith in
          let (_, opened) =
            server_main-map_at env d home g member f w st (c.disks f.host_id) l here names ran in
          let none_runs : find home c.servers ≡ none = rw here at new in
          let log = log_at env d g.peer_id r home in
          let past = past_logs env d g.peer_id r home in
          rw (find-assign f.host_id home l.server c.servers, one)
            (ap (λ x. serve_at env g.peer_id x (some (empty_map env)))
                (append-nil (flatten (past ++ log ∷ [])) ∙ flatten-last past log)
              ∙ rw none_runs at before
              ∙ ap returned (ap (λ h. some (map_on leveldb (c.disks h) path)) (sym here))
              ∙ ap returned (sym opened))
    ]

    quits-Serves :
        (c : Cluster env) (r : Reach env d c) (k : ℕ) (s : Server env)
        (at : find k c.servers ≡ some s)
        → Serves r
        → Serves (later r (quits k s at))
    quits-Serves c r k s at before = elim (Bool-cases (k == home)) [
      | inr other ↦
          let other' : (home == k) ≡ false = ground arith in
          rw (find-erase k home c.servers other', other) before
      | inl one ↦
          let here : k ≡ home = ground arith in
          let one' : (home == k) ≡ true = ground arith in
          let runs : find home c.servers ≡ some s = rw here at at in
          let at_home = Reach-AtHome env d home g member c r s runs in
          rw (find-erase-same k home c.servers one', one)
            (rw runs at before
              ∙ ap returned
                  (sym (delete_peers-map_on durable (c.disks k) s.host.local_peers at_home)))
    ]

    dies-Serves :
        (c : Cluster env) (r : Reach env d c) (k : ℕ) (s : Server env) (m : Table (Peer env))
        (n : Net env) (at : find k c.servers ≡ some s) (cut : CutShort env s m n)
        → Serves r
        → Serves (later r (dies k s m n at cut))
    dies-Serves c r k s m n at cut before = elim (Bool-cases (k == home)) [
      | inr other ↦
          let other' : (home == k) ≡ false = ground arith in
          rw (find-erase k home c.servers other', other) before
      | inl one ↦
          let here : k ≡ home = ground arith in
          let one' : (home == k) ≡ true = ground arith in
          let runs : find home c.servers ≡ some s = rw here at at in
          let at_home =
            CutShort-Holds env (IsAtHome env d home g) (IsAtHome-IsKept env d home g) s m n cut
              (Reach-AtHome env d home g member c r s runs) in
          rw (find-erase-same k home c.servers one', one)
            (serve_at-more (past_logs env d g.peer_id r home) (log_at env d g.peer_id r home)
                (applied_in env g.peer_id cut) (some (empty_map env)) (map_at env g.peer_id s) _
                (rw runs at before) (CutShort-serve_at env reliable laws g.peer_id s m n cut)
              ∙ ap returned (sym (killed_peers-map_on durable (c.disks k) m at_home)))
    ]

    acts-Serves :
        (c : Cluster env) (r : Reach env d c) (k : ℕ) (e : Input) (s s' : Server env)
        (local : IsLocal e) (at : find k c.servers ≡ some s) (ran : receive env e s ≡ returned s')
        → Serves r
        → Serves (later r (acts k e s s' local at ran))
    acts-Serves c r k e s s' local at ran before = elim (Bool-cases (k == home)) [
      | inr other ↦ rw (find-assign k home s' c.servers, other) before
      | inl one ↦
          let here : k ≡ home = ground arith in
          let runs : find home c.servers ≡ some s = rw here at at in
          rw (find-assign k home s' c.servers, one)
            (received-Serves c (past_logs env d g.peer_id r home) (log_at env d g.peer_id r home)
              (delivered_by env g.peer_id e s) s s' runs before
              (receive-serve_at env g.peer_id reliable laws e s s' ran))
    ]

    delivers-Serves :
        (c : Cluster env) (r : Reach env d c) (client : env.jrpc.Client) (req : RaftMsgReq)
        (done : ℕ) (t t' : Server env) (flies : InFlight env c client req)
        (to : find (d.reaches client) c.servers ≡ some t)
        (ran : receive env (raft_call req done) t ≡ returned t')
        → Serves r
        → Serves (later r (delivers client req done t t' flies to ran))
    delivers-Serves c r client req done t t' flies to ran before =
        let now = receive-serve_at env g.peer_id reliable laws (raft_call req done) t t' ran in
        elim (Bool-cases (d.reaches client == home)) [
          | inr other ↦ rw (find-assign (d.reaches client) home t' c.servers, other) before
          | inl one ↦
              let here : d.reaches client ≡ home = ground arith in
              let runs : find home c.servers ≡ some t = rw here at to in
              rw (find-assign (d.reaches client) home t' c.servers, one)
                (rw runs at before
                  ∙ sym (serve_at_nil env g.peer_id (map_at env g.peer_id t))
                  ∙ now)
        ]

    -- In a cluster that begins without a database at the path of a host's member, over databases that
    -- outlive their processes and do not fail, and however requests, tasks, timers, deliveries, ends in
    -- the middle of a round and restarts have followed each other: the map that the host holds, its
    -- peer's while a server runs there and the one on its disk when none does, is the one that serving
    -- all entries that the peers there have been handed over and have applied, over all its processes,
    -- in order, makes of the empty map, and serving them does not abort.
    pub Reach-map_held :
        (c : Cluster env) (r : Reach env d c)
        → serve_at env g.peer_id (whole_log env d home g r) (some (empty_map env))
          ≡ returned (map_held env d home g c)
    unfolding flatten
    Reach-map_held _ none_yet =
        ap (λ (m : Map). returned (some m))
          (sym (map_on-new leveldb durable (d.disks home) path blank))
    Reach-map_held _ (later {c} r (starts f w st l names new ran)) =
        starts-Serves c r f w st l names new ran (Reach-map_held c r)
    Reach-map_held _ (later {c} r (quits k s at)) = quits-Serves c r k s at (Reach-map_held c r)
    Reach-map_held _ (later {c} r (dies k s m n at cut)) =
        dies-Serves c r k s m n at cut (Reach-map_held c r)
    Reach-map_held _ (later {c} r (acts k e s s' local at ran)) =
        acts-Serves c r k e s s' local at ran (Reach-map_held c r)
    Reach-map_held _ (later {c} r (delivers client req done t t' flies to ran)) =
        delivers-Serves c r client req done t t' flies to ran (Reach-map_held c r)
