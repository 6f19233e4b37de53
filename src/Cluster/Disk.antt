-- ===== src/Cluster/Disk.antt =====
-- What a host keeps over all its processes: the database at the path of its member's peer.
use mathlib.Core.List.{flatten, append_assoc, append-nil}
use mathlib.Core.Path.{subst}
use jkv.Base.{
  ℕ, ◌≡◌, refl, sym, ap, ◌∙◌, inl, inr, Option, none, some, List, [], ◌∷◌, ◌++◌, returned, arith,
  Bytes, Table, find, assign, assign-Every, Every, find-erase-some, Bool-cases, ◌==◌, ==_refl,
}
use jkv.Proto.{Entry}
use jkv.Env.{Env}
use jkv.Storage.View.{Map, map_on, view-disk_storage}
use jkv.Peer.State.{Peer, GroupMember}
use jkv.Server.{Server}
use jkv.Server.Identity.{SamePeer, IsKept, receive-Holds}
use jkv.Server.Inputs.{Input, raft_call, receive}
use jkv.Server.Replica.{map_at}
use jkv.Echo.ServerMain.{ServerFlags, Launched, server_main}
use jkv.Echo.Launch.{peer_path, server_main_lem}
use jkv.Cluster.{
  Deployment, Cluster, NamesMember, Step, starts, quits, dies, acts, delivers, Reach, none_yet,
  later,
}
use jkv.Cluster.Log.{log_at, past_logs}

pub flatten-last :
    {A : Type 0} (ls : List (List A)) (l : List A) → flatten (ls ++ l ∷ []) ≡ flatten ls ++ l
unfolding flatten
flatten-last [] l = append-nil l
flatten-last (k ∷ ls) l = ap (λ x. k ++ x) (flatten-last ls l) ∙ sym (append_assoc k (flatten ls) l)

module _ (env : Env) (d : Deployment env) (home : ℕ) (g : GroupMember) where
  open env use {raft, jrpc, leveldb}

  abbrev pub home_path : Bytes
  home_path = peer_path (d.host_path home) home g.peer_id

  -- The only local peer is the member's, with its database at the path.
  abbrev pub IsAtHome : Table (Peer env) → Type 0
  IsAtHome m = (p : Peer env) × (m ≡ (g.peer_id, p) ∷ []) × (p.kv_db.db_path ≡ home_path)

  IsAtHome-one :
      (i : ℕ) (p q r : Peer env)
      → find i ((g.peer_id, r) ∷ []) ≡ some p
      → SamePeer env p q
      → r.kv_db.db_path ≡ home_path
      → IsAtHome (assign i q ((g.peer_id, r) ∷ []))
  IsAtHome-one i p q r at same path = elim (Bool-cases (g.peer_id == i)) [
    | inl one ↦
        let id : g.peer_id ≡ i = ground arith in
        let is : r ≡ p = ground (arith, rw one at at) in
        rw one (
          q,
          ap (λ k. (k, q) ∷ []) (sym id),
          same.path_same ∙ ap (λ (x : Peer env). x.kv_db.db_path) (sym is) ∙ path,
        )
    | inr other ↦ absurd (cc (rw other at at))
  ]

  pub IsAtHome-IsKept : IsKept env IsAtHome
  IsAtHome-IsKept = record {
    kept = λ i p q m at same held.
        subst (λ t. IsAtHome (assign i q t)) (sym held.1)
          (IsAtHome-one i p q held.0 (subst (λ t. find i t ≡ some p) held.1 at) same held.2);
  }

  -- The map that the host holds: of its peer, or on its disk.
  abbrev pub held_in : Option (Server env) → leveldb.Files → Option Map
  held_in none fs = some (map_on leveldb fs home_path)
  held_in (some s) fs = map_at env g.peer_id s

  abbrev pub map_held : Cluster env → Option Map
  map_held c = held_in (find home c.servers) (c.disks home)

  -- All entries that have been delivered on the host, over all its processes.
  abbrev pub whole_log : {c : Cluster env} → Reach env d c → List Entry
  whole_log r = flatten (past_logs env d g.peer_id r home) ++ log_at env d g.peer_id r home

  module _ (member : find home d.group ≡ some g) where
    -- The database that a start opens is the one at the path.
    pub server_main-map_at :
        (f : ServerFlags) (w : jrpc.Worker) (st : raft.Storage) (fs : leveldb.Files)
        (l : Launched env)
        → f.host_id ≡ home
        → NamesMember env d f
        → server_main env f w st fs ≡ returned l
        → IsAtHome l.server.host.local_peers
          × (map_at env g.peer_id l.server ≡ some (map_on leveldb fs home_path))
    server_main-map_at f w st fs l here (read, (k, at, id), root) h =
        let started = server_main_lem env f w st fs l h in
        let (p, only, _, _, _, opened) = started.3 in
        let same : k ≡ g = ground (arith, rw here at at, member) in
        let peer_id : f.peer_id ≡ g.peer_id = sym id ∙ ap (λ (x : GroupMember). x.peer_id) same in
        let path : peer_path f.host_path f.host_id f.peer_id ≡ home_path =
          rw (root, here, peer_id) refl in
        let (seen, there) = view-disk_storage leveldb fs l.files _ p.kv_db opened in
        (
          (p, only ∙ ap (λ i. (i, p) ∷ []) peer_id, there ∙ path),
          rw (only, peer_id, ==_refl g.peer_id) (ap some (seen ∙ ap (map_on leveldb fs) path)),
        )

    AtHome : ℕ → Server env → Type 0
    AtHome h s = h ≡ home → IsAtHome s.host.local_peers

    received-AtHome :
        (c : Cluster env) (h : ℕ) (e : Input) (s s' : Server env)
        → find h c.servers ≡ some s
        → receive env e s ≡ returned s'
        → Every AtHome c.servers
        → Every AtHome (assign h s' c.servers)
    unfolding AtHome
    received-AtHome c h e s s' at ran all =
        assign-Every AtHome h s' c.servers
          (λ here. receive-Holds env IsAtHome IsAtHome-IsKept e s s' ran (all h s at here)) all

    Step-AtHome :
        (c c' : Cluster env) → Step env d c c' → Every AtHome c.servers → Every AtHome c'.servers
    unfolding AtHome
    Step-AtHome c c' (starts f w st l names new ran) all =
        assign-Every AtHome f.host_id l.server c.servers
          (λ here. (server_main-map_at f w st (c.disks f.host_id) l here names ran).0) all
    Step-AtHome c c' (quits h s at) all =
        λ k t there. all k t (find-erase-some h k t c.servers there)
    Step-AtHome c c' (dies h s m n at cut) all =
        λ k t there. all k t (find-erase-some h k t c.servers there)
    Step-AtHome c c' (acts h e s s' local at ran) all = received-AtHome c h e s s' at ran all
    Step-AtHome c c' (delivers client req done t t' flies to ran) all =
        received-AtHome c (d.reaches client) (raft_call req done) t t' to ran all

    pub Reach-AtHome :
        (c : Cluster env)
        → Reach env d c
        → (s : Server env) → find home c.servers ≡ some s
        → IsAtHome s.host.local_peers
    unfolding AtHome
    Reach-AtHome c r s at = every c r home s at refl
      where
        every : (c : Cluster env) → Reach env d c → Every AtHome c.servers
        every _ none_yet = λ h s at. absurd (cc)
        every _ (later {c} {c'} r step) = Step-AtHome c c' step (every c r)
