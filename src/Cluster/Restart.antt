-- ===== src/Cluster/Restart.antt =====
-- A process that ends and is started again.
use jkv.Base.{
  assign, ℕ, ◌≡◌, refl, ◌∙◌, some, none, Table, find, find-assign, find-erase-same, ==_refl,
  returned,
}
use jkv.Env.{Env}
use jkv.Clients.{Net}
use jkv.Storage.{IsDurable}
use jkv.Peer.State.{Peer, GroupMember}
use jkv.Server.{Server}
use jkv.Server.Ends.{CutShort, killed_peers, CutShort-Holds}
use jkv.Server.Replica.{map_at, map_of_peer}
use jkv.Echo.ServerMain.{ServerFlags, server_main}
use jkv.Echo.Start.{CanStart, server_main_iff}
use jkv.Cluster.{Deployment, Cluster, NamesMember, ended, set_disk, Step, starts, dies, Reach}
use jkv.Cluster.Disk.{IsAtHome, IsAtHome-IsKept, server_main-map_at, Reach-AtHome}
use jkv.Cluster.Durable.{killed_peers-map_on}

module _ (env : Env) (d : Deployment env) (home : ℕ) (g : GroupMember)
    (member : find home d.group ≡ some g) (durable : IsDurable env.leveldb) where
  open env use {raft, jrpc, leveldb}

  -- In a cluster over databases that outlive their processes, when the server on a member's host ends at
  -- any point of a round or between inputs, and a start with flags that name the group, this host's member
  -- and the `host_path` of this host finds what it needs, then the server ends and is started again in two steps, and the peer of the new
  -- server begins with the map that the peer of the old one ended with.
  pub dies-restarts :
      (c : Cluster env) (r : Reach env d c) (s : Server env) (m : Table (Peer env)) (n : Net env)
      (f : ServerFlags) (w : jrpc.Worker) (st : raft.Storage)
      → find home c.servers ≡ some s
      → CutShort env s m n
      → f.host_id ≡ home
      → NamesMember env d f
      → CanStart env f st (killed_peers env (c.disks home) m)
      → let c1 = ended env home (killed_peers env (c.disks home) m) n.sent c in
        Step env d c c1
        × ((c2 : Cluster env) × (t : Server env) × Step env d c1 c2
            × (find home c2.servers ≡ some t)
            × (map_at env g.peer_id t ≡ map_of_peer env g.peer_id (find g.peer_id m)))
  dies-restarts c r s m n f w st at cut here names can =
      let fs = killed_peers env (c.disks home) m in
      let c1 = ended env home fs n.sent c in
      let gone : find home c1.servers ≡ none = find-erase-same home home c.servers (==_refl home) in
      let disk : c1.disks f.host_id ≡ fs = rw (here, ==_refl home) refl in
      let (l, launches) = (server_main_iff env f w st fs).1 can in
      let ran : server_main env f w st (c1.disks f.host_id) ≡ returned l = rw disk launches in
      let at_home =
        CutShort-Holds env (IsAtHome env d home g) (IsAtHome-IsKept env d home g) s m n cut
          (Reach-AtHome env d home g member c r s at) in
      let (_, opened) = server_main-map_at env d home g member f w st fs l here names launches in
      (
        dies home s m n at cut,
        (
          record c1 {
            servers = assign f.host_id l.server c1.servers;
            disks = set_disk env f.host_id l.files c1.disks;
          },
          l.server,
          starts f w st l names (rw here gone) ran,
          rw (here, find-assign home home l.server c1.servers, ==_refl home) refl,
          opened ∙ killed_peers-map_on env d home g member durable (c.disks home) m at_home,
        ),
      )
