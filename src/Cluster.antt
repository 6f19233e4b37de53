-- ===== src/Cluster.antt =====
-- The server processes of one group, each on a host with its own disk, and the network between them. A
-- message that a server has handed to jrpc may reach the process at the other end of its connection at
-- any time, any number of times, or never, also after the sender has ended. A process may be asked to
-- quit, or end at any point of what it does, and be started again on what its disk holds.
pub mod Wiring
pub mod Members
pub mod Delivery
pub mod Log
pub mod Runs
pub mod Disk
pub mod Durable
pub mod Recovery
pub mod Promise
pub mod Restart
pub mod Progress
use jkv.Base.{
  Bytes, ℕ, ◌≡◌, List, [], ◌∷◌, ◌++◌, Table, find, assign, erase, none, some, returned, ◌==◌,
  if◌then◌else◌,
}
use jkv.Proto.{RaftMsgReq, KvReq}
use jkv.Env.{Env}
use jkv.Clients.{Net}
use jkv.Peer.State.{Peer, GroupMember}
use jkv.Peer.Members.{init_group_members}
use jkv.Host.{delete_host}
use jkv.Server.{Server}
use jkv.Server.Inputs.{Input, kv_call, raft_call, task_runs, timer_fires, call_answered, receive}
use jkv.Server.Ends.{CutShort, killed_peers}
use jkv.Echo.ServerMain.{ServerFlags, Launched, server_main}

-- Where the servers run: the group's members, the host that a connection leads to, the `host_path` that
-- each host's server is started with, and what is on the hosts' disks at first.
pub record Deployment (env : Env) : Type 0 where
  pub group : Table GroupMember
  pub reaches : env.jrpc.Client → ℕ
  pub host_path : ℕ → Bytes
  pub disks : ℕ → env.leveldb.Files

-- The servers that run, by their hosts; the hosts' files; and the messages of the processes that have
-- ended.
pub record Cluster (env : Env) : Type 0 where
  pub servers : Table (Server env)
  pub disks : ℕ → env.leveldb.Files
  pub wire : List (env.jrpc.Client × RaftMsgReq)

-- What happens on one host alone.
abbrev pub IsLocal : Input → Type 0
IsLocal (kv_call req resp done) = Unit {0}
IsLocal (raft_call req done) = ⊥
IsLocal (task_runs n) = Unit {0}
IsLocal (timer_fires i) = Unit {0}
IsLocal (call_answered n) = Unit {0}

module _ (env : Env) where
  open env use {raft, jrpc, leveldb}

  -- The disk of a host is written.
  abbrev pub set_disk : ℕ → leveldb.Files → (ℕ → leveldb.Files) → ℕ → leveldb.Files
  set_disk h fs disks k = if h == k then fs else disks k

  -- A message on its way over a connection: of a server that runs, or of one that has ended.
  pub data InFlight (c : Cluster env) (client : jrpc.Client) (req : RaftMsgReq) : Type 0 where
    sent_by :
        (h : ℕ) (s : Server env) (before after : List (jrpc.Client × RaftMsgReq))
        → find h c.servers ≡ some s
        → s.host.net.sent ≡ before ++ (client, req) ∷ after
        → InFlight c client req
    left_over :
        (before after : List (jrpc.Client × RaftMsgReq))
        → c.wire ≡ before ++ (client, req) ∷ after
        → InFlight c client req

  -- A process has ended, and left these files and these messages.
  abbrev pub ended : ℕ → leveldb.Files → List (jrpc.Client × RaftMsgReq) → Cluster env → Cluster env
  ended h fs sent c = record {
    servers = erase h c.servers;
    disks = set_disk h fs c.disks;
    wire = c.wire ++ sent;
  }

module _ (env : Env) (d : Deployment env) where
  open env use {raft, jrpc, leveldb}

  -- The flags name the group, a member of it, and the path of its host.
  abbrev pub NamesMember : ServerFlags → Type 0
  NamesMember f =
      (init_group_members env.split f.members [] ≡ returned d.group)
      × ((g : GroupMember) × (find f.host_id d.group ≡ some g) × (g.peer_id ≡ f.peer_id))
      × (f.host_path ≡ d.host_path f.host_id)

  pub data Step (c : Cluster env) : Cluster env → Type 0 where
    -- A server process starts on its host's disk, where none runs.
    starts :
        (f : ServerFlags) (w : jrpc.Worker) (st : raft.Storage) (l : Launched env)
        → NamesMember f
        → find f.host_id c.servers ≡ none
        → server_main env f w st (c.disks f.host_id) ≡ returned l
        → Step c (record c {
          servers = assign f.host_id l.server c.servers;
          disks = set_disk env f.host_id l.files c.disks;
        })
    -- `AppRunUntilAskedToQuit` and then `main` return, and the host is destroyed.
    quits :
        (h : ℕ) (s : Server env)
        → find h c.servers ≡ some s
        → Step c (ended env h (delete_host env (c.disks h) s.host) s.host.net.sent c)
    -- The process ends without that.
    dies :
        (h : ℕ) (s : Server env) (m : Table (Peer env)) (n : Net env)
        → find h c.servers ≡ some s
        → CutShort env s m n
        → Step c (ended env h (killed_peers env (c.disks h) m) n.sent c)
    acts :
        (h : ℕ) (e : Input) (s s' : Server env)
        → IsLocal e
        → find h c.servers ≡ some s
        → receive env e s ≡ returned s'
        → Step c (record c { servers = assign h s' c.servers })
    delivers :
        (client : jrpc.Client) (req : RaftMsgReq) (done : ℕ) (t t' : Server env)
        → InFlight env c client req
        → find (d.reaches client) c.servers ≡ some t
        → receive env (raft_call req done) t ≡ returned t'
        → Step c (record c { servers = assign (d.reaches client) t' c.servers })

  pub data Reach : Cluster env → Type 0 where
    none_yet : Reach (record { servers = []; disks = d.disks; wire = [] })
    later : {c c' : Cluster env} → Reach c → Step c c' → Reach c'
