-- ===== src/Cluster/Delivery.antt =====
-- No message between the servers of a group aborts one of them.
use mathlib.Core.Path.{subst}
use jkv.Base.{
  find-erase-some, length, ◌≤◌, length-AreKeysOf, ℕ, ◌≡◌, refl, ap, some, List, [], ◌∷◌, ◌++◌, All,
  All-middle, All-append, find-AllIn, assign, returned, arith, Table, find, Every, assign-Every,
  ==_refl,
}
use jkv.Proto.{RaftMsgReq}
use jkv.Env.{Env}
use jkv.Clients.{Net}
use jkv.Peer.State.{Peer}
use jkv.Peer.Ready.Frame.{appended}
use jkv.Peer.History.Steps.{ticked}
use jkv.Server.Ends.{CutShort, between_inputs, in_a_round}
use jkv.Peer.Members.Entries.{IsMemberTable}
use jkv.Server.{Task, handle_raft_msg_cb, Server, take_at, handle_raft_msg, run_at}
use jkv.Server.Moves.{AllTaken, take_at-AllTaken}
use jkv.Server.Inputs.{Input, kv_call, raft_call, task_runs, timer_fires, call_answered, receive}
use jkv.Echo.ServerMain.{ServerFlags, Launched, server_main}
use jkv.Echo.Launch.{server_main_lem}
use jkv.Cluster.{
  Deployment, Cluster, IsLocal, InFlight, sent_by, left_over, ended, NamesMember, Step, starts,
  quits, dies, acts, delivers, Reach, none_yet, later,
}
use jkv.Cluster.Wiring.{IsNetwork, IsFor, IsSent, send_msgs-IsWired}
use jkv.Cluster.Members.{
  InGroup, IsMemberServer, OwnInput, OwnTask, receive-IsMemberServer, handle_raft_msg_takes,
  run_raft_msg_returns, with_tasks,
}

module _ (env : Env) (d : Deployment env) where
  open env use {raft, jrpc, leveldb}
  open d use {group, reaches}

  -- Every server stands for its host, and every message left over is one that a member has sent.
  pub record AllMembers (c : Cluster env) : Type 0 where
    pub servers : Every (IsMemberServer env group reaches) c.servers
    pub wire : All (IsSent env group reaches) c.wire

  server_main-IsMemberServer :
      (f : ServerFlags) (w : jrpc.Worker) (st : raft.Storage) (fs : leveldb.Files)
      (l : Launched env)
      → NamesMember env d f
      → server_main env f w st fs ≡ returned l
      → IsMemberServer env group reaches f.host_id l.server
  server_main-IsMemberServer f w st fs l (read, (g, at, id), path) h =
      let started = server_main_lem env f w st fs l h in
      let (p, only, _, _, own, _) = started.3 in
      let same : p.peers ≡ group = ground (arith, own, read) in
      record {
        hosted = ap (λ x. x.host_id) started.1;
        member = g;
        in_group = at;
        peer = p;
        local = rw (only, id, ==_refl f.peer_id) refl;
        all_in_group = rw only (same, tt);
        wired = record {
          links = rw started.7 (record { linked = λ j cl e. absurd (cc); keyed = tt });
          sent = rw started.6 tt;
        };
        own_tasks = rw started.5 tt;
      }

  OwnInput-local : (h : ℕ) (e : Input) → IsLocal e → OwnInput env group reaches h e
  OwnInput-local h (kv_call req resp done) local = tt
  OwnInput-local h (raft_call req done) local = absurd local
  OwnInput-local h (task_runs n) local = tt
  OwnInput-local h (timer_fires i) local = tt
  OwnInput-local h (call_answered n) local = tt

  one_of :
      (before after sent : List (jrpc.Client × RaftMsgReq)) (client : jrpc.Client)
      (req : RaftMsgReq)
      → sent ≡ before ++ (client, req) ∷ after
      → All (IsSent env group reaches) sent
      → IsFor env group reaches (reaches client) req
  one_of before after sent client req e all =
      All-middle (IsSent env group reaches) before (client, req) after
        (subst (All (IsSent env group reaches)) e all)

  InFlight-IsFor :
      (c : Cluster env) (client : jrpc.Client) (req : RaftMsgReq)
      → AllMembers c
      → InFlight env c client req
      → IsFor env group reaches (reaches client) req
  InFlight-IsFor c client req all (sent_by h s before after at sent) =
      one_of before after s.host.net.sent client req sent (all.servers h s at).wired.sent
  InFlight-IsFor c client req all (left_over before after sent) =
      one_of before after c.wire client req sent all.wire

  module _ (table : IsMemberTable group) (network : IsNetwork env group reaches) where
    CutShort-IsSent :
        (h : ℕ) (s : Server env) (m : Table (Peer env)) (n : Net env)
        → CutShort env s m n
        → IsMemberServer env group reaches h s
        → All (IsSent env group reaches) n.sent
    CutShort-IsSent h s m n between_inputs o = o.wired.sent
    CutShort-IsSent h s m n (in_a_round i p q c net ms ms' es es' at ready out sent committed ran)
          o =
        let own = find-AllIn (InGroup env group reaches) i p s.host.local_peers o.all_in_group at in
        (send_msgs-IsWired env group reaches table network (appended env (ticked env p)) ms
          s.host.net net own sent o.wired).sent

    ended-AllMembers :
        (c : Cluster env) (h : ℕ) (fs : leveldb.Files) (sent : List (jrpc.Client × RaftMsgReq))
        → All (IsSent env group reaches) sent
        → AllMembers c
        → AllMembers (ended env h fs sent c)
    ended-AllMembers c h fs sent own all = record {
      servers = λ k s at. all.servers k s (find-erase-some h k s c.servers at);
      wire = All-append (IsSent env group reaches) c.wire sent all.wire own;
    }

    received-AllMembers :
        (c : Cluster env) (h : ℕ) (e : Input) (s s' : Server env)
        → find h c.servers ≡ some s
        → OwnInput env group reaches h e
        → receive env e s ≡ returned s'
        → AllMembers c
        → AllMembers (record c { servers = assign h s' c.servers })
    received-AllMembers c h e s s' at own ran all = record {
      servers =
          assign-Every (IsMemberServer env group reaches) h s' c.servers
            (receive-IsMemberServer env group reaches table network e h s s' own ran
              (all.servers h s at))
            all.servers;
      wire = all.wire;
    }

    Step-AllMembers : (c c' : Cluster env) → Step env d c c' → AllMembers c → AllMembers c'
    Step-AllMembers c c' (starts f w st l names new h) all = record {
      servers =
          assign-Every (IsMemberServer env group reaches) f.host_id l.server c.servers
            (server_main-IsMemberServer f w st (c.disks f.host_id) l names h) all.servers;
      wire = all.wire;
    }
    Step-AllMembers c c' (quits h s at) all =
        ended-AllMembers c h _ s.host.net.sent (all.servers h s at).wired.sent all
    Step-AllMembers c c' (dies h s m n at cut) all =
        ended-AllMembers c h _ n.sent (CutShort-IsSent h s m n cut (all.servers h s at)) all
    Step-AllMembers c c' (acts h e s s' local at ran) all =
        received-AllMembers c h e s s' at (OwnInput-local h e local) ran all
    Step-AllMembers c c' (delivers client req done t t' flies to ran) all =
        received-AllMembers c (reaches client) (raft_call req done) t t' to
          (InFlight-IsFor c client req all flies) ran all

    Reach-AllMembers : (c : Cluster env) → Reach env d c → AllMembers c
    Reach-AllMembers _ none_yet = record { servers = λ h s at. absurd (cc); wire = tt }
    Reach-AllMembers _ (later {c} {c'} r step) = Step-AllMembers c c' step (Reach-AllMembers c r)

    -- In a group of servers that were started with flags that name the group and one of its members,
    -- where a connection to a member's address ends at the member's host, and however requests, tasks,
    -- timers, deliveries, ends in the middle of a round and restarts have followed each other: whatever
    -- message is on its way, of a server that runs or of one that has ended, the server at the other end of
    -- its connection takes it into its loop and does not abort.
    pub handle_raft_msg-Reach :
        (c : Cluster env) (t : Server env) (client : jrpc.Client) (req : RaftMsgReq) (done : ℕ)
        → Reach env d c
        → InFlight env c client req
        → find (reaches client) c.servers ≡ some t
        → handle_raft_msg env req done t
          ≡ returned (record t { tasks = t.tasks ++ handle_raft_msg_cb req done ∷ [] })
    handle_raft_msg-Reach c t client req done r flies to =
        let all = Reach-AllMembers c r in
        handle_raft_msg_takes env group reaches (reaches client) req done t
          (InFlight-IsFor c client req all flies) (all.servers (reaches client) t to)

    -- In such a group a task that waits on a server for a message runs to its end, whenever the loop takes
    -- it.
    pub run_at-Reach :
        (c : Cluster env) (h n : ℕ) (s : Server env) (req : RaftMsgReq) (done : ℕ) (ts : List Task)
        → Reach env d c
        → find h c.servers ≡ some s
        → take_at n s.tasks ≡ some (handle_raft_msg_cb req done, ts)
        → (s' : Server env) × (run_at env n s ≡ returned s')
    unfolding run_at
    run_at-Reach c h n s req done ts r at taken =
        let o = (Reach-AllMembers c r).servers h s at in
        let own =
          subst (AllTaken (OwnTask env group reaches h)) taken
            (take_at-AllTaken (OwnTask env group reaches h) n s.tasks o.own_tasks) in
        let (s', ran) =
          run_raft_msg_returns env group reaches h req done (record s { tasks = ts }) own.0
            (with_tasks env group reaches h s ts own.1 o) in
        (s', rw taken ran)

    -- In such a group a server has at most as many connections as the group has members.
    pub rpc_cli_mgr-Reach :
        (c : Cluster env) (h : ℕ) (s : Server env)
        → Reach env d c
        → find h c.servers ≡ some s
        → length s.host.net.rpc_cli_mgr ≤ length group
    rpc_cli_mgr-Reach c h s r at =
        length-AreKeysOf group s.host.net.rpc_cli_mgr
          ((Reach-AllMembers c r).servers h s at).wired.links.keyed
