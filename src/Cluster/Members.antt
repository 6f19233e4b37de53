-- ===== src/Cluster/Members.antt =====
-- The servers of a group: each one stands for its host, runs the peer of the group's member there, and
-- is handed messages for this member only.
use mathlib.Core.Path.{subst}
use jkv.Base.{
  ℕ, ◌≡◌, ◌∙◌, refl, sym, ap, inl, inr, Option, none, some, List, [], ◌∷◌, ◌++◌, All, All-append,
  Outcome, returned, fatal, arith, Table, find, assign, find-assign, Bool-cases, ◌==◌, ==_refl,
  AllIn, find-AllIn, assign-AllIn,
}
use jkv.Proto.{RaftMsgReq}
use jkv.Env.{Env}
use jkv.Peer.State.{Peer, GroupMember}
use jkv.Peer.Members.Entries.{IsMemberTable}
use jkv.Peer.Ready.{step}
use jkv.Peer.History.{Event, ticks, steps, proposes}
use jkv.Server.{
  Task, kv_op_cb, handle_raft_msg_cb, Server, take_at, handle_raft_msg, run_raft_msg, run_taken,
  run_at, put_peer,
}
use jkv.Server.Inputs.{Input, kv_call, raft_call, task_runs, timer_fires, call_answered, receive}
use jkv.Server.Moves.{
  answer_call_inv, handle_raft_msg_inv, AllTaken, take_at-AllTaken, member_of, Moves, run_kv_op_inv,
  run_raft_msg_inv, fire_inv,
}
use jkv.Peer.Send.Objects.{handle_send_msg2_peer_inv}
use jkv.Cluster.Wiring.{IsNetwork, IsFor, IsWired, happen-IsWired}

module _ (env : Env) (group : Table GroupMember) (reaches : env.jrpc.Client → ℕ) where
  abbrev pub OwnTask : ℕ → Task → Type 0
  OwnTask h (kv_op_cb req resp done) = Unit {0}
  OwnTask h (handle_raft_msg_cb req done) = IsFor env group reaches h req

  abbrev pub OwnInput : ℕ → Input → Type 0
  OwnInput h (kv_call req resp done) = Unit {0}
  OwnInput h (raft_call req done) = IsFor env group reaches h req
  OwnInput h (task_runs n) = Unit {0}
  OwnInput h (call_answered n) = Unit {0}
  OwnInput h (timer_fires i) = Unit {0}

  abbrev pub InGroup : Peer env → Type 0
  InGroup p = p.peers ≡ group

  pub record IsMemberServer (h : ℕ) (s : Server env) : Type 0 where
    pub hosted : s.host.option.host_id ≡ h
    pub member : GroupMember
    pub in_group : find h group ≡ some member
    pub peer : Peer env
    pub local : find member.peer_id s.host.local_peers ≡ some peer
    pub all_in_group : AllIn InGroup s.host.local_peers
    pub wired : IsWired env group reaches s.host.net
    pub own_tasks : All (OwnTask h) s.tasks

  abbrev OfOutcome : ℕ → Outcome (Server env) → Type 0
  OfOutcome h (returned s) = IsMemberServer h s
  OfOutcome h (fatal e) = Unit {0}

  pub with_tasks :
      (h : ℕ) (s : Server env) (ts : List Task)
      → All (OwnTask h) ts
      → IsMemberServer h s
      → IsMemberServer h (record s { tasks = ts })
  with_tasks h s ts own o = record {
    hosted = o.hosted;
    member = o.member;
    in_group = o.in_group;
    peer = o.peer;
    local = o.local;
    all_in_group = o.all_in_group;
    wired = o.wired;
    own_tasks = own;
  }

  -- A peer that was there is there after a peer has been put in its table.
  find-assign-some :
      (j i : ℕ) (q p : Peer env) (m : Table (Peer env))
      → find j m ≡ some p
      → (r : Peer env) × (find j (assign i q m) ≡ some r)
  find-assign-some j i q p m at = elim (Bool-cases (i == j)) [
    | inl e ↦ (q, rw (find-assign i j q m, e) refl)
    | inr e ↦ (p, rw (find-assign i j q m, e) at)
  ]

  module _ (table : IsMemberTable group) (network : IsNetwork env group reaches) where
    Moves-IsMemberServer :
        (e : Event) (h i : ℕ) (s s' : Server env)
        → Moves env e i s s'
        → IsMemberServer h s
        → IsMemberServer h s'
    Moves-IsMemberServer e h i s s' v o =
        let own = find-AllIn InGroup i v.peer s.host.local_peers o.all_in_group v.at in
        let (own', wired) =
          happen-IsWired env group reaches table network e (member_of env v.peer s) v.after v.ran
            own o.wired in
        let (p, at) =
          find-assign-some o.member.peer_id i v.after.peer o.peer s.host.local_peers o.local in
        record {
          hosted = ap (λ x. x.host_id) v.option_same ∙ o.hosted;
          member = o.member;
          in_group = o.in_group;
          peer = p;
          local = ap (find o.member.peer_id) v.peers_set ∙ at;
          all_in_group =
              rw v.peers_set
                (assign-AllIn InGroup i v.after.peer s.host.local_peers own' o.all_in_group);
          wired = subst (IsWired env group reaches) (sym v.net_set) wired;
          own_tasks = subst (All (OwnTask h)) (sym v.tasks_same) o.own_tasks;
        }

    run_taken-IsMemberServer :
        (h : ℕ) (x : Option (Task × List Task)) (s s' : Server env)
        → AllTaken (OwnTask h) x
        → run_taken env x s ≡ returned s'
        → IsMemberServer h s
        → IsMemberServer h s'
    run_taken-IsMemberServer h none s s' own e o = subst (OfOutcome h) e o
    run_taken-IsMemberServer h (some (kv_op_cb req resp done, ts)) s s' own e o =
        let s1 : Server env = record s { tasks = ts } in
        let o1 = with_tasks h s ts own.1 o in
        elim (run_kv_op_inv env req resp done s1 s' e) [
          | inl v ↦ Moves-IsMemberServer (proposes req resp done) h 1 s1 s' v o1
          | inr same ↦ rw (← same) (record {
            hosted = o.hosted;
            member = o.member;
            in_group = o.in_group;
            peer = o.peer;
            local = o.local;
            all_in_group = o.all_in_group;
            wired = o.wired;
            own_tasks = own.1;
          })
        ]
    run_taken-IsMemberServer h (some (handle_raft_msg_cb req done, ts)) s s' own e o =
        let s1 : Server env = record s { tasks = ts } in
        Moves-IsMemberServer (steps req.msg) h req.to_peer.peer_id s1 s'
          (run_raft_msg_inv env req done s1 s' e) (with_tasks h s ts own.1 o)

    -- Every input that is the server's own keeps it a server of the group.
    pub receive-IsMemberServer :
        (e : Input) (h : ℕ) (s s' : Server env)
        → OwnInput h e
        → receive env e s ≡ returned s'
        → IsMemberServer h s
        → IsMemberServer h s'
    unfolding run_at
    receive-IsMemberServer (kv_call req resp done) h s s' own ran o =
        let ts = s.tasks ++ kv_op_cb req resp done ∷ [] in
        subst (OfOutcome h) ran (
          with_tasks h s ts
            (All-append (OwnTask h) s.tasks (kv_op_cb req resp done ∷ []) o.own_tasks (tt, tt)) o)
    receive-IsMemberServer (raft_call req done) h s s' own ran o =
        let ts = s.tasks ++ handle_raft_msg_cb req done ∷ [] in
        subst (IsMemberServer h) (handle_raft_msg_inv env req done s s' ran) (
          with_tasks h s ts
            (All-append (OwnTask h) s.tasks (handle_raft_msg_cb req done ∷ []) o.own_tasks
              (own, tt))
            o)
    receive-IsMemberServer (task_runs n) h s s' own ran o =
        run_taken-IsMemberServer h (take_at n s.tasks) s s'
          (take_at-AllTaken (OwnTask h) n s.tasks o.own_tasks) ran o
    receive-IsMemberServer (call_answered n) h s s' own ran o =
        let (net, freed, e) = answer_call_inv env n s s' ran in
        let same = handle_send_msg2_peer_inv env n s.host.net net freed in
        subst (IsMemberServer h) e (record {
          hosted = o.hosted;
          member = o.member;
          in_group = o.in_group;
          peer = o.peer;
          local = o.local;
          all_in_group = o.all_in_group;
          wired =
              subst (IsWired env group reaches) same.at
                (record { links = o.wired.links; sent = o.wired.sent });
          own_tasks = o.own_tasks;
        })
    receive-IsMemberServer (timer_fires i) h s s' own ran o =
        Moves-IsMemberServer ticks h i s s' (fire_inv env i s s' ran) o

  -- A server of the group takes every message for its member, and every task that waits on it for such a
  -- message runs to its end.
  pub handle_raft_msg_takes :
      (h : ℕ) (req : RaftMsgReq) (done : ℕ) (s : Server env)
      → IsFor env group reaches h req
      → IsMemberServer h s
      → handle_raft_msg env req done s
        ≡ returned (record s { tasks = s.tasks ++ handle_raft_msg_cb req done ∷ [] })
  unfolding handle_raft_msg
  handle_raft_msg_takes h req done s (g, at, to) o =
      let same : req.to_peer.host_id ≡ s.host.option.host_id = rw to (sym o.hosted) in
      rw (same, ==_refl s.host.option.host_id) refl

  pub run_raft_msg_returns :
      (h : ℕ) (req : RaftMsgReq) (done : ℕ) (s : Server env)
      → IsFor env group reaches h req
      → IsMemberServer h s
      → (s' : Server env) × (run_raft_msg env req done s ≡ returned s')
  unfolding run_raft_msg
  run_raft_msg_returns h req done s (g, at, to) o =
      let one : g ≡ o.member = ground (arith, at, o.in_group) in
      let id : req.to_peer.peer_id ≡ o.member.peer_id = rw (to, one) refl in
      let s1 = put_peer env req.to_peer.peer_id (step env o.peer req.msg).1 s in
      let local : find req.to_peer.peer_id s.host.local_peers ≡ some o.peer = rw id o.local in
      (record s1 { acks = done ∷ s1.acks }, rw local refl)
