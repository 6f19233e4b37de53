-- ===== src/Server/Lift.antt =====
-- From one peer to the server: what every call of a peer keeps, every input of the server keeps for all
-- local peers.
use mathlib.Core.Path.{subst}
use jkv.Base.{
  ℕ, ◌≡◌, inl, inr, Option, none, some, List, [], ◌∷◌, returned, fatal, Outcome, >>=-eq-returned,
  find, AllIn, find-AllIn, assign-AllIn,
}
use jkv.Env.{Env}
use jkv.Peer.State.{Peer}
use jkv.Peer.History.{Member, Event, ticks, steps, proposes, happen}
use jkv.Server.{Task, kv_op_cb, handle_raft_msg_cb, Server, take_at, run_taken, run_at}
use jkv.Server.Inputs.{
  Input, kv_call, raft_call, task_runs, timer_fires, call_answered, receive, serve,
}
use jkv.Server.Moves.{
  answer_call_inv, handle_raft_msg_inv, member_of, Moves, run_kv_op_inv, run_raft_msg_inv, fire_inv,
}

module _ (env : Env) (Acc : Event → Member env → Type 0) where
  -- A condition on what happens to a peer, at the peer that it happens to, if there is one.
  abbrev pub AtPeer : Event → Server env → Option (Peer env) → Type 0
  AtPeer e s none = Unit {0}
  AtPeer e s (some p) = Acc e (member_of env p s)

  abbrev pub AtTask : Option (Task × List Task) → Server env → Type 0
  AtTask none s = Unit {0}
  AtTask (some (kv_op_cb req resp done, ts)) s =
      AtPeer (proposes req resp done) s (find 1 s.host.local_peers)
  AtTask (some (handle_raft_msg_cb req done, ts)) s =
      AtPeer (steps req.msg) s (find req.to_peer.peer_id s.host.local_peers)

  abbrev pub AtInput : Input → Server env → Type 0
  AtInput (kv_call req resp done) s = Unit {0}
  AtInput (raft_call req done) s = Unit {0}
  AtInput (task_runs n) s = AtTask (take_at n s.tasks) s
  AtInput (call_answered n) s = Unit {0}
  AtInput (timer_fires i) s = AtPeer ticks s (find i s.host.local_peers)

  -- The condition holds at every input.
  abbrev pub AtInputs : List Input → Server env → Type 0
  AtInputs [] s = Unit {0}
  AtInputs (e ∷ es) s =
      AtInput e s × (elim (receive env e s) [ returned s' ↦ AtInputs es s' | fatal f ↦ Unit {0} ])

  module _ (P : Peer env → Type 0)
      (keeps : (e : Event) (m m' : Member env)
        → happen env e m ≡ returned m'
        → Acc e m
        → P m.peer
        → P m'.peer) where
    abbrev OfPeers : Outcome (Server env) → Type 0
    OfPeers (returned s) = AllIn P s.host.local_peers
    OfPeers (fatal e) = Unit {0}

    Moves-AllIn :
        (e : Event) (i : ℕ) (s s' : Server env)
        → Moves env e i s s'
        → AtPeer e s (find i s.host.local_peers)
        → AllIn P s.host.local_peers
        → AllIn P s'.host.local_peers
    Moves-AllIn e i s s' v a h =
        let before = find-AllIn P i v.peer s.host.local_peers h v.at in
        let p = keeps e (member_of env v.peer s) v.after v.ran (rw v.at at a) before in
        rw v.peers_set (assign-AllIn P i v.after.peer s.host.local_peers p h)

    run_taken-AllIn :
        (x : Option (Task × List Task)) (s s' : Server env)
        → AtTask x s
        → run_taken env x s ≡ returned s'
        → AllIn P s.host.local_peers
        → AllIn P s'.host.local_peers
    run_taken-AllIn none s s' a h all = subst OfPeers h all
    run_taken-AllIn (some (kv_op_cb req resp done, ts)) s s' a h all =
        let s1 : Server env = record s { tasks = ts } in
        elim (run_kv_op_inv env req resp done s1 s' h) [
          | inl v ↦ Moves-AllIn (proposes req resp done) 1 s1 s' v a all
          | inr e ↦ subst (λ (q : Server env). AllIn P q.host.local_peers) e all
        ]
    run_taken-AllIn (some (handle_raft_msg_cb req done, ts)) s s' a h all =
        let s1 : Server env = record s { tasks = ts } in
        Moves-AllIn (steps req.msg) req.to_peer.peer_id s1 s'
          (run_raft_msg_inv env req done s1 s' h) a all

    pub receive-AllIn :
        (e : Input) (s s' : Server env)
        → AtInput e s
        → receive env e s ≡ returned s'
        → AllIn P s.host.local_peers
        → AllIn P s'.host.local_peers
    unfolding run_at
    receive-AllIn (kv_call req resp done) s s' a h all = subst OfPeers h all
    receive-AllIn (raft_call req done) s s' a h all =
        subst (λ (q : Server env). AllIn P q.host.local_peers)
          (handle_raft_msg_inv env req done s s' h) all
    receive-AllIn (task_runs n) s s' a h all = run_taken-AllIn (take_at n s.tasks) s s' a h all
    receive-AllIn (call_answered n) s s' a h all =
        let (net, _, e) = answer_call_inv env n s s' h in
        subst (λ (q : Server env). AllIn P q.host.local_peers) e all
    receive-AllIn (timer_fires i) s s' a h all =
        Moves-AllIn ticks i s s' (fire_inv env i s s' h) a all

    pub serve-AllIn :
        (es : List Input) (s s' : Server env)
        → AtInputs es s
        → serve env es s ≡ returned s'
        → AllIn P s.host.local_peers
        → AllIn P s'.host.local_peers
    unfolding serve
    serve-AllIn [] s s' a h all = subst OfPeers h all
    serve-AllIn (e ∷ es) s s' a h all =
        let (s1, first, rest) = >>=-eq-returned (receive env e s) (serve env es) h in
        serve-AllIn es s1 s' (rw first at a.1) rest (receive-AllIn e s s1 a.0 first all)
