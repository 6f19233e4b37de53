-- ===== src/Server/Moves.antt =====
-- What a task or a timer that runs to its end has done: a call of one local peer, with what this peer
-- shares with its host, or a rejection.
use jkv.Base.{
  sym, ◌++◌, ◌==◌, true, false, if◌then◌else◌, wrong_host, fatal_if-passes, ℕ, zero, suc, [], ◌∷◌,
  All, Option, none, ◌≡◌, refl, ap, inl, inr, ◌⊎◌, some, List, Outcome, returned, fatal,
  >>=-eq-returned, arith, Bool-cases, Option-cases, Table, find, assign,
}
use jkv.Config.{PeerHostOption}
use jkv.Proto.{KvReq, RaftMsgReq}
use jkv.Calls.{Calls, set_rejected}
use jkv.Calls
use jkv.Env.{Env}
use jkv.Clients.{Net}
use jkv.Peer.State.{Peer}
use jkv.Peer.Propose.{propose_kv_op}
use jkv.Peer.Ready.{tick}
use jkv.Peer.History.{Member, Event, ticks, steps, proposes, happen, delivered_at}
use jkv.Server.Inputs.{Input, kv_call, raft_call, task_runs, timer_fires, call_answered, receive}
use jkv.Peer.Send.{handle_send_msg2_peer}
use jkv.Server.{
  answer_call, kv_op_cb, handle_raft_msg_cb, handle_raft_msg, run_taken, run_at, Task, take_at,
  Server, kv_op_on, run_kv_op, run_raft_msg, fire,
}

-- What holds of every task holds of the one that is taken and of those that stay.
abbrev pub AllTaken : (Task → Type 0) → Option (Task × List Task) → Type 0
AllTaken P none = Unit {0}
AllTaken P (some (t, ts)) = P t × All P ts

pub take_at-AllTaken :
    (P : Task → Type 0) (n : ℕ) (ts : List Task) → All P ts → AllTaken P (take_at n ts)
take_at-AllTaken P n [] h = tt
take_at-AllTaken P zero (t ∷ ts) h = h
take_at-AllTaken P (suc n) (t ∷ ts) h =
    elim (take_at n ts)
        as (λ x.
          AllTaken P x → AllTaken P (elim x [ none ↦ none | some (u, us) ↦ some (u, t ∷ us) ])) [
            | none ↦ λ a. tt
            | some (u, us) ↦ λ a. (a.0, (h.0, a.1))
          ]
      (take_at-AllTaken P n ts h.1)

module _ (env : Env) where
  -- A local peer with what it shares with its host.
  abbrev pub member_of : Peer env → Server env → Member env
  member_of p s = record { peer = p; net = s.host.net; calls = s.calls }

  -- The event has happened to the local peer of this number.
  pub record Moves (e : Event) (i : ℕ) (s s' : Server env) : Type 0 where
    pub peer : Peer env
    pub at : find i s.host.local_peers ≡ some peer
    pub after : Member env
    pub ran : happen env e (member_of peer s) ≡ returned after
    pub peers_set : s'.host.local_peers ≡ assign i after.peer s.host.local_peers
    pub net_set : s'.host.net ≡ after.net
    pub calls_set : s'.calls ≡ after.calls
    pub tasks_same : s'.tasks ≡ s.tasks
    pub option_same : s'.host.option ≡ s.host.option

  abbrev peers_of : Table (Peer env) → Outcome (Server env) → Table (Peer env)
  peers_of m (returned s) = s.host.local_peers
  peers_of m (fatal e) = m

  abbrev net_of : Net env → Outcome (Server env) → Net env
  net_of n (returned s) = s.host.net
  net_of n (fatal e) = n

  abbrev calls_of : Calls → Outcome (Server env) → Calls
  calls_of c (returned s) = s.calls
  calls_of c (fatal e) = c

  abbrev tasks_of : List Task → Outcome (Server env) → List Task
  tasks_of ts (returned s) = s.tasks
  tasks_of ts (fatal e) = ts

  open env use {raft, jrpc}

  abbrev option_of :
      PeerHostOption jrpc.Worker raft.Storage
      → Outcome (Server env)
      → PeerHostOption jrpc.Worker raft.Storage
  option_of o (returned s) = s.host.option
  option_of o (fatal e) = o

  moved :
      (e : Event) (i : ℕ) (s s' s2 : Server env) (p : Peer env) (m : Member env)
      → find i s.host.local_peers ≡ some p
      → happen env e (member_of p s) ≡ returned m
      → returned s2 ≡ returned s'
      → s2.host.local_peers ≡ assign i m.peer s.host.local_peers
      → s2.host.net ≡ m.net
      → s2.calls ≡ m.calls
      → s2.tasks ≡ s.tasks
      → s2.host.option ≡ s.host.option
      → Moves e i s s'
  moved e i s s' s2 p m at ran same peers net calls tasks option = record {
    peer = p;
    at = at;
    after = m;
    ran = ran;
    peers_set = rw (← peers, ap (peers_of s.host.local_peers) same) refl;
    net_set = rw (← net, ap (net_of s.host.net) same) refl;
    calls_set = rw (← calls, ap (calls_of s.calls) same) refl;
    tasks_same = rw (← tasks, ap (tasks_of s.tasks) same) refl;
    option_same = rw (← option, ap (option_of s.host.option) same) refl;
  }

  pub run_kv_op_inv :
      (req : KvReq) (resp done : ℕ) (s s' : Server env)
      → run_kv_op env req resp done s ≡ returned s'
      → Moves (proposes req resp done) 1 s s'
        ⊎ (record s { calls = Calls.run done resp (set_rejected resp s.calls) } ≡ s')
  unfolding run_kv_op kv_op_on
  run_kv_op_inv req resp done s s' h = elim (Option-cases (find 1 s.host.local_peers)) [
    | inl e ↦ absurd (cc (rw e at h))
    | inr (p, e) ↦ elim (Bool-cases (env.raft.is_leader p.raw_node)) [
      | inl leads ↦
          let (q, ran, eq) =
            >>=-eq-returned (propose_kv_op env req resp done p) _ (rw (e, leads) at h) in
          inl (
            moved (proposes req resp done) 1 s s' _ p (member_of q s) e (rw ran refl) eq refl refl
              refl refl refl)
      | inr follows ↦ inr (ground arith)
    ]
  ]

  pub run_raft_msg_inv :
      (req : RaftMsgReq) (done : ℕ) (s s' : Server env)
      → run_raft_msg env req done s ≡ returned s'
      → Moves (steps req.msg) req.to_peer.peer_id s s'
  unfolding run_raft_msg
  run_raft_msg_inv req done s s' h =
      elim (Option-cases (find req.to_peer.peer_id s.host.local_peers)) [
        | inl e ↦ absurd (cc (rw e at h))
        | inr (p, e) ↦
            moved (steps req.msg) req.to_peer.peer_id s s' _ p _ e refl (rw e at h) refl refl refl
              refl refl
      ]

  pub fire_inv : (i : ℕ) (s s' : Server env) → fire env i s ≡ returned s' → Moves ticks i s s'
  unfolding fire
  fire_inv i s s' h = elim (Option-cases (find i s.host.local_peers)) [
    | inl e ↦ absurd (cc (rw e at h))
    | inr (p, e) ↦
        let (x, ran, eq) = >>=-eq-returned (tick env p s.host.net s.calls) _ (rw e at h) in
        moved ticks i s s' _ p (record { peer = x.0; net = x.1; calls = x.2 }) e (rw ran refl) eq
          refl refl refl refl refl
  ]

  -- Some event has happened to a local peer while these tasks were left.
  abbrev pub SomeMove : (Event → Type 0) → Server env → Server env → Type 0
  SomeMove P s s' =
      (ts : List Task) × (e : Event) × P e × ((i : ℕ) × Moves e i (record s { tasks = ts }) s')

  -- Raft hands nothing over as committed.
  abbrev pub IsQuiet : Event → Type 0
  IsQuiet e = (m : Member env) → delivered_at env e m ≡ []

  -- A task that runs, if there is one, leaves the local peers or is an event of one of them at which
  -- nothing is delivered.
  pub run_taken_inv :
      (x : Option (Task × List Task)) (s s' : Server env)
      → run_taken env x s ≡ returned s'
      → (s'.host.local_peers ≡ s.host.local_peers) ⊎ SomeMove IsQuiet s s'
  run_taken_inv none s s' h = inl (sym (ap (peers_of s.host.local_peers) h))
  run_taken_inv (some (kv_op_cb req resp done, ts)) s s' h =
      elim (run_kv_op_inv req resp done (record s { tasks = ts }) s' h) [
        | inl v ↦ inr (ts, proposes req resp done, (λ m. refl), (1, v))
        | inr e ↦ inl (ap (λ (q : Server env). q.host.local_peers) (sym e))
      ]
  run_taken_inv (some (handle_raft_msg_cb req done, ts)) s s' h = inr (
    ts,
    steps req.msg,
    (λ m. refl),
    (req.to_peer.peer_id, run_raft_msg_inv req done (record s { tasks = ts }) s' h),
  )

  pub handle_raft_msg_inv :
      (req : RaftMsgReq) (done : ℕ) (s s' : Server env)
      → handle_raft_msg env req done s ≡ returned s'
      → record s { tasks = s.tasks ++ handle_raft_msg_cb req done ∷ [] } ≡ s'
  unfolding handle_raft_msg
  handle_raft_msg_inv req done s s' h =
      let (_, e) =
        fatal_if-passes (if req.to_peer.host_id == s.host.option.host_id then false else true)
          wrong_host _ h in
      ground arith

  -- The answer to a call frees what belongs to it.
  pub answer_call_inv :
      (call : ℕ) (s s' : Server env)
      → answer_call env call s ≡ returned s'
      → (net : Net env) × (handle_send_msg2_peer env call s.host.net ≡ returned net)
        × (record s { host = record (s.host) { net = net } } ≡ s')
  unfolding answer_call
  answer_call_inv call s s' h =
      let (net, ran, e) = >>=-eq-returned (handle_send_msg2_peer env call s.host.net) _ h in
      (net, ran, ground arith)

  -- Every input leaves the local peers or is an event of one of them.
  pub receive_inv :
      (e : Input) (s s' : Server env)
      → receive env e s ≡ returned s'
      → (s'.host.local_peers ≡ s.host.local_peers) ⊎ SomeMove (λ _. Unit {0}) s s'
  unfolding run_at
  receive_inv (kv_call req resp done) s s' h = inl (sym (ap (peers_of s.host.local_peers) h))
  receive_inv (raft_call req done) s s' h =
      inl (ap (λ (q : Server env). q.host.local_peers) (sym (handle_raft_msg_inv req done s s' h)))
  receive_inv (task_runs n) s s' h = elim (run_taken_inv (take_at n s.tasks) s s' h) [
    | inl same ↦ inl same
    | inr (ts, e, _, v) ↦ inr (ts, e, tt, v)
  ]
  receive_inv (call_answered n) s s' h =
      let (net, _, e) = answer_call_inv n s s' h in
      inl (ap (λ (q : Server env). q.host.local_peers) (sym e))
  receive_inv (timer_fires i) s s' h = inr (s.tasks, ticks, tt, (i, fire_inv i s s' h))
