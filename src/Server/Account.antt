-- ===== src/Server/Account.antt =====
-- The closures of all the calls that a server has taken, over any order of its tasks and timers.
use jkv.Base.{
  ℕ, ◌+◌, ◌≤◌, ◌≡◌, refl, ap, inl, inr, some, List, [], ◌∷◌, returned, fatal, Outcome,
  >>=-eq-returned, arith, count, count-append, Bool-cases, Option-cases, Table, find, assign, ◌==◌,
}
use jkv.Proto.{KvReq, RaftMsgReq}
use jkv.Calls.{answered}
use jkv.Env.{Env}
use jkv.Peer.State.{Peer}
use jkv.Peer.Proposals.Account.{dones}
use jkv.Peer.Propose.{propose_kv_op, new_proposal}
use jkv.Peer.Propose.Steps.{propose_kv_op_inv}
use jkv.Peer.Ready.{tick, step}
use jkv.Peer.History.{Member, ticks, happen}
use jkv.Peer.History.Account.{dones-append, held-happen, held-ticks}
use jkv.Server.{
  Task, kv_op_cb, handle_raft_msg_cb, Server, take_at, put_peer, kv_op, kv_op_on, run_kv_op,
  handle_raft_msg, run_raft_msg, fire, run_task, run_at,
}
use jkv.Server.Moves.{answer_call_inv, handle_raft_msg_inv}
use jkv.Server.Closures.{closure_of, closures, count-closures-append, count-take_at}
use jkv.Server.Inputs.{
  Input, kv_call, raft_call, task_runs, timer_fires, call_answered, brought_by, brought, receive,
  serve, CommandsAt, AllCommands,
}

module _ (env : Env) (d : ℕ) where
  -- How often a closure waits in the queues of the local peers.
  abbrev pub waiting : Table (Peer env) → ℕ
  waiting [] = 0
  waiting ((i, p) ∷ m) = count d (dones p.proposals) + waiting m

  -- How often a closure waits in a task or in a queue, or has been run.
  abbrev pub held : Server env → ℕ
  held s =
      count d (closures s.tasks)
      + waiting s.host.local_peers
      + count d (answered s.calls)
      + count d s.acks

  abbrev held_of : Outcome (Server env) → ℕ
  held_of (returned s) = held s
  held_of (fatal f) = 0

  waiting-assign :
      (i : ℕ) (p q : Peer env) (m : Table (Peer env))
      → find i m ≡ some p
      → waiting (assign i q m) + count d (dones p.proposals)
        ≡ waiting m + count d (dones q.proposals)
  waiting-assign i p q [] h = cc
  waiting-assign i p q ((j, r) ∷ m) h = elim (Bool-cases (j == i)) [
    | inl e ↦ let same : r ≡ p = ground (arith, rw e at h) in rw (e, same) (omega arith)
    | inr e ↦ rw e (omega (arith, waiting-assign i p q m (rw e at h)))
  ]

  held-put_peer :
      (i : ℕ) (p q : Peer env) (s : Server env)
      → find i s.host.local_peers ≡ some p
      → held (put_peer env i q s) + count d (dones p.proposals)
        ≡ held s + count d (dones q.proposals)
  held-put_peer i p q s h = omega (arith, waiting-assign i p q s.host.local_peers h)

  held-kv_op_on :
      (req : KvReq) (resp done : ℕ) (s s' : Server env) (p : Peer env)
      → find 1 s.host.local_peers ≡ some p
      → kv_op_on env req resp done s p ≡ returned s'
      → held s' ≡ held s + count d (done ∷ [])
  unfolding kv_op_on
  held-kv_op_on req resp done s s' p at h = elim (Bool-cases (env.raft.is_leader p.raw_node)) [
    | inl leads ↦
        let (q, ran, e) = >>=-eq-returned (propose_kv_op env req resp done p) _ (rw leads at h) in
        let (b, _, made) = propose_kv_op_inv env req resp done p q ran in
        let same : put_peer env 1 q s ≡ s' = ground (arith, e) in
        omega (
          arith,
          ap held same,
          held-put_peer 1 p q s at,
          ap (λ (x : Peer env). count d (dones x.proposals)) (rw leads at made),
          dones-append d p.proposals (new_proposal env p resp done ∷ []),
        )
    | inr follows ↦ let same = rw follows at h in omega (arith, ap held_of same)
  ]

  held-run_task :
      (t : Task) (s s' : Server env)
      → run_task env t s ≡ returned s'
      → held s' ≡ held s + count d (closure_of t ∷ [])
  unfolding run_kv_op run_raft_msg step
  held-run_task (kv_op_cb req resp done) s s' h = elim (Option-cases (find 1 s.host.local_peers)) [
    | inl e ↦ absurd (cc (rw e at h))
    | inr (p, e) ↦ held-kv_op_on req resp done s s' p e (rw e at h)
  ]
  held-run_task (handle_raft_msg_cb req done) s s' h =
      let i = req.to_peer.peer_id in
      elim (Option-cases (find i s.host.local_peers)) [
        | inl e ↦ absurd (cc (rw e at h))
        | inr (p, e) ↦
            omega (arith, ap held_of (rw e at h), held-put_peer i p (step env p req.msg).1 s e)
      ]

  -- A timer that fires is a tick of its peer, with what the server shares.
  pub record Fired (i : ℕ) (s s' : Server env) : Type 0 where
    pub before : Peer env
    pub after : Member env
    pub there : find i s.host.local_peers ≡ some before
    pub ran :
        happen env ticks (record { peer = before; net = s.host.net; calls = s.calls })
        ≡ returned after
    pub held_at :
        held s' + count d (dones before.proposals) + count d (answered s.calls)
        ≡ held s + count d (dones after.peer.proposals) + count d (answered after.calls)

  fire_inv : (i : ℕ) (s s' : Server env) → fire env i s ≡ returned s' → Fired i s s'
  unfolding fire
  fire_inv i s s' h = elim (Option-cases (find i s.host.local_peers)) [
    | inl e ↦ absurd (cc (rw e at h))
    | inr (p, e) ↦
        let (x, ran, e1) = >>=-eq-returned (tick env p s.host.net s.calls) _ (rw e at h) in
        record {
          before = p;
          after = record { peer = x.0; net = x.1; calls = x.2 };
          there = e;
          ran = rw ran refl;
          held_at = omega (arith, ap held_of e1, held-put_peer i p x.0 s e);
        }
  ]

  abbrev at_timer : Peer env → Server env → Member env
  at_timer p s = record { peer = p; net = s.host.net; calls = s.calls }

  held-fire : (i : ℕ) (s s' : Server env) → fire env i s ≡ returned s' → held s' ≤ held s
  held-fire i s s' h =
      let f = fire_inv i s s' h in
      omega (arith, f.held_at, held-happen env d ticks (at_timer f.before s) f.after f.ran)

  held_exact-fire :
      (i : ℕ) (s s' : Server env)
      → CommandsAt env (timer_fires i) s
      → fire env i s ≡ returned s'
      → held s' ≡ held s
  held_exact-fire i s s' all h =
      let f = fire_inv i s s' h in
      omega
        (arith, f.held_at, held-ticks env d (at_timer f.before s) f.after (rw f.there at all) f.ran)

  held-kv_op :
      (req : KvReq) (resp done : ℕ) (s : Server env)
      → held (kv_op env req resp done s) ≡ held s + count d (done ∷ [])
  held-kv_op req resp done s =
      omega (arith, count-closures-append d (kv_op_cb req resp done) s.tasks)

  held-handle_raft_msg :
      (req : RaftMsgReq) (done : ℕ) (s s' : Server env)
      → handle_raft_msg env req done s ≡ returned s'
      → held s' ≡ held s + count d (done ∷ [])
  held-handle_raft_msg req done s s' h = omega (
    arith,
    ap held (handle_raft_msg_inv env req done s s' h),
    count-closures-append d (handle_raft_msg_cb req done) s.tasks,
  )

  held-run_at : (n : ℕ) (s s' : Server env) → run_at env n s ≡ returned s' → held s' ≡ held s
  unfolding run_at
  held-run_at n s s' h = elim (Option-cases (take_at n s.tasks)) [
    | inl e ↦ omega (arith, ap held_of (rw e at h))
    | inr (x, e) ↦ omega (
      arith,
      count-take_at d n x.0 s.tasks x.1 e,
      held-run_task x.0 (record s { tasks = x.1 }) s' (rw e at h),
    )
  ]

  held-receive :
      (e : Input) (s s' : Server env)
      → receive env e s ≡ returned s'
      → held s' ≤ held s + count d (brought_by e)
  held-receive (kv_call req resp done) s s' h =
      omega (arith, ap held_of h, held-kv_op req resp done s)
  held-receive (raft_call req done) s s' h = omega (arith, held-handle_raft_msg req done s s' h)
  held-receive (task_runs n) s s' h = omega (arith, held-run_at n s s' h)
  held-receive (call_answered n) s s' h =
      let (net, _, e) = answer_call_inv env n s s' h in omega (arith, ap held e)
  held-receive (timer_fires i) s s' h = omega (arith, held-fire i s s' h)

  held_exact-receive :
      (e : Input) (s s' : Server env)
      → CommandsAt env e s
      → receive env e s ≡ returned s'
      → held s' ≡ held s + count d (brought_by e)
  held_exact-receive (kv_call req resp done) s s' all h =
      omega (arith, ap held_of h, held-kv_op req resp done s)
  held_exact-receive (raft_call req done) s s' all h =
      omega (arith, held-handle_raft_msg req done s s' h)
  held_exact-receive (task_runs n) s s' all h = omega (arith, held-run_at n s s' h)
  held_exact-receive (call_answered n) s s' all h =
      let (net, _, e) = answer_call_inv env n s s' h in omega (arith, ap held e)
  held_exact-receive (timer_fires i) s s' all h = omega (arith, held_exact-fire i s s' all h)

  -- Whatever calls come in and in whatever order their tasks run and the timers fire, a closure waits in
  -- a task or a queue, or is run, at most as often as it was at the start and as calls have brought it.
  pub held-serve :
      (es : List Input) (s s' : Server env)
      → serve env es s ≡ returned s'
      → held s' ≤ held s + count d (brought es)
  unfolding serve
  held-serve [] s s' h = omega (arith, ap held_of h)
  held-serve (e ∷ es) s s' h =
      let (s1, first, rest) = >>=-eq-returned (receive env e s) (serve env es) h in
      omega (
        arith,
        held-receive e s s1 first,
        held-serve es s1 s' rest,
        count-append d (brought_by e) (brought es),
      )

  -- Where only client commands are delivered as committed, whatever calls come in and in whatever order
  -- their tasks run and the timers fire, no closure is lost: each one waits in a task or a queue, or has
  -- been run, exactly as often as it was at the start and as calls have brought it.
  pub held_exact-serve :
      (es : List Input) (s s' : Server env)
      → AllCommands env es s
      → serve env es s ≡ returned s'
      → held s' ≡ held s + count d (brought es)
  unfolding serve
  held_exact-serve [] s s' all h = omega (arith, ap held_of h)
  held_exact-serve (e ∷ es) s s' all h =
      let (s1, first, rest) = >>=-eq-returned (receive env e s) (serve env es) h in
      omega (
        arith,
        held_exact-receive e s s1 all.0 first,
        held_exact-serve es s1 s' (rw first at all.1) rest,
        count-append d (brought_by e) (brought es),
      )
