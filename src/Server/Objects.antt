-- ===== src/Server/Objects.antt =====
-- The objects of the calls that a server makes, while it serves.
use mathlib.Core.Path.{subst}
use jkv.Base.{
  ℕ, ◌+◌, ◌<◌, ◌≡◌, refl, sym, inl, inr, Option, none, some, List, [], ◌∷◌, ◌++◌, returned, fatal,
  Outcome, >>=-eq-returned, arith, count, count-append, length, ◌==◌, if◌then◌else◌,
}
use jkv.Env.{Env}
use jkv.Clients.{Net}
use jkv.Peer.Send.Objects.{
  made, AreOwned, send_msgs-AreOwned, handle_send_msg2_peer-AreOwned, handle_send_msg2_peer-frees,
}
use jkv.Peer.Ready.Frame.{ready_of, appended}
use jkv.Peer.History.{Member, Event, ticks, steps, proposes, happen}
use jkv.Peer.History.Steps.{ticked, ticks_inv, steps_inv, proposes_inv}
use jkv.Server.{Task, kv_op_cb, handle_raft_msg_cb, Server, take_at, run_taken, run_at, answer_call}
use jkv.Server.Inputs.{
  Input, kv_call, raft_call, task_runs, timer_fires, call_answered, receive, serve,
}
use jkv.Server.Moves.{
  member_of, Moves, run_kv_op_inv, run_raft_msg_inv, handle_raft_msg_inv, fire_inv, answer_call_inv,
}

-- The calls whose closures are run.
abbrev pub answers_at : Input → List ℕ
answers_at (kv_call req resp done) = []
answers_at (raft_call req done) = []
answers_at (task_runs n) = []
answers_at (timer_fires i) = []
answers_at (call_answered n) = n ∷ []

abbrev pub answers : List Input → List ℕ
answers [] = []
answers (e ∷ es) = answers_at e ++ answers es

module _ (env : Env) where
  happen-AreOwned :
      (done : List ℕ) (e : Event) (m m' : Member env)
      → happen env e m ≡ returned m'
      → AreOwned env done m.net
      → AreOwned env done m'.net
  happen-AreOwned done ticks m m' h own = elim (ticks_inv env m m' h) [
    | inl i ↦ subst (AreOwned env done) i.net_same own
    | inr (_, r) ↦
        let p = ticked env m.peer in
        send_msgs-AreOwned env done (appended env p) (env.raft.messages (ready_of env p)) m.net
          m'.net r.sent own
  ]
  happen-AreOwned done (steps msg) m m' h own = rw (← steps_inv env msg m m' h) own
  happen-AreOwned done (proposes req resp c) m m' h own =
      let (s, _, at) = proposes_inv env req resp c m m' h in rw (← at) own

  Moves-AreOwned :
      (done : List ℕ) (e : Event) (i : ℕ) (s s' : Server env)
      → Moves env e i s s'
      → AreOwned env done s.host.net
      → AreOwned env done s'.host.net
  Moves-AreOwned done e i s s' v own =
      subst (AreOwned env done) (sym v.net_set)
        (happen-AreOwned done e (member_of env v.peer s) v.after v.ran own)

  abbrev OwnedOf : List ℕ → Outcome (Server env) → Type 0
  OwnedOf done (returned s) = AreOwned env done s.host.net
  OwnedOf done (fatal f) = Unit {0}

  run_taken-AreOwned :
      (done : List ℕ) (x : Option (Task × List Task)) (s s' : Server env)
      → run_taken env x s ≡ returned s'
      → AreOwned env done s.host.net
      → AreOwned env done s'.host.net
  run_taken-AreOwned done none s s' h own = subst (OwnedOf done) h own
  run_taken-AreOwned done (some (kv_op_cb req resp c, ts)) s s' h own =
      let s1 : Server env = record s { tasks = ts } in
      elim (run_kv_op_inv env req resp c s1 s' h) [
        | inl v ↦ Moves-AreOwned done (proposes req resp c) 1 s1 s' v own
        | inr e ↦ subst (λ (q : Server env). AreOwned env done q.host.net) e own
      ]
  run_taken-AreOwned done (some (handle_raft_msg_cb req c, ts)) s s' h own =
      let s1 : Server env = record s { tasks = ts } in
      Moves-AreOwned done (steps req.msg) req.to_peer.peer_id s1 s'
        (run_raft_msg_inv env req c s1 s' h) own

  receive-AreOwned :
      (done : List ℕ) (e : Input) (s s' : Server env)
      → receive env e s ≡ returned s'
      → AreOwned env done s.host.net
      → AreOwned env (answers_at e ++ done) s'.host.net
  unfolding run_at
  receive-AreOwned done (kv_call req resp c) s s' h own =
      let same : s.host.net ≡ s'.host.net = ground arith in subst (AreOwned env done) same own
  receive-AreOwned done (raft_call req c) s s' h own =
      subst (λ (q : Server env). AreOwned env done q.host.net)
        (handle_raft_msg_inv env req c s s' h) own
  receive-AreOwned done (task_runs n) s s' h own =
      run_taken-AreOwned done (take_at n s.tasks) s s' h own
  receive-AreOwned done (timer_fires i) s s' h own =
      Moves-AreOwned done ticks i s s' (fire_inv env i s s' h) own
  receive-AreOwned done (call_answered n) s s' h own =
      let (net, freed, e) = answer_call_inv env n s s' h in
      subst (λ (q : Server env). AreOwned env (n ∷ done) q.host.net) e
        (handle_send_msg2_peer-AreOwned env done n s.host.net net freed own)

  serve-AreOwned :
      (done : List ℕ) (es : List Input) (s s' : Server env)
      → serve env es s ≡ returned s'
      → AreOwned env done s.host.net
      → (k : ℕ)
      → (count k s'.host.net.controllers + (count k (answers es) + count k done)
          ≡ made env k s'.host.net)
        × (count k s'.host.net.responses + (count k (answers es) + count k done)
            ≡ made env k s'.host.net)
  unfolding serve
  serve-AreOwned done [] s s' h own k =
      let same : s.host.net ≡ s'.host.net = ground arith in
      rw (← same) (omega (arith, (own k).0), omega (arith, (own k).1))
  serve-AreOwned done (e ∷ es) s s' h own k =
      let (s1, first, rest) = >>=-eq-returned (receive env e s) (serve env es) h in
      let later =
        serve-AreOwned (answers_at e ++ done) es s1 s' rest (receive-AreOwned done e s s1 first own)
          k in
      let waits = count-append k (answers_at e) done in
      let runs = count-append k (answers_at e) (answers es) in
      (omega (arith, later.0, waits, runs), omega (arith, later.1, waits, runs))

  none_made :
      (net : Net env)
      → net.sent ≡ []
      → net.controllers ≡ []
      → net.responses ≡ []
      → AreOwned env [] net
  none_made net no_sent no_cntl no_resp k =
      rw (no_sent, no_cntl, no_resp) (ground arith, ground arith)

  -- On a server that begins with no call made and no controller or response there, whatever inputs come
  -- in any order, if it does not abort: the controller and the response of each call that it has made
  -- are there until the call's closure has run; no closure has run twice or without a call; and nothing
  -- else is there.
  pub serve-made :
      (es : List Input) (s s' : Server env) (k : ℕ)
      → s.host.net.sent ≡ []
      → s.host.net.controllers ≡ []
      → s.host.net.responses ≡ []
      → serve env es s ≡ returned s'
      → (count k s'.host.net.controllers + count k (answers es) ≡ made env k s'.host.net)
        × (count k s'.host.net.responses + count k (answers es) ≡ made env k s'.host.net)
  serve-made es s s' k no_sent no_cntl no_resp h =
      let all = serve-AreOwned [] es s s' h (none_made s.host.net no_sent no_cntl no_resp) k in
      (omega (arith, all.0), omega (arith, all.1))

  -- On such a server the closure of a call that has been made and whose closure has not run yet frees
  -- the controller and the response of this call, and no others, and does not abort.
  pub answer_call-frees :
      (es : List Input) (s s' : Server env) (k : ℕ)
      → s.host.net.sent ≡ []
      → s.host.net.controllers ≡ []
      → s.host.net.responses ≡ []
      → serve env es s ≡ returned s'
      → k < length s'.host.net.sent
      → count k (answers es) ≡ 0
      → (t : Server env) × (answer_call env k s' ≡ returned t)
        × ((j : ℕ)
            → (count j t.host.net.controllers
                ≡ (if j == k then 0 else count j s'.host.net.controllers))
              × (count j t.host.net.responses
                  ≡ (if j == k then 0 else count j s'.host.net.responses)))
  unfolding answer_call
  answer_call-frees es s s' k no_sent no_cntl no_resp h was not_yet =
      let own : AreOwned env (answers es) s'.host.net =
        λ j. serve-made es s s' j no_sent no_cntl no_resp h in
      let (net, ran, rest) =
        handle_send_msg2_peer-frees env (answers es) k s'.host.net own was not_yet in
      (record s' { host = record (s'.host) { net = net } }, rw ran refl, rest)
