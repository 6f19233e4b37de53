-- ===== src/Peer/History/Steps.antt =====
-- What an event of a history that returns went through.
use jkv.Base.{
  returned-injective, ℕ, ◌≡◌, ap, ◌∙◌, ◌⊎◌, inl, inr, true, false, List, [], ◌∷◌, returned,
  >>=-eq-returned, arith, Bytes, some,
}
use jkv.Proto.{KvReq, Message}
use jkv.Env.{Env}
use jkv.Peer.State.{Peer}
use jkv.Peer.Ready.{tick, step, handle_raft_ready}
use jkv.Peer.Ready.Frame.{Round, handle_raft_ready_inv}
use jkv.Peer.Propose.{propose_kv_op}
use jkv.Peer.Propose.Steps.{proposed, propose_kv_op_inv}
use jkv.Peer.History.{Member, Event, ticks, steps, proposes, happen, run}

module _ (env : Env) where
  open env use {raft}

  -- The peer behind the tick of its raft node.
  abbrev pub ticked : Peer env → Peer env
  ticked p = record p { raw_node = raft.tick p.raw_node }

  -- Nothing was ready.
  pub record Idle (p : Peer env) (m m' : Member env) : Type 0 where
    pub not_ready : raft.has_ready p.raw_node ≡ false
    pub peer_same : p ≡ m'.peer
    pub net_same : m.net ≡ m'.net
    pub calls_same : m.calls ≡ m'.calls

  pub ticks_inv :
      (m m' : Member env)
      → happen env ticks m ≡ returned m'
      → Idle (ticked m.peer) m m'
        ⊎ ((raft.has_ready (ticked m.peer).raw_node ≡ true)
            × Round env (ticked m.peer) m'.peer m.net m'.net m.calls m'.calls)
  unfolding tick
  ticks_inv m m' h =
      let (x, ran, e) = >>=-eq-returned (handle_raft_ready env (ticked m.peer) m.net m.calls) _ h in
      let same =
        ran ∙ ap (λ (q : Member env). returned (q.peer, q.net, q.calls)) (returned-injective e) in
      elim (handle_raft_ready_inv env (ticked m.peer) m'.peer m.net m'.net m.calls m'.calls same) [
        | inl i ↦
            inl (record { not_ready = i.0; peer_same = i.1; net_same = i.2; calls_same = i.3 })
        | inr r ↦ inr r
      ]

  pub steps_inv :
      (msg : Message) (m m' : Member env)
      → happen env (steps msg) m ≡ returned m'
      → record m { peer = record (m.peer) { raw_node = (raft.step m.peer.raw_node msg).1 } } ≡ m'
  unfolding step
  steps_inv msg m m' h = ground arith

  pub proposes_inv :
      (req : KvReq) (resp done : ℕ) (m m' : Member env)
      → happen env (proposes req resp done) m ≡ returned m'
      → (s : Bytes) × (env.codec.serialize req ≡ some s)
        × (record m { peer = proposed env s resp done m.peer } ≡ m')
  proposes_inv req resp done m m' h =
      let (p, ran, e) = >>=-eq-returned (propose_kv_op env req resp done m.peer) _ h in
      let (s, es, at) = propose_kv_op_inv env req resp done m.peer p ran in
      (s, es, rw at (ground arith))

  pub run_nil : (m m' : Member env) → run env [] m ≡ returned m' → m ≡ m'
  unfolding run
  run_nil m m' h = ground arith

  pub run_inv :
      (e : Event) (es : List Event) (m m' : Member env)
      → run env (e ∷ es) m ≡ returned m'
      → (m1 : Member env) × (happen env e m ≡ returned m1) × (run env es m1 ≡ returned m')
  unfolding run
  run_inv e es m m' h = >>=-eq-returned (happen env e m) (run env es) h
