-- ===== src/Peer/History/InOrder.antt =====
-- The order of the queue over a whole history.
use jkv.Base.{ℕ, ◌≡◌, sym, inl, inr, List, [], ◌∷◌, All, returned, fatal}
use mathlib.Core.Path.{subst}
use jkv.Proto.{Entry}
use jkv.Env.{Env}
use jkv.Peer.State.{Peer}
use jkv.Peer.Apply.Queue.{process_entries-IsQueue}
use jkv.Peer.Ready.{append_entries}
use jkv.Peer.Ready.Frame.{Round, ready_of, appended, process_entries-SameBut}
use jkv.Peer.Propose.Queue.{
  LeaderAppendOnly, IsOwn, IsInOrder, Accepts, IsInOrder-node, IsInOrder-proposed,
}
use jkv.Peer.History.Steps.{ticked, ticks_inv, steps_inv, proposes_inv, run_nil, run_inv}
use jkv.Peer.History.{Member, Event, ticks, steps, proposes, happen, run}

module _ (env : Env) (law : LeaderAppendOnly env.raft) where
  open env use {raft}

  -- Raft accepts a request that the peer makes as a leader, its log has an index left, and a message that
  -- raft is stepped with is sound.
  abbrev pub AcceptsAt : Event → Member env → Type 0
  AcceptsAt ticks m = Unit {0}
  AcceptsAt (steps msg) m = law.Sound m.peer.raw_node msg
  AcceptsAt (proposes req resp done) m = Accepts env law req m.peer

  abbrev pub AcceptsAll : List Event → Member env → Type 0
  AcceptsAll [] m = Unit {0}
  AcceptsAll (e ∷ es) m =
      AcceptsAt e m
      × (elim (happen env e m) [ returned m1 ↦ AcceptsAll es m1 | fatal f ↦ Unit {0} ])

  own_append_entries :
      (n : raft.Node) (es : List Entry) (t i : ℕ)
      → law.Own n t i
      → law.Own (append_entries env n es) t i
  own_append_entries n [] t i own = own
  own_append_entries n (e ∷ es) t i own = law.own_append n (e ∷ es) t i own

  IsInOrder-appended : (p : Peer env) → IsInOrder env law p → IsInOrder env law (appended env p)
  IsInOrder-appended p = IsInOrder-node env law p (appended env p).raw_node λ t i own.
      own_append_entries (raft.get_ready p.raw_node).1 (raft.entries (ready_of env p)) t i
        (law.own_get_ready p.raw_node t i own)

  Round-IsInOrder :
      (p : Peer env) (m m' : Member env)
      → Round env p m'.peer m.net m'.net m.calls m'.calls
      → IsInOrder env law p
      → IsInOrder env law m'.peer
  Round-IsInOrder p m m' r o =
      let es = raft.committed_entries (ready_of env p) in
      let a = appended env p in
      let queue =
        process_entries-IsQueue env (IsOwn env law a.raw_node) es a r.applied m.calls m'.calls
          r.processed (IsInOrder-appended p o) in
      let node =
        (process_entries-SameBut env es a r.applied m.calls m'.calls r.processed).raw_node_same in
      rw r.advanced (
        IsInOrder-node env law r.applied (raft.advance r.applied.raw_node (ready_of env p))
          (law.own_advance r.applied.raw_node (ready_of env p))
          (queue.0, subst (λ n. All (IsOwn env law n) r.applied.proposals) (sym node) queue.1))

  pub happen-IsInOrder :
      (e : Event) (m m' : Member env)
      → happen env e m ≡ returned m'
      → AcceptsAt e m
      → IsInOrder env law m.peer
      → IsInOrder env law m'.peer
  happen-IsInOrder ticks m m' h a o =
      let o1 =
        IsInOrder-node env law m.peer (raft.tick m.peer.raw_node) (law.own_tick m.peer.raw_node)
          o in
      elim (ticks_inv env m m' h) [
        | inl i ↦ subst (IsInOrder env law) i.peer_same o1
        | inr (ready, r) ↦ Round-IsInOrder (ticked env m.peer) m m' r o1
      ]
  happen-IsInOrder (steps msg) m m' h a o =
      subst (λ (q : Member env). IsInOrder env law q.peer) (steps_inv env msg m m' h)
        (IsInOrder-node env law m.peer (raft.step m.peer.raw_node msg).1
          (law.own_step m.peer.raw_node msg a) o)
  happen-IsInOrder (proposes req resp done) m m' h a o =
      let (s, es, at) = proposes_inv env req resp done m m' h in
      subst (λ (q : Member env). IsInOrder env law q.peer) at
        (IsInOrder-proposed env law s resp done m.peer (a.accepted s es) a.room o)

  -- Where raft keeps to its leader append-only property, the messages that it is stepped with are those
  -- of correct servers, it accepts the requests that the peer makes as a leader, and its log has room
  -- for one more `uint64_t` index at each proposal: if the queue is in order at first, then after any
  -- history that returns it is in order, that is, it ascends strictly by term and index, without two
  -- proposals for one position, and each proposal in it has a place of the node's own in the log.
  pub run-IsInOrder :
      (es : List Event) (m m' : Member env)
      → run env es m ≡ returned m'
      → AcceptsAll es m
      → IsInOrder env law m.peer
      → IsInOrder env law m'.peer
  run-IsInOrder [] m m' h a o =
      subst (λ (q : Member env). IsInOrder env law q.peer) (run_nil env m m' h) o
  run-IsInOrder (e ∷ es) m m' h a o =
      let (m1, first, rest) = run_inv env e es m m' h in
      run-IsInOrder es m1 m' rest (rw first at a.1) (happen-IsInOrder e m m1 first a.0 o)
