-- ===== src/Peer/Propose/Queue.antt =====
-- The queue and raft's log: proposals wait in the order of their positions in the log.
use jkv.Base.{
  ℕ, ◌+◌, ◌^◌, ◌<◌, ◌≤◌, ◌≡◌, ◌⊎◌, inl, inr, true, some, List, [], ◌∷◌, All, All-map, All-append,
  arith, Bool-cases, Bytes,
}
use jkv.Proto.{KvReq, Message, Entry, ok}
use jkv.Env.{Env, Raft}
use jkv.Peer.Proposals.{Proposal}
use jkv.Peer.Proposals.Order.{Precedes, IsAscending, IsAscending-append}
use jkv.Peer.State.{Peer}
use jkv.Peer.Propose.{new_proposal}
use jkv.Peer.Propose.Steps.{proposed}
use mathlib.Core.Path.{subst}

-- Raft's leader append-only property. `Sound n m` says that a node in the state `n` may be sent `m`: it
-- stands for the messages that correct servers of the group send. `Own n t i` says that the node, leading in term `t`, has put an
-- entry at index `i`. Such an entry lies in an older term than the node's, or within its log; no
-- operation takes it back; and a proposal that a leader accepts makes one behind the end of its log.
pub record LeaderAppendOnly (raft : Raft) : Type 1 where
  pub Sound : raft.Node → Message → Type 0
  pub Own : raft.Node → ℕ → ℕ → Type 0
  pub own_bound :
      (n : raft.Node) (t i : ℕ)
      → Own n t i
      → (t < raft.term n) ⊎ ((t ≡ raft.term n) × (i ≤ raft.last_index n))
  pub own_tick : (n : raft.Node) (t i : ℕ) → Own n t i → Own (raft.tick n) t i
  pub own_step :
      (n : raft.Node) (m : Message) → Sound n m → (t i : ℕ) → Own n t i → Own (raft.step n m).1 t i
  pub own_propose : (n : raft.Node) (s : Bytes) (t i : ℕ) → Own n t i → Own (raft.propose n s).1 t i
  pub own_get_ready : (n : raft.Node) (t i : ℕ) → Own n t i → Own (raft.get_ready n).1 t i
  pub own_append :
      (n : raft.Node) (es : List Entry) (t i : ℕ) → Own n t i → Own (raft.append n es) t i
  pub own_advance :
      (n : raft.Node) (rd : raft.Ready) (t i : ℕ) → Own n t i → Own (raft.advance n rd) t i
  pub own_new :
      (n : raft.Node) (s : Bytes)
      → raft.is_leader n ≡ true
      → (raft.propose n s).0 ≡ ok
      → Own (raft.propose n s).1 (raft.term n) (raft.last_index n + 1)

module _ (env : Env) (law : LeaderAppendOnly env.raft) where
  open env use {raft, codec}

  abbrev pub IsOwn : raft.Node → Proposal → Type 0
  IsOwn n q = law.Own n q.term q.index

  -- The queue ascends, and each proposal in it has a place of the node's own in the log.
  abbrev pub IsInOrder : Peer env → Type 0
  IsInOrder p = IsAscending p.proposals × All (IsOwn p.raw_node) p.proposals

  -- Raft takes the request, if this peer leads, and the log has room for one more `uint64_t` index.
  pub record Accepts (req : KvReq) (p : Peer env) : Type 0 where
    pub accepted :
        (s : Bytes)
        → codec.serialize req ≡ some s
        → raft.is_leader p.raw_node ≡ true
        → (raft.propose p.raw_node s).0 ≡ ok
    pub room : raft.last_index p.raw_node + 1 < 2 ^ 64

  pub new_proposal-last :
      (p : Peer env) (resp done : ℕ)
      → raft.last_index p.raw_node + 1 < 2 ^ 64
      → (q : Proposal) → IsOwn p.raw_node q
      → Precedes q (new_proposal env p resp done)
  new_proposal-last p resp done room q own =
      ground (arith, law.own_bound p.raw_node q.term q.index own)

  -- Whatever raft does to the node that keeps what is its own keeps the queue in order.
  pub IsInOrder-node :
      (p : Peer env) (n : raft.Node)
      → ((t i : ℕ) → law.Own p.raw_node t i → law.Own n t i)
      → IsInOrder p
      → IsInOrder (record p { raw_node = n })
  IsInOrder-node p n keep o = (o.0, All-map p.proposals (λ q own. keep q.term q.index own) o.1)

  -- A request that raft accepts keeps the queue in order.
  pub IsInOrder-proposed :
      (s : Bytes) (resp done : ℕ) (p : Peer env)
      → (raft.is_leader p.raw_node ≡ true → (raft.propose p.raw_node s).0 ≡ ok)
      → raft.last_index p.raw_node + 1 < 2 ^ 64
      → IsInOrder p
      → IsInOrder (proposed env s resp done p)
  IsInOrder-proposed s resp done p acc room o =
      let n = (raft.propose p.raw_node s).1 in
      let x = new_proposal env p resp done in
      let olds = IsInOrder-node p n (law.own_propose p.raw_node s) o in
      elim (Bool-cases (raft.is_leader p.raw_node)) [
        | inl leads ↦
            let own : IsOwn n x =
              subst (λ i. law.Own n (raft.term p.raw_node) i) (omega arith)
                (law.own_new p.raw_node s leads (acc leads)) in
            rw leads (
              IsAscending-append x p.proposals o.0
                  (All-map p.proposals (new_proposal-last p resp done room) o.1),
              All-append (IsOwn n) p.proposals (x ∷ []) olds.1 (own, tt),
            )
        | inr follows ↦ rw follows olds
      ]
