-- ===== src/Peer/Propose/Backed.antt =====
-- The proposals that wait, and what raft's log holds at their positions.
use jkv.Base.{
  ℕ, ◌+◌, ◌^◌, ◌<◌, ◌≡◌, inl, inr, true, some, List, [], ◌∷◌, All, All-map, All-append, arith,
  Bool-cases, Bytes,
}
use mathlib.Core.Path.{subst}
use jkv.Proto.{KvReq, Message, Entry, ok}
use jkv.Env.{Env, Raft}
use jkv.Peer.Proposals.{Proposal}
use jkv.Peer.State.{Peer}
use jkv.Peer.Propose.{new_proposal}
use jkv.Peer.Propose.Steps.{proposed}

-- Raft's log matching property, for what a leader appends. `Sound n m` says that a node in the state `n`
-- may be sent `m`: it stands for the messages that correct servers of the group send. `Put n t i s` says that the node, leading in
-- term `t`, has put an entry with the bytes `s` at index `i`. No operation takes that back; a proposal
-- that a leader accepts is put behind the end of its log; and an entry that is committed at this term
-- and index holds these bytes.
pub record LogMatching (raft : Raft) : Type 1 where
  pub Sound : raft.Node → Message → Type 0
  pub Put : raft.Node → ℕ → ℕ → Bytes → Type 0
  pub put_tick : (n : raft.Node) (t i : ℕ) (s : Bytes) → Put n t i s → Put (raft.tick n) t i s
  pub put_step :
      (n : raft.Node) (m : Message)
      → Sound n m
      → (t i : ℕ) (s : Bytes) → Put n t i s
      → Put (raft.step n m).1 t i s
  pub put_propose :
      (n : raft.Node) (b : Bytes) (t i : ℕ) (s : Bytes)
      → Put n t i s
      → Put (raft.propose n b).1 t i s
  pub put_get_ready :
      (n : raft.Node) (t i : ℕ) (s : Bytes) → Put n t i s → Put (raft.get_ready n).1 t i s
  pub put_append :
      (n : raft.Node) (es : List Entry) (t i : ℕ) (s : Bytes)
      → Put n t i s
      → Put (raft.append n es) t i s
  pub put_advance :
      (n : raft.Node) (rd : raft.Ready) (t i : ℕ) (s : Bytes)
      → Put n t i s
      → Put (raft.advance n rd) t i s
  pub put_new :
      (n : raft.Node) (s : Bytes)
      → raft.is_leader n ≡ true
      → (raft.propose n s).0 ≡ ok
      → Put (raft.propose n s).1 (raft.term n) (raft.last_index n + 1) s
  pub put_committed :
      (n : raft.Node) (t i : ℕ) (s : Bytes)
      → Put n t i s
      → All
          (λ (e : Entry). e.term ≡ t → e.index ≡ i → e.payload ≡ s)
          (raft.committed_entries (raft.get_ready n).0)

module _ (env : Env) (law : LogMatching env.raft) (Asks : ℕ → KvReq → Type 0) where
  open env use {raft, codec}

  -- The node has put the request of the proposal's client at its position; `Asks d r` says that the
  -- closure `d` is that of a call with the request `r`.
  abbrev pub IsBacked : raft.Node → Proposal → Type 0
  IsBacked n q =
      (req : KvReq) × (s : Bytes) × (codec.serialize req ≡ some s)
      × law.Put n q.term q.index s
      × Asks q.done req

  pub All-IsBacked :
      (n n' : raft.Node) (ps : List Proposal)
      → ((t i : ℕ) (s : Bytes) → law.Put n t i s → law.Put n' t i s)
      → All (IsBacked n) ps
      → All (IsBacked n') ps
  All-IsBacked n n' ps keep = All-map ps (λ q b. (b.0, b.1, b.2, keep q.term q.index b.1 b.3, b.4))

  -- A request that raft accepts is backed.
  pub proposed-IsBacked :
      (req : KvReq) (s : Bytes) (resp done : ℕ) (p : Peer env)
      → codec.serialize req ≡ some s
      → Asks done req
      → (raft.is_leader p.raw_node ≡ true → (raft.propose p.raw_node s).0 ≡ ok)
      → raft.last_index p.raw_node + 1 < 2 ^ 64
      → All (IsBacked p.raw_node) p.proposals
      → let p' = proposed env s resp done p in All (IsBacked p'.raw_node) p'.proposals
  proposed-IsBacked req s resp done p ser asks acc room h =
      let n = (raft.propose p.raw_node s).1 in
      let x = new_proposal env p resp done in
      let olds = All-IsBacked p.raw_node n p.proposals (law.put_propose p.raw_node s) h in
      elim (Bool-cases (raft.is_leader p.raw_node)) [
        | inl leads ↦
            let put : law.Put n x.term x.index s =
              subst (λ i. law.Put n (raft.term p.raw_node) i s) (omega arith)
                (law.put_new p.raw_node s leads (acc leads)) in
            rw leads
              (All-append (IsBacked n) p.proposals (x ∷ []) olds ((req, s, ser, put, asks), tt))
        | inr follows ↦ rw follows olds
      ]
