-- ===== src/Peer/Propose/Dropped.antt =====
-- What follows from not looking at what `Propose` returns, at the end of `Peer::ProposeKvOp`.
use jkv.Base.{ℕ, ◌≡◌, refl, true, some, [], ◌∷◌, returned, Bytes, ==_refl, ◌>>=◌}
use jkv.Proto.{KvReq}
use jkv.Calls.{Calls}
use jkv.Env.{Env}
use jkv.Peer.State.{Peer}
use jkv.Peer.Proposals.{get_proposal}
use jkv.Peer.Propose.{next_proposal_index, new_proposal, propose_kv_op}

module _ (env : Env) where
  open env use {raft, codec}

  -- On a leader with an empty queue, when raft drops a request and leaves the node as it was, the next
  -- request gets the same place in the queue's order; and for the entry that raft makes at this place
  -- the queue hands out the proposal of the dropped request, and keeps that of the next one.
  pub propose_kv_op_dropped :
      (req1 req2 : KvReq) (s1 s2 : Bytes) (resp1 done1 resp2 done2 : ℕ) (p : Peer env) (c : Calls)
      → codec.serialize req1 ≡ some s1
      → codec.serialize req2 ≡ some s2
      → raft.is_leader p.raw_node ≡ true
      → p.proposals ≡ []
      → (raft.propose p.raw_node s1).1 ≡ p.raw_node
      → (p2 : Peer env) × (◌>>=◌ {A = Peer env}
            (propose_kv_op env req1 resp1 done1 p)
            (propose_kv_op env req2 resp2 done2)
          ≡ returned p2)
        × (p2.raw_node ≡ (raft.propose p.raw_node s2).1)
        × (get_proposal (next_proposal_index env p) (raft.term p.raw_node) p2.proposals c ≡ record {
          found = some (new_proposal env p resp1 done1);
          proposals = new_proposal env p resp2 done2 ∷ [];
          calls = c;
        })
  unfolding propose_kv_op get_proposal
  propose_kv_op_dropped req1 req2 s1 s2 resp1 done1 resp2 done2 p c e1 e2 leads none_yet dropped = (
    record p {
      proposals = new_proposal env p resp1 done1 ∷ new_proposal env p resp2 done2 ∷ [];
      raw_node = (raft.propose p.raw_node s2).1;
    },
    rw (e1, e2, leads, none_yet, dropped, leads) refl,
    refl,
    rw (==_refl (raft.term p.raw_node), ==_refl (next_proposal_index env p)) refl,
  )
