-- ===== src/Peer/Propose/Steps.antt =====
-- What a call of `propose_kv_op` that returns went through.
use jkv.Base.{ℕ, ◌≡◌, some, returned, arith, Bytes, Option-cases, inl, inr}
use jkv.Proto.{KvReq}
use jkv.Env.{Env}
use jkv.Peer.State.{Peer}
use jkv.Peer.Propose.{queue_of, propose_kv_op}

module _ (env : Env) where
  -- The peer after a request with these bytes.
  abbrev pub proposed : Bytes → ℕ → ℕ → Peer env → Peer env
  proposed s resp done p = record p {
    proposals = queue_of env p resp done;
    raw_node = (env.raft.propose p.raw_node s).1;
  }

  pub propose_kv_op_inv :
      (req : KvReq) (resp done : ℕ) (p p' : Peer env)
      → propose_kv_op env req resp done p ≡ returned p'
      → (s : Bytes) × (env.codec.serialize req ≡ some s) × (proposed s resp done p ≡ p')
  unfolding propose_kv_op
  propose_kv_op_inv req resp done p p' h = elim (Option-cases (env.codec.serialize req)) [
    | inl e ↦ absurd (cc (rw e at h))
    | inr (s, e) ↦ (s, e, ground (arith, rw e at h))
  ]
