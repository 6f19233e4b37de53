-- ===== src/Server/Answers.antt =====
-- What the service does with a request on every branch of `KvOpCb`.
use jkv.Base.{
  ℕ, ◌≡◌, refl, ◌⊎◌, inl, inr, true, false, none, some, [], ◌∷◌, ◌++◌, returned, fatal, Bool-cases,
  Option-cases, find, Bytes, no_peer, not_serialized, ==_refl, Outcome,
}
use jkv.Proto.{KvReq}
use jkv.Calls.{set_rejected, run}
use jkv.Env.{Env}
use jkv.Peer.State.{Peer}
use jkv.Peer.Propose.{propose_kv_op, new_proposal}
use jkv.Server.{Server, put_peer, kv_op_on, run_kv_op}

module _ (env : Env) (req : KvReq) (resp done : ℕ) (s : Server env) where
  open env use {raft, codec}

  -- The client has its answer, marked as rejected, and nothing else has changed but its response.
  pub record Rejected (s' : Server env) : Type 0 where
    pub reply :
        s'.calls.replies ≡ (done, record (s.calls.resp resp) { rejected = true }) ∷ s.calls.replies
    pub rest_same : s' ≡ record s { calls = s'.calls }

  -- Peer 1 has the request at the end of its queue, with the place behind the end of its log, and
  -- nothing has been answered.
  pub record Queued (p : Peer env) (s' : Server env) : Type 0 where
    pub bytes : Bytes
    pub serialized : codec.serialize req ≡ some bytes
    pub queue : Peer env
    pub queue_at : queue.proposals ≡ p.proposals ++ new_proposal env p resp done ∷ []
    pub node_at : queue.raw_node ≡ (raft.propose p.raw_node bytes).1
    pub map_same : queue.kv_db ≡ p.kv_db
    pub put : s' ≡ put_peer env 1 queue s

  abbrev pub AsLeader : Peer env → Outcome (Server env) → Type 0
  AsLeader p o =
      ((codec.serialize req ≡ none) × (o ≡ fatal not_serialized))
      ⊎ ((s' : Server env) × (o ≡ returned s') × Queued p s')

  -- What becomes of the request.
  abbrev pub Answers : Type 0
  Answers =
      ((find 1 s.host.local_peers ≡ none) × (run_kv_op env req resp done s ≡ fatal no_peer))
      ⊎ ((p : Peer env) × (find 1 s.host.local_peers ≡ some p)
          × (((raft.is_leader p.raw_node ≡ false)
                × (s' : Server env) × (run_kv_op env req resp done s ≡ returned s')
                × Rejected s')
              ⊎ ((raft.is_leader p.raw_node ≡ true) × AsLeader p (run_kv_op env req resp done s))))

  as_leader :
      (p : Peer env)
      → raft.is_leader p.raw_node ≡ true
      → AsLeader p (kv_op_on env req resp done s p)
  unfolding kv_op_on propose_kv_op
  as_leader p leads = elim (Option-cases (codec.serialize req)) [
    | inl e ↦ inl (e, rw (leads, e) refl)
    | inr (b, e) ↦ inr (
      _,
      rw (leads, e) refl,
      record {
        bytes = b;
        serialized = e;
        queue = record p {
          proposals = p.proposals ++ new_proposal env p resp done ∷ [];
          raw_node = (raft.propose p.raw_node b).1;
        };
        queue_at = refl;
        node_at = refl;
        map_same = refl;
        put = refl;
      },
    )
  ]

  -- `KvOpCb` aborts if there is no peer 1, or if it leads and the request cannot be serialized; on a
  -- leader it queues the request and answers nobody; on any other it answers with a rejection at once.
  pub run_kv_op_lem : Answers
  unfolding run_kv_op kv_op_on
  run_kv_op_lem = elim (Option-cases (find 1 s.host.local_peers)) [
    | inl e ↦ inl (e, rw e refl)
    | inr (p, e) ↦ inr (
      p,
      e,
      elim (Bool-cases (raft.is_leader p.raw_node)) [
        | inl leads ↦ inr (leads, rw e (as_leader p leads))
        | inr follows ↦ inl (
          follows,
          record s { calls = run done resp (set_rejected resp s.calls) },
          rw (e, follows) refl,
          record { reply = rw (==_refl resp) refl; rest_same = refl },
        )
      ],
    )
  ]
