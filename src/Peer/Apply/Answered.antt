-- ===== src/Peer/Apply/Answered.antt =====
-- A client's request from the proposal to the answer.
use jkv.Base.{
  ℕ, ◌+◌, ◌^◌, ◌<◌, ◌≡◌, refl, sym, ap, ◌∙◌, true, some, List, [], ◌∷◌, ◌++◌, arith, returned, All,
  All-map, filter, find_first, Bytes,
}
use jkv.Proto.{KvReq, Entry, entry_normal}
use jkv.Calls.{Calls}
use jkv.Env.{Env}
use jkv.Storage.{DiskStorage}
use jkv.Storage.View.{view}
use jkv.Peer.State.{Peer}
use jkv.Peer.Proposals.{Proposal, Got, callback_all}
use jkv.Peer.Proposals.Order.{
  Precedes, IsAscending-append, is_earlier, is_exact, is_later, split_at,
}
use jkv.Peer.Propose.{new_proposal, propose_kv_op, next_proposal_index}
use jkv.Peer.Propose.Steps.{propose_kv_op_inv}
use jkv.Peer.Propose.Queue.{LeaderAppendOnly, IsInOrder, new_proposal-last}
use jkv.Peer.Apply.{process_entry}
use jkv.Peer.Apply.Replies.{replies_to, leader_replies}

-- At the position of its last proposal a queue is split into that and all before.
module _ (x : Proposal) where
  abbrev Before : List Proposal → Type 0
  Before ps = All (λ q. Precedes q x) ps

  find_first-last :
      (ps : List Proposal)
      → Before ps
      → find_first (is_exact x.index x.term) (ps ++ x ∷ []) ≡ some x
  find_first-last [] h = ground arith
  find_first-last (p ∷ ps) h = ground (arith, find_first-last ps h.1)

  later-last :
      (ps : List Proposal) → Before ps → filter (is_later x.index x.term) (ps ++ x ∷ []) ≡ []
  later-last [] h = ground arith
  later-last (p ∷ ps) h = ground (arith, later-last ps h.1)

  earlier-last :
      (ps : List Proposal) → Before ps → filter (is_earlier x.index x.term) (ps ++ x ∷ []) ≡ ps
  earlier-last [] h = ground arith
  earlier-last (p ∷ ps) h = ground (arith, earlier-last ps h.1)

  split_at-last :
      (ps : List Proposal) (c : Calls)
      → Before ps
      → split_at x.index x.term (ps ++ x ∷ []) c
        ≡ record { found = some x; proposals = []; calls = callback_all ps c }
  split_at-last ps c h = rw (find_first-last ps h, later-last ps h, earlier-last ps h) refl

module _ (env : Env) (law : LeaderAppendOnly env.raft) where
  open env use {raft, codec}

  -- The entry that raft makes of a request behind the end of its log.
  abbrev pub entry_for : Peer env → Bytes → Entry
  entry_for p s = record {
    type = entry_normal;
    term = raft.term p.raw_node;
    index = next_proposal_index env p;
    payload = s;
  }

  -- On a leader whose queue is in order and whose log has room: when the entry that raft makes of a
  -- request behind the end of the log is the next one to be applied after the request was proposed, and
  -- the peer still leads, the client of the request is sent what it is owed on the map as it is then,
  -- after all that waited before it have been rejected, and nobody waits any more.
  pub propose_kv_op-process_entry :
      (req : KvReq) (s : Bytes) (resp done : ℕ) (p p1 p2 : Peer env) (c c' : Calls)
      → raft.is_leader p.raw_node ≡ true
      → IsInOrder env law p
      → raft.last_index p.raw_node + 1 < 2 ^ 64
      → codec.serialize req ≡ some s
      → propose_kv_op env req resp done p ≡ returned p1
      → raft.is_leader p1.raw_node ≡ true
      → process_entry env (entry_for p s) p1 c ≡ returned (p2, c')
      → let before = callback_all p.proposals c in
        (p2.proposals ≡ [])
        × (c'.replies
            ≡ replies_to req req.cmd_type
                (view env.leveldb p.kv_db)
                before
                (some (new_proposal env p resp done))
              ++ before.replies)
  propose_kv_op-process_entry req s resp done p p1 p2 c c' leads order room ser ran still h =
      let x = new_proposal env p resp done in
      let (_, _, at) = propose_kv_op_inv env req resp done p p1 ran in
      let queue : p1.proposals ≡ p.proposals ++ x ∷ [] =
        sym (ap (λ (q : Peer env). q.proposals) at) ∙ rw leads refl in
      let same_db : p1.kv_db ≡ p.kv_db = sym (ap (λ (q : Peer env). q.kv_db) at) in
      let olds = All-map p.proposals (new_proposal-last env law p resp done room) order.1 in
      let cut = split_at-last x p.proposals c olds in
      let said =
        leader_replies env (entry_for p s) req p1 p2 c c' still
          (rw queue (IsAscending-append x p.proposals order.0 olds)) refl
          (codec.parse-serialize req s ser) h in
      let split : split_at x.index x.term p1.proposals c ≡ _ =
        ap (λ (qs : List Proposal). split_at x.index x.term qs c) queue ∙ cut in
      let before = callback_all p.proposals c in
      (
        said.0 ∙ ap (λ (g : Got). g.proposals) split,
        said.1
            ∙ ap
                (λ (g : Got).
                  replies_to req req.cmd_type (view env.leveldb p1.kv_db) g.calls g.found
                  ++ g.calls.replies)
                split
            ∙ ap
                (λ (db : DiskStorage env.leveldb).
                  replies_to req req.cmd_type (view env.leveldb db) before (some x)
                  ++ before.replies)
                same_db,
      )
