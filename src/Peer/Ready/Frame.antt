-- ===== src/Peer/Ready/Frame.antt =====
-- What a round of the raft node goes through, and what it leaves alone.
use mathlib.Core.Path.{subst}
use jkv.Base.{
  ◌≡◌, refl, sym, ap, ◌∙◌, ◌⊎◌, inl, inr, true, false, List, [], ◌∷◌, returned, >>=-eq-returned,
  arith, is_empty, if◌then◌else◌, Bool-cases,
}
use jkv.Proto.{Entry, Message}
use jkv.Calls.{Calls}
use jkv.Env.{Env}
use jkv.Clients.{Net}
use jkv.Peer.State.{Peer}
use jkv.Peer.Apply.{process_entries, process_entry}
use jkv.Peer.Apply.Steps.{
  process_by_type_path, process_entry_inv, process_entries_nil, process_entries_inv,
}
use jkv.Peer.Send.{send_msgs}
use jkv.Peer.Ready.{append_entries, handle_ready, handle_raft_ready}

module _ (env : Env) where
  open env use {raft}

  -- The parts of a peer that applying entries does not write.
  pub record SameBut (p p' : Peer env) : Type 0 where
    pub self_same : p'.self ≡ p.self
    pub worker_same : p'.worker ≡ p.worker
    pub peers_same : p'.peers ≡ p.peers
    pub raw_node_same : p'.raw_node ≡ p.raw_node
    pub path_same : p'.kv_db.db_path ≡ p.kv_db.db_path

  SameBut-refl : (p : Peer env) → SameBut p p
  SameBut-refl p = record {
    self_same = refl;
    worker_same = refl;
    peers_same = refl;
    raw_node_same = refl;
    path_same = refl;
  }

  process_entry-SameBut :
      (e : Entry) (p p' : Peer env) (c c' : Calls)
      → process_entry env e p c ≡ returned (p', c')
      → SameBut p p'
  process_entry-SameBut e p p' c c' h =
      let (db, ran, at) = process_entry_inv env e p p' c c' h in
      let kept = process_by_type_path env e.type e _ p.kv_db db _ c' ran in
      rw at (record {
        self_same = refl;
        worker_same = refl;
        peers_same = refl;
        raw_node_same = refl;
        path_same = kept;
      })

  -- Applying entries touches neither the raft node nor the member table nor the peer's identity.
  pub process_entries-SameBut :
      (es : List Entry) (p p' : Peer env) (c c' : Calls)
      → process_entries env es p c ≡ returned (p', c')
      → SameBut p p'
  process_entries-SameBut [] p p' c c' h =
      let (same, _) = process_entries_nil env p p' c c' h in subst (SameBut p) same (SameBut-refl p)
  process_entries-SameBut (e ∷ es) p p' c c' h =
      let (q, cq, first, rest) = process_entries_inv env e es p p' c c' h in
      let a = process_entry-SameBut e p q c cq first in
      let b = process_entries-SameBut es q p' cq c' rest in
      record {
        self_same = b.self_same ∙ a.self_same;
        worker_same = b.worker_same ∙ a.worker_same;
        peers_same = b.peers_same ∙ a.peers_same;
        raw_node_same = b.raw_node_same ∙ a.raw_node_same;
        path_same = b.path_same ∙ a.path_same;
      }

  -- The tests for an empty list only save a call that would do nothing.
  pub process_entries_guard :
      (es : List Entry) (p : Peer env) (c : Calls)
      → (if is_empty es then returned (p, c) else process_entries env es p c)
        ≡ process_entries env es p c
  unfolding process_entries
  process_entries_guard [] p c = refl
  process_entries_guard (e ∷ es) p c = refl

  pub send_msgs_guard :
      (ms : List Message) (p : Peer env) (net : Net env)
      → (if is_empty ms then returned net else send_msgs env p ms net) ≡ send_msgs env p ms net
  unfolding send_msgs
  send_msgs_guard [] p net = refl
  send_msgs_guard (m ∷ ms) p net = refl

  -- The peer whose storage has taken the entries of a `Ready`.
  abbrev pub appended : Peer env → Peer env
  appended p =
      let (rd, n) = raft.get_ready p.raw_node in
      record p { raw_node = append_entries env n (raft.entries rd) }

  abbrev pub ready_of : Peer env → raft.Ready
  ready_of p = (raft.get_ready p.raw_node).0

  -- A round with something ready: its messages are sent and its committed entries applied, by the peer
  -- whose storage has taken the new entries; then the node advances.
  pub record Round (p p' : Peer env) (net net' : Net env) (c c' : Calls) : Type 0 where
    pub applied : Peer env
    pub sent : send_msgs env (appended p) (raft.messages (ready_of p)) net ≡ returned net'
    pub processed :
        process_entries env (raft.committed_entries (ready_of p)) (appended p) c
        ≡ returned (applied, c')
    pub advanced : p' ≡ record applied { raw_node = raft.advance applied.raw_node (ready_of p) }

  handle_ready_inv :
      (p p' : Peer env) (net net' : Net env) (c c' : Calls)
      → handle_ready env (ready_of p) (record p { raw_node = (raft.get_ready p.raw_node).1 }) net c
        ≡ returned (p', net', c')
      → Round p p' net net' c c'
  unfolding handle_ready
  handle_ready_inv p p' net net' c c' h =
      let ms = raft.messages (ready_of p) in
      let es = raft.committed_entries (ready_of p) in
      let (n1, snt, e1) =
        >>=-eq-returned (if is_empty ms then returned net else send_msgs env (appended p) ms net) _
          h in
      let (x, ran, e2) =
        >>=-eq-returned
          (if is_empty es then returned (appended p, c) else process_entries env es (appended p) c)
          _ e1 in
      let same_net : n1 ≡ net' = ground (arith, e2) in
      let same_calls : x.1 ≡ c' = ground (arith, e2) in
      record {
        applied = x.0;
        sent = sym (send_msgs_guard ms (appended p) net) ∙ snt ∙ ap returned same_net;
        processed =
            sym (process_entries_guard es (appended p) c)
            ∙ ran
            ∙ ap (λ (k : Calls). returned (x.0, k)) same_calls;
        advanced = ground (arith, e2);
      }

  -- When `HandleRaftReady` returns, either nothing was ready and nothing has changed, or the messages
  -- were sent and the committed entries applied by the peer whose storage had taken the new entries,
  -- and then the node advanced.
  pub handle_raft_ready_inv :
      (p p' : Peer env) (net net' : Net env) (c c' : Calls)
      → handle_raft_ready env p net c ≡ returned (p', net', c')
      → ((raft.has_ready p.raw_node ≡ false) × (p ≡ p') × (net ≡ net') × (c ≡ c'))
        ⊎ ((raft.has_ready p.raw_node ≡ true) × Round p p' net net' c c')
  unfolding handle_raft_ready
  handle_raft_ready_inv p p' net net' c c' h = elim (Bool-cases (raft.has_ready p.raw_node)) [
    | inl ready ↦ inr (ready, handle_ready_inv p p' net net' c c' (rw ready at h))
    | inr idle ↦ inl (idle, ground arith, ground arith, ground arith)
  ]
