-- ===== src/Server/Ends.antt =====
-- How a server's process ends without its destructors, by a fault or from outside: between two inputs,
-- or in the middle of a round of a local peer, which has sent some of its messages and applied some of
-- its entries.
use jkv.Base.{
  ℕ, ◌≡◌, refl, sym, ap, ◌∙◌, inl, inr, true, some, List, [], ◌∷◌, ◌++◌, returned, arith,
  Bool-cases, Table, find, assign, find-assign, ◌==◌, if◌then◌else◌,
}
use jkv.Proto.{Entry, Message}
use jkv.Calls.{Calls}
use jkv.Env.{Env}
use jkv.Clients.{Net}
use jkv.Storage.{LeveldbLaws}
use jkv.Storage.View.{IsReliable}
use jkv.Peer.State.{Peer}
use jkv.Peer.Send.{send_msgs}
use jkv.Peer.Apply.{process_entries}
use jkv.Peer.Apply.Machine.{seen_peer, process_entries-serve_entries}
use jkv.Peer.Ready.Frame.{ready_of, appended, process_entries-SameBut}
use jkv.Peer.History.Steps.{ticked}
use jkv.Server.{Server}
use jkv.Server.Identity.{IsKept}
use jkv.Server.Replica.{map_at, map_of_peer, serve_at, serve_at_nil}

module _ (env : Env) where
  open env use {raft, leveldb}

  -- The databases of these peers are left as they are.
  abbrev pub killed_peers : leveldb.Files → Table (Peer env) → leveldb.Files
  killed_peers fs [] = fs
  killed_peers fs ((i, p) ∷ m) = killed_peers (leveldb.killed fs p.kv_db.db_path p.kv_db.db) m

  -- The local peers and the messages sent when the process ends.
  pub data CutShort (s : Server env) : Table (Peer env) → Net env → Type 0 where
    between_inputs : CutShort s s.host.local_peers s.host.net
    in_a_round :
        (i : ℕ) (p q : Peer env) (c : Calls) (net : Net env) (ms ms' : List Message)
        (es es' : List Entry)
        → find i s.host.local_peers ≡ some p
        → raft.has_ready (ticked env p).raw_node ≡ true
        → raft.messages (ready_of env (ticked env p)) ≡ ms ++ ms'
        → send_msgs env (appended env (ticked env p)) ms s.host.net ≡ returned net
        → raft.committed_entries (ready_of env (ticked env p)) ≡ es ++ es'
        → process_entries env es (appended env (ticked env p)) s.calls ≡ returned (q, c)
        → CutShort s (assign i q s.host.local_peers) net

  -- The entries that the local peer `j` has applied of the round.
  abbrev pub applied_in :
      ℕ → {s : Server env} {m : Table (Peer env)} {n : Net env} → CutShort s m n → List Entry
  applied_in j between_inputs = []
  applied_in j (in_a_round i p q c net ms ms' es es' at ready out sent committed ran) =
      if i == j then es else []

  pub CutShort-Holds {κ} :
      (P : Table (Peer env) → Type κ)
      → IsKept env P
      → (s : Server env) (m : Table (Peer env)) (n : Net env) → CutShort s m n
      → P s.host.local_peers
      → P m
  CutShort-Holds P k s m n between_inputs held = held
  CutShort-Holds P k s m n (in_a_round i p q c net ms ms' es es' at ready out sent committed ran)
        held =
      let kept = process_entries-SameBut env es (appended env (ticked env p)) q s.calls c ran in
      k.kept i p q s.host.local_peers at
        (record {
          self_same = kept.self_same;
          peers_same = kept.peers_same;
          path_same = kept.path_same;
        })
        held

  module _ (reliable : IsReliable leveldb) (laws : LeveldbLaws leveldb) where
    pub CutShort-serve_at :
        (j : ℕ) (s : Server env) (m : Table (Peer env)) (n : Net env) (cut : CutShort s m n)
        → serve_at env j (applied_in j cut) (map_at env j s)
          ≡ returned (map_of_peer env j (find j m))
    CutShort-serve_at j s m n between_inputs = serve_at_nil env j (map_at env j s)
    CutShort-serve_at j s m n
          (in_a_round i p q c net ms ms' es es' at ready out sent committed ran) =
        elim (Bool-cases (i == j)) [
          | inl one ↦
              let same : i ≡ j = ground arith in
              let found : find j s.host.local_peers ≡ some p = rw (← same) at in
              let served =
                sym (
                  process_entries-serve_entries env reliable laws es (appended env (ticked env p))
                    s.calls)
                ∙ ap (seen_peer env) ran in
              rw (found, find-assign i j q s.host.local_peers, one, served) refl
          | inr other ↦
              rw (find-assign i j q s.host.local_peers, other) (serve_at_nil env j (map_at env j s))
        ]
