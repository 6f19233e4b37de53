-- ===== src/Peer/Apply/Queue.antt =====
-- Applying entries keeps the queue in order.
use jkv.Base.{◌≡◌, Bool, true, false, List, [], ◌∷◌, All, returned}
use jkv.Proto.{Entry}
use jkv.Calls.{Calls}
use jkv.Env.{Env}
use jkv.Peer.Proposals.{Proposal}
use jkv.Peer.Proposals.Order.{IsAscending, get_proposal-IsAscending}
use jkv.Peer.State.{Peer}
use jkv.Peer.Apply.{take_proposal, process_entry, process_entries}
use jkv.Peer.Apply.Steps.{process_entry_inv, process_entries_nil, process_entries_inv}

module _ (env : Env) (P : Proposal → Type 0) where
  -- An ascending queue of proposals with the property.
  abbrev pub IsQueue : List Proposal → Type 0
  IsQueue ps = IsAscending ps × All P ps

  take_proposal-IsQueue :
      (leader : Bool) (e : Entry) (ps : List Proposal) (c : Calls)
      → IsQueue ps
      → IsQueue (take_proposal env leader e ps c).proposals
  take_proposal-IsQueue true e ps c h = get_proposal-IsAscending P e.index e.term ps c h.0 h.1
  take_proposal-IsQueue false e ps c h = (tt, tt)

  process_entry-IsQueue :
      (e : Entry) (p p' : Peer env) (c c' : Calls)
      → process_entry env e p c ≡ returned (p', c')
      → IsQueue p.proposals
      → IsQueue p'.proposals
  process_entry-IsQueue e p p' c c' h q =
      let (db, ran, at) = process_entry_inv env e p p' c c' h in
      rw at (take_proposal-IsQueue (env.raft.is_leader p.raw_node) e p.proposals c q)

  pub process_entries-IsQueue :
      (es : List Entry) (p p' : Peer env) (c c' : Calls)
      → process_entries env es p c ≡ returned (p', c')
      → IsQueue p.proposals
      → IsQueue p'.proposals
  process_entries-IsQueue [] p p' c c' h q =
      let (same, _) = process_entries_nil env p p' c c' h in rw (← same) q
  process_entries-IsQueue (e ∷ es) p p' c c' h q =
      let (p1, c1, first, rest) = process_entries_inv env e es p p' c c' h in
      process_entries-IsQueue es p1 p' c1 c' rest (process_entry-IsQueue e p p1 c c1 first q)
