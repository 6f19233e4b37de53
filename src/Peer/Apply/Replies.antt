-- ===== src/Peer/Apply/Replies.antt =====
-- What the clients are sent while one committed entry is applied.
use mathlib.Core.List.{reverse}
use jkv.Base.{
  ℕ, ◌≡◌, refl, inl, inr, sym, ap, ◌∙◌, true, false, Option, none, some, List, [], ◌∷◌, ◌++◌,
  Outcome, returned, fatal, arith, >>=-eq-returned, Option-cases, Bytes, map,
}
use jkv.Proto.{KvReq, KvResp, CmdType, Entry, EntryType, entry_normal, entry_conf_change}
use jkv.Calls.{Calls}
use jkv.Env.{Env}
use jkv.Storage.{DiskStorage}
use jkv.Storage
use jkv.Storage.View.{Map, view, view_of-get}
use jkv.Peer.Proposals.{Proposal, Got}
use jkv.Peer.Proposals.Account.{rejection, replies-callback_all}
use jkv.Peer.Proposals.Order.{IsAscending, split_at, get_proposal-split_at}
use jkv.Peer.State.{Peer}
use jkv.Peer.Apply.{
  finish_get, process_req, process_normal, process_by_type, process_entry, take_proposal,
}
use jkv.Peer.Apply.Steps.{process_entry_inv}

-- The response to a read, by what the map holds at the key.
abbrev pub read_reply : Option Bytes → KvResp → KvResp
read_reply none r = r
read_reply (some v) r = record r { get_resp = some (record { value = v }) }

-- The reply that a request on a map owes to its proposal: a read is answered with the value in the map,
-- a write or a deletion with the response as it is, and a `kInvalid` request with nothing.
abbrev pub replies_to : KvReq → CmdType → Map → Calls → Option Proposal → List (ℕ × KvResp)
replies_to req t m c none = []
replies_to req CmdType.invalid m c (some p) = []
replies_to req CmdType.get m c (some p) =
    (p.done, read_reply (m req.get_req.key) (c.resp p.resp)) ∷ []
replies_to req CmdType.put m c (some p) = (p.done, c.resp p.resp) ∷ []
replies_to req CmdType.del m c (some p) = (p.done, c.resp p.resp) ∷ []
replies_to req (CmdType.unknown n) m c (some p) = []

module _ (env : Env) where
  replies-finish_get :
      (req : KvReq) (q : Option Proposal) (m : Map) (v : Bytes) (c : Calls)
      → m req.get_req.key ≡ some v
      → (finish_get q v c).replies ≡ replies_to req CmdType.get m c q ++ c.replies
  replies-finish_get req none m v c h = refl
  replies-finish_get req (some p) m v c h = rw h (ground arith)

  abbrev replies_after : Outcome (DiskStorage env.leveldb × Calls) → List (ℕ × KvResp)
  replies_after (returned (db, c)) = c.replies
  replies_after (fatal e) = []

  replies-process_req :
      (req : KvReq) (t : CmdType) (q : Option Proposal) (db db' : DiskStorage env.leveldb)
      (c c' : Calls)
      → process_req env req t q db c ≡ returned (db', c')
      → c'.replies ≡ replies_to req t (view env.leveldb db) c q ++ c.replies
  unfolding process_req
  replies-process_req req CmdType.invalid q db db' c c' h = ground arith
  replies-process_req req CmdType.get q db db' c c' h =
      let (v, got, e) = >>=-eq-returned (Storage.get env.leveldb db req.get_req.key) _ h in
      ap (λ (x : Outcome (DiskStorage env.leveldb × Calls)). replies_after x) (sym e)
      ∙ replies-finish_get req q (view env.leveldb db) v c
          (view_of-get env.leveldb db req.get_req.key v got)
  replies-process_req req CmdType.put q db db' c c' h = ground arith
  replies-process_req req CmdType.del q db db' c c' h = ground arith
  replies-process_req req (CmdType.unknown n) q db db' c c' h = absurd (cc)

  pub replies-process_normal :
      (e : Entry) (req : KvReq) (q : Option Proposal) (db db' : DiskStorage env.leveldb)
      (c c' : Calls)
      → env.codec.parse e.payload ≡ some req
      → process_normal env e q db c ≡ returned (db', c')
      → c'.replies ≡ replies_to req req.cmd_type (view env.leveldb db) c q ++ c.replies
  unfolding process_normal
  replies-process_normal e req q db db' c c' parsed h =
      replies-process_req req req.cmd_type q db db' c c' (rw parsed at h)

  pub process_by_type_normal :
      (t : EntryType) (e : Entry) (q : Option Proposal) (db : DiskStorage env.leveldb) (c : Calls)
      → t ≡ entry_normal
      → process_by_type env t e q db c ≡ process_normal env e q db c
  process_by_type_normal entry_normal e q db c h = refl
  process_by_type_normal entry_conf_change e q db c h = absurd (cc)

  replies-no_proposal :
      (t : EntryType) (e : Entry) (db db' : DiskStorage env.leveldb) (c c' : Calls)
      → process_by_type env t e none db c ≡ returned (db', c')
      → c'.replies ≡ c.replies
  unfolding process_normal
  replies-no_proposal entry_normal e db db' c c' h =
      elim (Option-cases (env.codec.parse e.payload)) [
        | inl n ↦ cc (rw n at h)
        | inr (r, n) ↦ replies-process_req r r.cmd_type none db db' c c' (rw n at h)
      ]
  replies-no_proposal entry_conf_change e db db' c c' h = ground arith

  -- On the leader, with its queue in ascending order: when an entry with a request has been applied,
  -- the later proposals still wait; the earlier ones have been rejected, in order, and then the
  -- proposal of exactly this index and term, if there is one, has been sent what its request is owed.
  pub leader_replies :
      (e : Entry) (req : KvReq) (p p' : Peer env) (c c' : Calls)
      → env.raft.is_leader p.raw_node ≡ true
      → IsAscending p.proposals
      → e.type ≡ entry_normal
      → env.codec.parse e.payload ≡ some req
      → process_entry env e p c ≡ returned (p', c')
      → let cut = split_at e.index e.term p.proposals c in
        (p'.proposals ≡ cut.proposals)
        × (c'.replies
            ≡ replies_to req req.cmd_type (view env.leveldb p.kv_db) cut.calls cut.found
              ++ cut.calls.replies)
  leader_replies e req p p' c c' leads sorted normal parsed h =
      let cut = split_at e.index e.term p.proposals c in
      let (db, ran, at) = process_entry_inv env e p p' c c' h in
      let got : take_proposal env (env.raft.is_leader p.raw_node) e p.proposals c ≡ cut =
        rw leads (get_proposal-split_at e.index e.term p.proposals c sorted) in
      (
        ap (λ (x : Peer env). x.proposals) at ∙ ap (λ (g : Got). g.proposals) got,
        replies-process_normal e req cut.found p.kv_db db cut.calls c' parsed (
            sym (process_by_type_normal e.type e cut.found p.kv_db cut.calls normal)
            ∙ rw got at ran),
      )

  -- On a peer that does not lead, applying an entry of any kind, if it does not abort, empties the
  -- queue and sends one reply for each proposal that waited, in the order of the queue and with nothing
  -- in between: its closure's, with its response marked as rejected.
  pub follower_replies :
      (e : Entry) (p p' : Peer env) (c c' : Calls)
      → env.raft.is_leader p.raw_node ≡ false
      → process_entry env e p c ≡ returned (p', c')
      → (p'.proposals ≡ []) × (c'.replies ≡ reverse (map (rejection c) p.proposals) ++ c.replies)
  follower_replies e p p' c c' follows h =
      let (db, ran, at) = process_entry_inv env e p p' c c' h in
      let got : take_proposal env (env.raft.is_leader p.raw_node) e p.proposals c
          ≡ take_proposal env false e p.proposals c =
        rw follows in
      (
        ap (λ (x : Peer env). x.proposals) at ∙ ap (λ (g : Got). g.proposals) got,
        replies-no_proposal e.type e p.kv_db db _ c' (rw got at ran)
            ∙ replies-callback_all p.proposals c,
      )
