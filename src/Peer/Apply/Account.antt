-- ===== src/Peer/Apply/Account.antt =====
-- The closures of the waiting clients while committed entries are applied.
use mathlib.Core.Path.{ap₂}
use jkv.Base.{
  ℕ, ◌+◌, ◌≤◌, ◌≡◌, ◌≢◌, refl, ap, ◌∙◌, inl, inr, Bool, true, false, Option, none, some, List, [],
  ◌∷◌, returned, arith, count, All, Option-cases, ==_refl,
}
use jkv.Proto.{KvReq, CmdType, Entry, EntryType, entry_normal, entry_conf_change}
use jkv.Proto.Codec.{Codec}
use jkv.Calls.{Calls, answered}
use jkv.Env.{Env}
use jkv.Storage.{DiskStorage}
use jkv.Peer.Proposals.{Proposal}
use jkv.Peer.Proposals.Account.{dones, dones_of, count-get_proposal, count-callback_all}
use jkv.Peer.State.{Peer}
use jkv.Peer.Apply.Steps.{process_entry_inv, process_entries_nil, process_entries_inv}
use jkv.Peer.Apply.{
  process_req, process_normal, process_by_type, process_entry, process_entries, take_proposal,
}

-- A client command: an entry that carries a request of a type other than `kInvalid`.
abbrev pub IsCommand : Codec → Entry → Type 0
IsCommand codec e =
    (e.type ≡ entry_normal)
    × ((r : KvReq) × (codec.parse e.payload ≡ some r) × (r.cmd_type ≢ CmdType.invalid))

-- The proposal that a request takes out of the queue and leaves without an answer.
abbrev pub left_by : CmdType → Option Proposal → Option Proposal
left_by CmdType.invalid q = q
left_by CmdType.get q = none
left_by CmdType.put q = none
left_by CmdType.del q = none
left_by (CmdType.unknown n) q = none

abbrev pub left_by_parsed : Option KvReq → Option Proposal → Option Proposal
left_by_parsed none q = none
left_by_parsed (some r) q = left_by r.cmd_type q

abbrev pub left_by_entry : Codec → EntryType → Entry → Option Proposal → Option Proposal
left_by_entry codec entry_normal e q = left_by_parsed (codec.parse e.payload) q
left_by_entry codec entry_conf_change e q = q

left_by-command :
    (codec : Codec) (e : Entry) (q : Option Proposal)
    → IsCommand codec e
    → left_by_entry codec e.type e q ≡ none
left_by-command codec e q (t, (r, parsed, h)) = rw (t, parsed) (go r.cmd_type h)
  where
    go : (t : CmdType) → t ≢ CmdType.invalid → left_by t q ≡ none
    go CmdType.invalid h = absurd (h refl)
    go CmdType.get h = refl
    go CmdType.put h = refl
    go CmdType.del h = refl
    go (CmdType.unknown n) h = refl

left_by-invalid :
    (codec : Codec) (e : Entry) (r : KvReq) (q : Option Proposal)
    → e.type ≡ entry_normal
    → codec.parse e.payload ≡ some r
    → r.cmd_type ≡ CmdType.invalid
    → left_by_entry codec e.type e q ≡ q
left_by-invalid codec e r q t parsed invalid = rw (t, parsed, invalid) refl

module _ (env : Env) (d : ℕ) where
  count-process_req :
      (req : KvReq) (t : CmdType) (q : Option Proposal) (db db' : DiskStorage env.leveldb)
      (c c' : Calls)
      → process_req env req t q db c ≡ returned (db', c')
      → count d (dones_of (left_by t q)) + count d (answered c')
        ≡ count d (dones_of q) + count d (answered c)
  unfolding process_req
  count-process_req req CmdType.invalid q db db' c c' h = ground arith
  count-process_req req CmdType.get q db db' c c' h = ground arith
  count-process_req req CmdType.put q db db' c c' h = ground arith
  count-process_req req CmdType.del q db db' c c' h = ground arith
  count-process_req req (CmdType.unknown n) q db db' c c' h = cc

  count-process_by_type :
      (t : EntryType) (e : Entry) (q : Option Proposal) (db db' : DiskStorage env.leveldb)
      (c c' : Calls)
      → process_by_type env t e q db c ≡ returned (db', c')
      → count d (dones_of (left_by_entry env.codec t e q)) + count d (answered c')
        ≡ count d (dones_of q) + count d (answered c)
  unfolding process_normal
  count-process_by_type entry_normal e q db db' c c' h =
      elim (Option-cases (env.codec.parse e.payload)) [
        | inl n ↦ cc (rw n at h)
        | inr (r, n) ↦ rw n (count-process_req r r.cmd_type q db db' c c' (rw n at h))
      ]
  count-process_by_type entry_conf_change e q db db' c c' h = ground arith

  count-take_proposal :
      (leader : Bool) (e : Entry) (ps : List Proposal) (c : Calls)
      → let got = take_proposal env leader e ps c in
        count d (dones_of got.found) + count d (dones got.proposals) + count d (answered got.calls)
        ≡ count d (dones ps) + count d (answered c)
  count-take_proposal true e ps c = count-get_proposal d e.index e.term ps c
  count-take_proposal false e ps c = omega (arith, count-callback_all d ps c)

  abbrev standing : Peer env → Calls → ℕ
  standing p c = count d (dones p.proposals) + count d (answered c)

  -- One entry: the closures left out, those that still wait and those run add up to what was there.
  count-process_entry :
      (e : Entry) (p p' : Peer env) (c c' : Calls)
      → process_entry env e p c ≡ returned (p', c')
      → let got = take_proposal env (env.raft.is_leader p.raw_node) e p.proposals c in
        count d (dones_of (left_by_entry env.codec e.type e got.found))
          + (count d (dones p'.proposals) + count d (answered c'))
        ≡ count d (dones p.proposals) + count d (answered c)
  count-process_entry e p p' c c' h =
      let got = take_proposal env (env.raft.is_leader p.raw_node) e p.proposals c in
      let (db, ran, at) = process_entry_inv env e p p' c c' h in
      omega (
        arith,
        ap (λ (x : Peer env). count d (dones x.proposals)) at,
        count-process_by_type e.type e got.found p.kv_db db got.calls c' ran,
        count-take_proposal (env.raft.is_leader p.raw_node) e p.proposals c,
      )

  -- Over a list of committed entries no closure is run, or still waits, more often than before.
  pub count_le-process_entries :
      (es : List Entry) (p p' : Peer env) (c c' : Calls)
      → process_entries env es p c ≡ returned (p', c')
      → count d (dones p'.proposals) + count d (answered c')
        ≤ count d (dones p.proposals) + count d (answered c)
  count_le-process_entries [] p p' c c' h =
      let (ep, ec) = process_entries_nil env p p' c c' h in omega (arith, ap₂ standing ep ec)
  count_le-process_entries (e ∷ es) p p' c c' h =
      let (q, cq, first, rest) = process_entries_inv env e es p p' c c' h in
      omega
        (arith, count_le-process_entries es q p' cq c' rest, count-process_entry e p q c cq first)

  -- Over a list of committed client commands, the closures that wait and those that have been run add up
  -- to what was there; so a closure that no longer waits has been run, and once for each time it waited.
  pub count-process_entries :
      (es : List Entry) (p p' : Peer env) (c c' : Calls)
      → All (IsCommand env.codec) es
      → process_entries env es p c ≡ returned (p', c')
      → count d (dones p'.proposals) + count d (answered c')
        ≡ count d (dones p.proposals) + count d (answered c)
  count-process_entries [] p p' c c' all h =
      let (ep, ec) = process_entries_nil env p p' c c' h in omega (arith, ap₂ standing ep ec)
  count-process_entries (e ∷ es) p p' c c' all h =
      let (q, cq, first, rest) = process_entries_inv env e es p p' c c' h in
      let got = take_proposal env (env.raft.is_leader p.raw_node) e p.proposals c in
      omega (
        arith,
        count-process_entries es q p' cq c' all.1 rest,
        count-process_entry e p q c cq first,
        ap (λ (o : Option Proposal). count d (dones_of o))
            (left_by-command env.codec e got.found all.0),
      )

  -- A request of the type kInvalid whose proposal is found in the queue takes its closure out and does
  -- not run it: the closure waits and has been run one time less than before in all.
  pub count-invalid :
      (e : Entry) (r : KvReq) (q : Proposal) (p p' : Peer env) (c c' : Calls)
      → e.type ≡ entry_normal
      → env.codec.parse e.payload ≡ some r
      → r.cmd_type ≡ CmdType.invalid
      → (take_proposal env (env.raft.is_leader p.raw_node) e p.proposals c).found ≡ some q
      → q.done ≡ d
      → process_entry env e p c ≡ returned (p', c')
      → count d (dones p'.proposals) + count d (answered c') + 1
        ≡ count d (dones p.proposals) + count d (answered c)
  count-invalid e r q p p' c c' t parsed invalid found own h =
      let got = take_proposal env (env.raft.is_leader p.raw_node) e p.proposals c in
      let left = left_by-invalid env.codec e r got.found t parsed invalid ∙ found in
      let one : count d (q.done ∷ []) ≡ 1 = rw (own, ==_refl d) refl in
      omega (
        arith,
        count-process_entry e p p' c c' h,
        ap (λ (o : Option Proposal). count d (dones_of o)) left,
        one,
      )
