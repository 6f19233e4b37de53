-- ===== src/Echo/Answers.antt =====
-- What an echo client ends with, by what the peer that took its request does at the entry that may be the
-- request's.
use mathlib.Core.List.{reverse, reverse-cons, append_assoc}
use jkv.Base.{
  ◌≡◌, ◌⊎◌, refl, sym, ◌∙◌, inl, inr, true, false, Option, some, List, [], ◌∷◌, ◌++◌, map, Outcome,
  returned, fatal, arith, >>=-eq-returned, Bool-cases, Bytes, bytes_eq, bytes_eq_iff, rpc_rejected,
  ==_refl,
}
use jkv.Proto.{KvReq, KvResp, CmdType, Entry, entry_normal}
use jkv.Calls.{Calls}
use jkv.Env.{Env}
use jkv.Storage.{DiskStorage}
use jkv.Storage
use jkv.Storage.View.{Map, view, view_of-get}
use jkv.Peer.State.{Peer}
use jkv.Peer.Proposals.{Proposal, get_proposal}
use jkv.Peer.Proposals.Account.{rejection}
use jkv.Peer.Apply.{process_req, process_normal, process_entry, take_proposal}
use jkv.Peer.Apply.Steps.{process_entry_inv}
use jkv.Peer.Apply.Replies.{
  follower_replies, replies-process_normal, process_by_type_normal, replies_to,
}
use jkv.Echo.ClientMain.{
  ClientFlags, get_request, put_request, del_request, get_word, put_word, del_word, request_of,
  kv_cb,
}

-- What a response tells the client: a read shows the value that the map holds at the key; after a write or
-- a deletion it is as it was before.
abbrev pub Shows : ClientFlags → Map → KvResp → KvResp → Type 0
Shows f m old r =
    ((f.op_type ≡ get_word)
      × ((v : Bytes) × (m f.key ≡ some v) × (r.get_resp ≡ some (record { value = v }))))
    ⊎ (((f.op_type ≡ put_word) ⊎ (f.op_type ≡ del_word)) × (r ≡ old))

-- The client is sent one reply, which ends it with 0.
abbrev pub IsServed : ClientFlags → Map → Proposal → Calls → Calls → Type 0
IsServed f m q c c' =
    (r : KvResp) × (c'.replies ≡ (q.done, r) ∷ c.replies)
    × (kv_cb false r ≡ returned tt)
    × Shows f m (c.resp q.resp) r

-- The client is sent one reply, which ends it with an abort; after it the later proposals are rejected.
abbrev pub IsTurnedAway : Proposal → List Proposal → Calls → Calls → Type 0
IsTurnedAway q ps c c' =
    (r : KvResp) × (c'.replies ≡ reverse (map (rejection c) ps) ++ (q.done, r) ∷ c.replies)
    × (kv_cb false r ≡ fatal rpc_rejected)

-- The command and the key of the request that the dispatch builds.
abbrev Asks : ClientFlags → KvReq → Type 0
Asks f req =
    ((f.op_type ≡ get_word) × (req.cmd_type ≡ CmdType.get) × (req.get_req.key ≡ f.key))
    ⊎ (((f.op_type ≡ put_word) × (req.cmd_type ≡ CmdType.put))
        ⊎ ((f.op_type ≡ del_word) × (req.cmd_type ≡ CmdType.del)))

request_of-Asks : (f : ClientFlags) (req : KvReq) → request_of f ≡ returned req → Asks f req
unfolding request_of get_request put_request del_request
request_of-Asks f req h = elim (Bool-cases (bytes_eq f.op_type get_word)) [
  | inl e ↦ rw (← request-eq (rw e at h)) (inl ((bytes_eq_iff f.op_type get_word).0 e, refl, refl))
  | inr e ↦ elim (Bool-cases (bytes_eq f.op_type put_word)) [
    | inl e1 ↦
        rw (← request-eq (rw (e, e1) at h))
          (inr (inl ((bytes_eq_iff f.op_type put_word).0 e1, refl)))
    | inr e1 ↦ elim (Bool-cases (bytes_eq f.op_type del_word)) [
      | inl e2 ↦
          rw (← request-eq (rw (e, e1, e2) at h))
            (inr (inr ((bytes_eq_iff f.op_type del_word).0 e2, refl)))
      | inr e2 ↦ absurd (cc (rw (e, e1, e2) at h))
    ]
  ]
]
  where
    request-eq : {r s : KvReq} → ◌≡◌ {A = Outcome KvReq} (returned r) (returned s) → r ≡ s
    request-eq e = ground arith

module _ (env : Env) where
  open env use {raft, codec}

  -- A read that returns has found its key.
  process_normal-found :
      (e : Entry) (req : KvReq) (q : Option Proposal) (db db' : DiskStorage env.leveldb)
      (c c' : Calls)
      → codec.parse e.payload ≡ some req
      → req.cmd_type ≡ CmdType.get
      → process_normal env e q db c ≡ returned (db', c')
      → (v : Bytes) × (view env.leveldb db req.get_req.key ≡ some v)
  unfolding process_normal process_req
  process_normal-found e req q db db' c c' parsed read h =
      let (v, got, _) =
        >>=-eq-returned (Storage.get env.leveldb db req.get_req.key) _ (rw (parsed, read) at h) in
      (v, view_of-get env.leveldb db req.get_req.key v got)

  process_normal-IsServed :
      (f : ClientFlags) (req : KvReq) (e : Entry) (q : Proposal) (db db' : DiskStorage env.leveldb)
      (c c' : Calls)
      → request_of f ≡ returned req
      → codec.parse e.payload ≡ some req
      → (c.resp q.resp).rejected ≡ false
      → process_normal env e (some q) db c ≡ returned (db', c')
      → IsServed f (view env.leveldb db) q c c'
  unfolding kv_cb
  process_normal-IsServed f req e q db db' c c' built parsed fresh h =
      let sent : c'.replies
          ≡ replies_to req req.cmd_type (view env.leveldb db) c (some q) ++ c.replies =
        replies-process_normal env e req (some q) db db' c c' parsed h in
      elim (request_of-Asks f req built) [
        | inl (word, read, key) ↦
            let (v, found) = process_normal-found e req (some q) db db' c c' parsed read h in
            (
              record (c.resp q.resp) { get_resp = some (record { value = v }) },
              rw (read, found) at sent,
              rw fresh refl,
              inl (word, (v, rw (← key) found, refl)),
            )
        | inr (inl (word, write)) ↦
            (c.resp q.resp, rw write at sent, rw fresh refl, inr (inl word, refl))
        | inr (inr (word, erase)) ↦
            (c.resp q.resp, rw erase at sent, rw fresh refl, inr (inr word, refl))
      ]

  -- When a client's request is the first to wait, with the index and term of the entry that is applied
  -- and a response not yet marked as rejected, and the entry holds the request that the client's flags
  -- ask for: when the entry has been applied, then on a leader the client is sent one reply, which ends
  -- it with 0, and which for a read shows the value that the map holds at the key; on any other peer it
  -- is sent one reply, which ends it with an abort, and behind it all that waited later are rejected.
  pub kv_cb-process_entry :
      (f : ClientFlags) (req : KvReq) (e : Entry) (q : Proposal) (ps : List Proposal)
      (p p' : Peer env) (c c' : Calls)
      → request_of f ≡ returned req
      → e.type ≡ entry_normal
      → codec.parse e.payload ≡ some req
      → p.proposals ≡ q ∷ ps
      → q.index ≡ e.index
      → q.term ≡ e.term
      → (c.resp q.resp).rejected ≡ false
      → process_entry env e p c ≡ returned (p', c')
      → ((raft.is_leader p.raw_node ≡ true) × IsServed f (view env.leveldb p.kv_db) q c c')
        ⊎ ((raft.is_leader p.raw_node ≡ false) × IsTurnedAway q ps c c')
  unfolding kv_cb get_proposal
  kv_cb-process_entry f req e q ps p p' c c' built normal parsed waits index term fresh h =
      elim (Bool-cases (raft.is_leader p.raw_node)) [
        | inl leads ↦
            let (db, ran, _) = process_entry_inv env e p p' c c' h in
            let got : take_proposal env (raft.is_leader p.raw_node) e p.proposals c
                ≡ record { found = some q; proposals = ps; calls = c } =
              rw (leads, waits, index, term, ==_refl e.index, ==_refl e.term) refl in
            inl (
              leads,
              process_normal-IsServed f req e q p.kv_db db c c' built parsed fresh (
                  sym (process_by_type_normal env e.type e (some q) p.kv_db c normal)
                  ∙ rw got at ran),
            )
        | inr follows ↦
            let (_, sent) = follower_replies env e p p' c c' follows h in
            inr (
              follows,
              (
                (rejection c q).1,
                rw (waits, reverse-cons (rejection c q) (map (rejection c) ps)) at sent
                    ∙ append_assoc (reverse (map (rejection c) ps)) (rejection c q ∷ []) c.replies,
                refl,
              ),
            )
      ]
