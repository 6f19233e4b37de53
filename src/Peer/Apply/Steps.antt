-- ===== src/Peer/Apply/Steps.antt =====
-- What a run of `process_entry` that returns went through.
use mathlib.Core.Path.{subst}
use jkv.Base.{
  ◌≡◌, refl, inl, inr, Option, List, [], ◌∷◌, Outcome, returned, fatal, ◌>>=◌, arith, Bytes,
  Bool-cases, Option-cases,
}
use jkv.Proto.{KvReq, CmdType, Entry, EntryType, entry_normal, entry_conf_change}
use jkv.Calls.{Calls}
use jkv.Env.{Env}
use jkv.Storage.{DiskStorage, is_ok}
use jkv.Storage
use jkv.Peer.Proposals.{Proposal}
use jkv.Peer.State.{Peer}
use jkv.Peer.Apply.{
  process_req, process_normal, process_by_type, process_entry, process_entries, take_proposal,
}

module _ (env : Env) where
  open env use {leveldb, codec}

  -- A database stays at its path.
  abbrev AtPath : Bytes → Outcome (DiskStorage leveldb × Calls) → Type 0
  AtPath path (returned (db, c)) = db.db_path ≡ path
  AtPath path (fatal e) = Unit {0}

  process_req-AtPath :
      (req : KvReq) (t : CmdType) (found : Option Proposal) (db : DiskStorage leveldb) (c : Calls)
      → AtPath db.db_path (process_req env req t found db c)
  unfolding process_req Storage.get Storage.put Storage.del
  process_req-AtPath req CmdType.invalid found db c = refl
  process_req-AtPath req CmdType.get found db c =
      elim (Bool-cases (is_ok (leveldb.get db.db req.get_req.key).0)) [
        | inl e ↦ rw e refl
        | inr e ↦ rw e tt
      ]
  process_req-AtPath req CmdType.put found db c =
      elim (Bool-cases (is_ok (leveldb.put db.db req.put_req.key req.put_req.value).0)) [
        | inl e ↦ rw e refl
        | inr e ↦ rw e tt
      ]
  process_req-AtPath req CmdType.del found db c =
      elim (Bool-cases (is_ok (leveldb.delete db.db req.del_req.key).0)) [
        | inl e ↦ rw e refl
        | inr e ↦ rw e tt
      ]
  process_req-AtPath req (CmdType.unknown n) found db c = tt

  process_by_type-AtPath :
      (t : EntryType) (e : Entry) (found : Option Proposal) (db : DiskStorage leveldb) (c : Calls)
      → AtPath db.db_path (process_by_type env t e found db c)
  unfolding process_normal
  process_by_type-AtPath entry_normal e found db c = elim (Option-cases (codec.parse e.payload)) [
    | inl n ↦ rw n tt
    | inr (r, n) ↦ rw n (process_req-AtPath r r.cmd_type found db c)
  ]
  process_by_type-AtPath entry_conf_change e found db c = refl

  pub process_by_type_path :
      (t : EntryType) (e : Entry) (found : Option Proposal) (db db' : DiskStorage leveldb)
      (c c' : Calls)
      → process_by_type env t e found db c ≡ returned (db', c')
      → db'.db_path ≡ db.db_path
  process_by_type_path t e found db db' c c' h =
      subst (AtPath db.db_path) h (process_by_type-AtPath t e found db c)

  record_inv :
      (m : Outcome (DiskStorage env.leveldb × Calls)) (p p' : Peer env) (ps : List Proposal)
      (c' : Calls)
      → ◌>>=◌ {B = Peer env × Calls} m
          (λ x. returned (record p { kv_db = x.0; proposals = ps }, x.1))
        ≡ returned (p', c')
      → (db : DiskStorage env.leveldb) × (m ≡ returned (db, c'))
        × (p' ≡ record p { kv_db = db; proposals = ps })
  record_inv (returned (db, c)) p p' ps c' h = (db, ground arith, ground arith)
  record_inv (fatal e) p p' ps c' h = absurd (cc)

  pub process_entry_inv :
      (e : Entry) (p p' : Peer env) (c c' : Calls)
      → process_entry env e p c ≡ returned (p', c')
      → let got = take_proposal env (env.raft.is_leader p.raw_node) e p.proposals c in
        (db : DiskStorage env.leveldb) × (process_by_type env e.type e got.found p.kv_db got.calls
          ≡ returned (db, c'))
        × (p' ≡ record p { kv_db = db; proposals = got.proposals })
  unfolding process_entry
  process_entry_inv e p p' c c' h = record_inv _ p p' _ c' h

  pub process_entries_nil :
      (p p' : Peer env) (c c' : Calls)
      → process_entries env [] p c ≡ returned (p', c')
      → (p ≡ p') × (c ≡ c')
  unfolding process_entries
  process_entries_nil p p' c c' h = (ground arith, ground arith)

  pub process_entries_inv :
      (e : Entry) (es : List Entry) (p p' : Peer env) (c c' : Calls)
      → process_entries env (e ∷ es) p c ≡ returned (p', c')
      → (q : Peer env) × (cq : Calls) × (process_entry env e p c ≡ returned (q, cq))
        × (process_entries env es q cq ≡ returned (p', c'))
  unfolding process_entries
  process_entries_inv e es p p' c c' = go (process_entry env e p c)
    where
      go :
          (m : Outcome (Peer env × Calls))
          → (m >>= λ (x : Peer env × Calls). process_entries env es x.0 x.1) ≡ returned (p', c')
          → (q : Peer env) × (cq : Calls) × (m ≡ returned (q, cq))
            × (process_entries env es q cq ≡ returned (p', c'))
      go (returned (q, cq)) h = (q, cq, refl, h)
      go (fatal f) h = absurd (cc)
