-- ===== src/Peer/Apply/Machine.antt =====
-- The replicated state machine that the peers implement, over abstract maps, and the proof that
-- applying committed entries implements it, on the leader and on every other peer alike.
use jkv.Base.{
  ◌≡◌, refl, ap, ◌∙◌, Bytes, inl, inr, Option, none, some, List, [], ◌∷◌, ◌++◌, Outcome, returned,
  fatal, get_failed, unknown_cmd, ◌>>=◌, Option-cases,
}
use jkv.Proto.{KvReq, CmdType, Entry, EntryType, entry_normal, entry_conf_change}
use jkv.Calls.{Calls}
use jkv.Env.{Env}
use jkv.Storage.{DiskStorage, LeveldbLaws}
use jkv.Storage.View.{Map, update, erase, view, IsReliable, get_cases, view-put, view-del}
use jkv.Peer.Proposals.{Proposal}
use jkv.Peer.State.{Peer}
use jkv.Peer.Apply.{
  or_fatal, process_req, process_normal, process_by_type, process_entry, process_entries,
  take_proposal,
}

-- What a read needs: the key is there.
abbrev pub need : Option Bytes → Map → Outcome Map
need none m = fatal get_failed
need (some v) m = returned m

-- One request on a map. A read changes nothing, and needs its key.
abbrev pub serve_req : KvReq → CmdType → Map → Outcome Map
serve_req req CmdType.invalid m = returned m
serve_req req CmdType.get m = need (m req.get_req.key) m
serve_req req CmdType.put m = returned (update m req.put_req.key req.put_req.value)
serve_req req CmdType.del m = returned (erase m req.del_req.key)
serve_req req (CmdType.unknown n) m = fatal unknown_cmd

bind_assoc :
    (o : Outcome Map) (f g h : Map → Outcome Map)
    → ((m : Map) → h m ≡ (f m >>= g))
    → (o >>= h) ≡ (o >>= f >>= g)
bind_assoc (returned m) f g h e = e m
bind_assoc (fatal k) f g h e = refl

module _ (env : Env) where
  abbrev pub serve_normal : Entry → Map → Outcome Map
  serve_normal entry m = do
    req ← or_fatal (env.codec.parse entry.payload)
    serve_req req req.cmd_type m

  abbrev pub serve_by_type : EntryType → Entry → Map → Outcome Map
  serve_by_type entry_normal entry m = serve_normal entry m
  serve_by_type entry_conf_change entry m = returned m

  -- The committed log on a map: entry by entry, up to the first one that aborts.
  abbrev pub serve_entries : List Entry → Map → Outcome Map
  serve_entries [] m = returned m
  serve_entries (e ∷ es) m = do m' ← serve_by_type e.type e m; serve_entries es m'

  pub serve_entries-append :
      (es fs : List Entry) (m : Map)
      → serve_entries (es ++ fs) m ≡ (serve_entries es m >>= serve_entries fs)
  serve_entries-append [] fs m = refl
  serve_entries-append (e ∷ es) fs m =
      bind_assoc (serve_by_type e.type e m) (serve_entries es) (serve_entries fs)
        (serve_entries (es ++ fs)) (serve_entries-append es fs)

  -- The map that an outcome leaves, or the abort.
  abbrev pub seen : Outcome (DiskStorage env.leveldb × Calls) → Outcome Map
  seen (returned (db, c)) = returned (view env.leveldb db)
  seen (fatal e) = fatal e

  abbrev pub seen_peer : Outcome (Peer env × Calls) → Outcome Map
  seen_peer (returned (p, c)) = returned (view env.leveldb p.kv_db)
  seen_peer (fatal e) = fatal e

  module _ (reliable : IsReliable env.leveldb) (laws : LeveldbLaws env.leveldb) where
    seen-process_req :
        (req : KvReq) (t : CmdType) (q : Option Proposal) (db : DiskStorage env.leveldb) (c : Calls)
        → seen (process_req env req t q db c) ≡ serve_req req t (view env.leveldb db)
    unfolding process_req
    seen-process_req req CmdType.invalid q db c = refl
    seen-process_req req CmdType.get q db c =
        elim (get_cases env.leveldb reliable db req.get_req.key) [
          | inl (missing, e) ↦ rw (e, missing)
          | inr (v, held, e) ↦ rw (e, held)
        ]
    seen-process_req req CmdType.put q db c =
        let (db', e, v) = view-put env.leveldb reliable laws db req.put_req.key req.put_req.value in
        rw e (ap returned v)
    seen-process_req req CmdType.del q db c =
        let (db', e, v) = view-del env.leveldb reliable laws db req.del_req.key in
        rw e (ap returned v)
    seen-process_req req (CmdType.unknown n) q db c = refl

    seen-process_by_type :
        (t : EntryType) (entry : Entry) (q : Option Proposal) (db : DiskStorage env.leveldb)
        (c : Calls)
        → seen (process_by_type env t entry q db c) ≡ serve_by_type t entry (view env.leveldb db)
    unfolding process_normal
    seen-process_by_type entry_normal entry q db c =
        elim (Option-cases (env.codec.parse entry.payload)) [
          | inl e ↦ rw e
          | inr (req, e) ↦ rw e (seen-process_req req req.cmd_type q db c)
        ]
    seen-process_by_type entry_conf_change entry q db c = refl

    seen_peer_record :
        (m : Outcome (DiskStorage env.leveldb × Calls)) (p : Peer env) (ps : List Proposal)
        → seen_peer (
            m >>= λ (x : DiskStorage env.leveldb × Calls).
            returned (record p { kv_db = x.0; proposals = ps }, x.1))
          ≡ seen m
    seen_peer_record (returned (db, c)) p ps = refl
    seen_peer_record (fatal e) p ps = refl

    seen_peer-process_entry :
        (entry : Entry) (p : Peer env) (c : Calls)
        → seen_peer (process_entry env entry p c)
          ≡ serve_by_type entry.type entry (view env.leveldb p.kv_db)
    unfolding process_entry
    seen_peer-process_entry entry p c =
        let got = take_proposal env (env.raft.is_leader p.raw_node) entry p.proposals c in
        seen_peer_record (process_by_type env entry.type entry got.found p.kv_db got.calls) p
          got.proposals
        ∙ seen-process_by_type entry.type entry got.found p.kv_db got.calls

    -- The rest of the log, behind an outcome.
    seen_peer-bind :
        (m : Outcome (Peer env × Calls)) (f : Peer env → Calls → Outcome (Peer env × Calls))
        (g : Map → Outcome Map)
        → ((p : Peer env) (c : Calls) → seen_peer (f p c) ≡ g (view env.leveldb p.kv_db))
        → seen_peer (m >>= λ (x : Peer env × Calls). f x.0 x.1) ≡ (seen_peer m >>= g)
    seen_peer-bind (returned (p, c)) f g h = h p c
    seen_peer-bind (fatal e) f g h = refl

    -- Over a database that does not fail and keeps LevelDB's laws: in any state of its queue and calls,
    -- leading or not, a peer that processes committed entries ends with the map that serving those entries gives, and aborts exactly if that does, for the
    -- same reason.
    pub process_entries-serve_entries :
        (es : List Entry) (p : Peer env) (c : Calls)
        → seen_peer (process_entries env es p c) ≡ serve_entries es (view env.leveldb p.kv_db)
    unfolding process_entries
    process_entries-serve_entries [] p c = refl
    process_entries-serve_entries (e ∷ es) p c =
        seen_peer-bind (process_entry env e p c) (process_entries env es) (serve_entries es)
          (process_entries-serve_entries es)
        ∙ ap (λ m. m >>= serve_entries es) (seen_peer-process_entry e p c)
