-- ===== src/Peer/Apply/Says.antt =====
-- The reply that one request sends, if its proposal is at hand.
use jkv.Base.{
  ℕ, ◌≡◌, refl, Option, none, some, [], ◌∷◌, Outcome, returned, >>=-eq-returned, arith, Bytes,
  ==_refl,
}
use jkv.Proto.{KvReq, KvResp, CmdType, Entry, entry_normal}
use jkv.Proto.Codec.{Codec}
use jkv.Calls.{Calls}
use jkv.Env.{Env}
use jkv.Storage
use jkv.Storage.{DiskStorage, LeveldbLaws}
use jkv.Storage.View.{Map, view, view_of-get}
use jkv.Peer.Proposals.{Proposal}
use jkv.Peer.Proposals.News.{News, News-refl}
use jkv.Peer.Apply.{finish, process_req}

-- What a response says of a map: a read has the value there, a write and a deletion are done, and no
-- other request is answered.
abbrev pub Says : KvReq → CmdType → Map → KvResp → Type 0
Says req CmdType.invalid m r = ⊥
Says req CmdType.get m r =
    (v : Bytes) × (m req.get_req.key ≡ some v) × (r.get_resp ≡ some (record { value = v }))
Says req CmdType.put m r = Unit {0}
Says req CmdType.del m r = Unit {0}
Says req (CmdType.unknown n) m r = ⊥

-- The answer to a proposal with the property, at an entry's position and about its request.
abbrev pub IsAnswer : Codec → (Proposal → Type 0) → Entry → Map → ℕ × KvResp → Type 0
IsAnswer codec P e m x =
    (q : Proposal) × P q
    × (q.index ≡ e.index)
    × (q.term ≡ e.term)
    × (x.0 ≡ q.done)
    × (e.type ≡ entry_normal)
    × ((req : KvReq) × (codec.parse e.payload ≡ some req) × Says req req.cmd_type m x.1)

module _ (env : Env) where
  -- The answer of one request to the proposal at hand.
  abbrev pub OfProposal : KvReq → CmdType → Option Proposal → Map → ℕ × KvResp → Type 0
  OfProposal req t o m x = (q : Proposal) × (o ≡ some q) × (x.0 ≡ q.done) × Says req t m x.1

  pub the_calls :
      {d d' : DiskStorage env.leveldb} {c c' : Calls}
      → ◌≡◌ {A = Outcome (DiskStorage env.leveldb × Calls)} (returned (d, c)) (returned (d', c'))
      → c ≡ c'
  the_calls e = ground arith

  finish-News :
      (req : KvReq) (t : CmdType) (o : Option Proposal) (m : Map) (c : Calls)
      → ((r : KvResp) → Says req t m r)
      → News (OfProposal req t o m) c (finish o c)
  finish-News req t none m c says = News-refl _ c
  finish-News req t (some q) m c says = record {
    news = (q.done, c.resp q.resp) ∷ [];
    grown = refl;
    all = ((q, refl, refl, says (c.resp q.resp)), tt);
  }

  pub process_req-News :
      (req : KvReq) (t : CmdType) (o : Option Proposal) (db db' : DiskStorage env.leveldb)
      (c c' : Calls)
      → process_req env req t o db c ≡ returned (db', c')
      → News (OfProposal req t o (view env.leveldb db)) c c'
  unfolding process_req
  process_req-News req CmdType.invalid o db db' c c' h = rw (← the_calls h) (News-refl _ c)
  process_req-News req CmdType.get none db db' c c' h =
      let (v, got, e) = >>=-eq-returned (Storage.get env.leveldb db req.get_req.key) _ h in
      rw (← the_calls e) (News-refl _ c)
  process_req-News req CmdType.get (some q) db db' c c' h =
      let (v, got, e) = >>=-eq-returned (Storage.get env.leveldb db req.get_req.key) _ h in
      rw (← the_calls e) (record {
        news = (q.done, record (c.resp q.resp) { get_resp = some (record { value = v }) }) ∷ [];
        grown = rw (==_refl q.resp) refl;
        all = ((q, refl, refl, (v, view_of-get env.leveldb db req.get_req.key v got, refl)), tt);
      })
  process_req-News req CmdType.put o db db' c c' h =
      let x = req.put_req in
      let (s, got, e) = >>=-eq-returned (Storage.put env.leveldb db x.key x.value) _ h in
      rw (← the_calls e) (finish-News req CmdType.put o (view env.leveldb db) c (λ r. tt))
  process_req-News req CmdType.del o db db' c c' h =
      let (s, got, e) = >>=-eq-returned (Storage.del env.leveldb db req.del_req.key) _ h in
      rw (← the_calls e) (finish-News req CmdType.del o (view env.leveldb db) c (λ r. tt))
  process_req-News req (CmdType.unknown n) o db db' c c' h = absurd (cc)
