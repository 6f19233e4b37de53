-- ===== src/Peer/History/Again.antt =====
-- Replies of a peer that begins on what earlier runs of the log have left.
use mathlib.Core.Path.{subst}
use jkv.Base.{
  ℕ, ◌≡◌, sym, ap, ◌∙◌, ◌||◌, inl, inr, Bool, some, List, ◌∷◌, returned, arith, >>=-eq-returned,
  Option-cases, Bytes,
}
use jkv.Proto.{KvReq, KvResp, CmdType, Entry, EntryType, entry_normal}
use jkv.Env.{Env}
use jkv.Storage.View.{Map}
use jkv.Peer.Apply.Machine.{serve_req, serve_by_type, serve_entries, serve_entries-append}
use jkv.Peer.Apply.Says.{Says}
use jkv.Peer.Apply.Replay.{
  Ahead, writes, writes_req, writes_entry, empty_map, IsLeftBy, IsLeftBy-Ahead,
  serve_entries-Ahead_left,
}
use jkv.Peer.Propose.Backed.{LogMatching}
use jkv.Peer.History.Honest.{Honest}

-- What can be read from the map behind is read alike from the one ahead.
Says-behind :
    (req : KvReq) (t : CmdType) (later : Bytes → Bool) (a a' b : Map) (r : KvResp)
    → Ahead (λ k. writes_req req t k || later k) a b
    → serve_req req t a ≡ returned a'
    → Says req t b r
    → Says req t a r
Says-behind req CmdType.invalid later a a' b r h ran says = says
Says-behind req CmdType.get later a a' b r h ran (v, held, resp) =
    elim (Option-cases (a req.get_req.key)) [
      | inl missing ↦ absurd (cc (rw missing at ran))
      | inr (w, there) ↦ (v, ground (arith, h req.get_req.key), resp)
    ]
Says-behind req CmdType.put later a a' b r h ran says = says
Says-behind req CmdType.del later a a' b r h ran says = says
Says-behind req (CmdType.unknown n) later a a' b r h ran says = says

module _ (env : Env) where
  open env use {codec}

  entry-Says :
      (e : Entry) (t : EntryType) (req : KvReq) (later : Bytes → Bool) (a a' b : Map) (r : KvResp)
      → t ≡ entry_normal
      → codec.parse e.payload ≡ some req
      → Ahead (λ k. writes_entry codec t e k || later k) a b
      → serve_by_type env t e a ≡ returned a'
      → Says req req.cmd_type b r
      → Says req req.cmd_type a r
  entry-Says e t req later a a' b r normal parsed h ran says =
      Says-behind req req.cmd_type later a a' b r (rw (normal, parsed) at h)
        (rw (normal, parsed) at ran) says

  module _ (law : LogMatching env.raft) (Asks : ℕ → KvReq → Type 0) where
    -- Where the log can be served from the empty map, a reply that is the truth about it on what earlier
    -- runs of it have left is the truth about it on the empty map.
    pub Honest-again :
        (log : List Entry) (m m' : Map) (x : ℕ × KvResp)
        → IsLeftBy env log m
        → serve_entries env log (empty_map env) ≡ returned m'
        → Honest env law Asks log m x
        → Honest env law Asks log (empty_map env) x
    Honest-again log m m' x left ran (inl r) = inl r
    Honest-again log m m' x left ran (inr a) =
        let split =
          sym (serve_entries-append env a.before (a.entry ∷ a.after) (empty_map env))
          ∙ ap (λ l. serve_entries env l (empty_map env)) (sym a.cut)
          ∙ ran in
        let (n, first, rest) =
          >>=-eq-returned (serve_entries env a.before (empty_map env)) _ split in
        let (n', second, _) =
          >>=-eq-returned (serve_by_type env a.entry.type a.entry n) (serve_entries env a.after)
            rest in
        let (b, again, ahead) =
          serve_entries-Ahead_left env a.before (a.entry ∷ a.after) (empty_map env) n m
            (subst (λ l. Ahead (writes codec l) (empty_map env) m) a.cut
              (IsLeftBy-Ahead env log m left))
            first in
        let same : b ≡ a.at = ground (arith, again, a.served) in
        inr (record {
          before = a.before;
          entry = a.entry;
          after = a.after;
          cut = a.cut;
          at = n;
          served = first;
          req = a.req;
          asked = a.asked;
          normal = a.normal;
          parsed = a.parsed;
          says =
              entry-Says a.entry a.entry.type a.req (writes codec a.after) n n' a.at x.1 a.normal
                a.parsed (subst (λ y. Ahead (writes codec (a.entry ∷ a.after)) n y) same ahead)
                second a.says;
        })
