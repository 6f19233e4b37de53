-- ===== src/Peer/History/Honest.antt =====
-- A reply that is the truth about a log: the answer to the request of its own call.
use mathlib.Core.Path.{subst}
use mathlib.Core.List.{append_assoc}
use jkv.Base.{
  some-injective, ℕ, ◌≡◌, sym, ap, ◌∙◌, ◌⊎◌, inl, inr, some, List, ◌∷◌, ◌++◌, All-middle, returned,
}
use jkv.Proto.{KvReq, KvResp, Entry, entry_normal}
use jkv.Env.{Env}
use jkv.Storage.View.{Map}
use jkv.Peer.Proposals.News.{IsRejected}
use jkv.Peer.Apply.Machine.{serve_entries, serve_entries-append}
use jkv.Peer.Apply.Says.{Says}
use jkv.Peer.Apply.Told.{SaidIn}
use jkv.Peer.Propose.Backed.{LogMatching, IsBacked}

module _ (env : Env) (law : LogMatching env.raft) (Asks : ℕ → KvReq → Type 0) where
  open env use {raft, codec}

  -- A reply that answers the request of its own call, at the position of an entry that holds this
  -- request, by the map that the log up to there makes.
  pub record ToldIn (log : List Entry) (m : Map) (x : ℕ × KvResp) : Type 0 where
    pub before : List Entry
    pub entry : Entry
    pub after : List Entry
    pub cut : log ≡ before ++ entry ∷ after
    pub at : Map
    pub served : serve_entries env before m ≡ returned at
    pub req : KvReq
    pub asked : Asks x.0 req
    pub normal : entry.type ≡ entry_normal
    pub parsed : codec.parse entry.payload ≡ some req
    pub says : Says req req.cmd_type at x.1

  abbrev pub Honest : List Entry → Map → ℕ × KvResp → Type 0
  Honest log m x = IsRejected x ⊎ ToldIn log m x

  -- An answer to a backed proposal is about the request of its own client.
  pub SaidIn-Honest :
      (n : raft.Node) (m : Map) (x : ℕ × KvResp)
      → let log = raft.committed_entries (raft.get_ready n).0 in
        SaidIn env (IsBacked env law Asks n) log m x → Honest log m x
  SaidIn-Honest n m x (inl r) = inl r
  SaidIn-Honest n m x (inr a) =
      let (q, back, index, term, own, normal, (req, parsed, says)) = a.answer in
      let (req0, s, ser, put, asks) = back in
      let fits =
        All-middle (λ (e : Entry). e.term ≡ q.term → e.index ≡ q.index → e.payload ≡ s) a.before
          a.entry a.after (rw (← a.cut) (law.put_committed n q.term q.index s put)) in
      let payload : a.entry.payload ≡ s = fits (sym term) (sym index) in
      let same : req0 ≡ req =
        some-injective req0 req
          (sym (codec.parse-serialize req0 s ser) ∙ ap codec.parse (sym payload) ∙ parsed) in
      inr (record {
        before = a.before;
        entry = a.entry;
        after = a.after;
        cut = a.cut;
        at = a.at;
        served = a.served;
        req = req;
        asked = subst (λ d. Asks d req) (sym own) (subst (Asks q.done) same asks);
        normal = normal;
        parsed = parsed;
        says = says;
      })

  pub Honest-longer :
      (es fs : List Entry) (m : Map) (x : ℕ × KvResp) → Honest es m x → Honest (es ++ fs) m x
  Honest-longer es fs m x (inl r) = inl r
  Honest-longer es fs m x (inr a) = inr (record {
    before = a.before;
    entry = a.entry;
    after = a.after ++ fs;
    cut = ap (λ l. l ++ fs) a.cut ∙ append_assoc a.before (a.entry ∷ a.after) fs;
    at = a.at;
    served = a.served;
    req = a.req;
    asked = a.asked;
    normal = a.normal;
    parsed = a.parsed;
    says = a.says;
  })

  pub Honest-later :
      (es fs : List Entry) (m m1 : Map) (x : ℕ × KvResp)
      → serve_entries env es m ≡ returned m1
      → Honest fs m1 x
      → Honest (es ++ fs) m x
  Honest-later es fs m m1 x ran (inl r) = inl r
  Honest-later es fs m m1 x ran (inr a) = inr (record {
    before = es ++ a.before;
    entry = a.entry;
    after = a.after;
    cut = ap (λ l. es ++ l) a.cut ∙ sym (append_assoc es a.before (a.entry ∷ a.after));
    at = a.at;
    served = rw (serve_entries-append env es a.before m, ran) a.served;
    req = a.req;
    asked = a.asked;
    normal = a.normal;
    parsed = a.parsed;
    says = a.says;
  })
