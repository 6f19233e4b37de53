-- ===== src/Peer/Apply/Told.antt =====
-- Each reply that applying entries sends is a rejection, or the answer to the proposal of the entry's
-- position, read from the map that the log has made so far.
use mathlib.Core.List.{append_assoc}
use jkv.Base.{
  ℕ, ◌≡◌, refl, sym, ap, ◌∙◌, ◌⊎◌, inl, inr, Bool, true, false, Option, some, List, [], ◌∷◌, ◌++◌,
  All, returned, Option-cases,
}
use jkv.Proto.{KvResp, Entry, EntryType, entry_normal, entry_conf_change}
use jkv.Calls.{Calls}
use jkv.Env.{Env}
use jkv.Storage.{DiskStorage, LeveldbLaws}
use jkv.Storage.View.{Map, view, IsReliable}
use jkv.Peer.Proposals.{Proposal}
use jkv.Peer.Proposals.News.{
  News, News-refl, News-trans, News-map, IsRejected, News-callback_all, get_proposal-IsGot,
}
use jkv.Peer.State.{Peer}
use jkv.Peer.Apply.{process_normal, process_by_type, process_entry, process_entries, take_proposal}
use jkv.Peer.Apply.Steps.{process_entry_inv, process_entries_nil, process_entries_inv}
use jkv.Peer.Apply.Machine.{
  serve_entries, process_entries-serve_entries, seen_peer, serve_entries-append,
}
use jkv.Peer.Apply.Says.{IsAnswer, OfProposal, the_calls, process_req-News}

module _ (env : Env) where
  one_entry :
      (e : Entry) (p q : Peer env) (c cq : Calls)
      → process_entry env e p c ≡ returned (q, cq)
      → process_entries env (e ∷ []) p c ≡ returned (q, cq)
  unfolding process_entries
  one_entry e p q c cq h = rw h refl

  module _ (P : Proposal → Type 0) where
    -- What a reply may be while an entry is applied on a map.
    abbrev pub Said : Entry → Map → ℕ × KvResp → Type 0
    Said e m x = IsRejected x ⊎ IsAnswer env.codec P e m x

    -- The proposal at hand has the property and the entry's position.
    abbrev IsOf : Entry → Option Proposal → Type 0
    IsOf e o = (q : Proposal) → o ≡ some q → P q × (q.index ≡ e.index) × (q.term ≡ e.term)

    process_by_type-News :
        (t : EntryType) (e : Entry) (o : Option Proposal) (db db' : DiskStorage env.leveldb)
        (c c' : Calls)
        → e.type ≡ t
        → IsOf e o
        → process_by_type env t e o db c ≡ returned (db', c')
        → News (Said e (view env.leveldb db)) c c'
    unfolding process_normal
    process_by_type-News entry_normal e o db db' c c' normal of h =
        elim (Option-cases (env.codec.parse e.payload)) [
          | inl n ↦ absurd (cc (rw n at h))
          | inr (req, n) ↦
              News-map (OfProposal env req req.cmd_type o (view env.leveldb db)) _
                (λ x a.
                  let (p, index, term) = of a.0 a.1 in
                  inr (a.0, p, index, term, a.2, normal, (req, n, a.3)))
                (process_req-News env req req.cmd_type o db db' c c' (rw n at h))
        ]
    process_by_type-News entry_conf_change e o db db' c c' normal of h =
        rw (← the_calls env h) (News-refl _ c)

    take_proposal-IsOf :
        (leader : Bool) (e : Entry) (ps : List Proposal) (c : Calls)
        → All P ps
        → let got = take_proposal env leader e ps c in
          All P got.proposals × IsOf e got.found × News IsRejected c got.calls
    take_proposal-IsOf true e ps c h =
        let g = get_proposal-IsGot P e.index e.term ps c h in (g.left, g.found, g.sent)
    take_proposal-IsOf false e ps c h = (tt, (λ q n. absurd (cc)), News-callback_all ps c)

    process_entry-Said :
        (e : Entry) (p p' : Peer env) (c c' : Calls)
        → All P p.proposals
        → process_entry env e p c ≡ returned (p', c')
        → All P p'.proposals × News (Said e (view env.leveldb p.kv_db)) c c'
    process_entry-Said e p p' c c' h ran =
        let leader = env.raft.is_leader p.raw_node in
        let got = take_proposal env leader e p.proposals c in
        let (db, typed, at) = process_entry_inv env e p p' c c' ran in
        let (left, of, sent) = take_proposal-IsOf leader e p.proposals c h in
        let told = process_by_type-News e.type e got.found p.kv_db db got.calls c' refl of typed in
        (
          rw at left,
          News-trans _ (News-map IsRejected (Said e (view env.leveldb p.kv_db)) (λ x r. inl r) sent)
              told,
        )

    -- The answer at some position of a log, on the map that the log up to there makes.
    pub record InLog (log : List Entry) (m : Map) (x : ℕ × KvResp) : Type 0 where
      pub before : List Entry
      pub entry : Entry
      pub after : List Entry
      pub cut : log ≡ before ++ entry ∷ after
      pub at : Map
      pub served : serve_entries env before m ≡ returned at
      pub answer : IsAnswer env.codec P entry at x

    abbrev pub SaidIn : List Entry → Map → ℕ × KvResp → Type 0
    SaidIn log m x = IsRejected x ⊎ InLog log m x

    pub SaidIn-longer :
        (es fs : List Entry) (m : Map) (x : ℕ × KvResp) → SaidIn es m x → SaidIn (es ++ fs) m x
    SaidIn-longer es fs m x (inl r) = inl r
    SaidIn-longer es fs m x (inr a) = inr (record {
      before = a.before;
      entry = a.entry;
      after = a.after ++ fs;
      cut = ap (λ l. l ++ fs) a.cut ∙ append_assoc a.before (a.entry ∷ a.after) fs;
      at = a.at;
      served = a.served;
      answer = a.answer;
    })

    pub SaidIn-later :
        (es fs : List Entry) (m m1 : Map) (x : ℕ × KvResp)
        → serve_entries env es m ≡ returned m1
        → SaidIn fs m1 x
        → SaidIn (es ++ fs) m x
    SaidIn-later es fs m m1 x ran (inl r) = inl r
    SaidIn-later es fs m m1 x ran (inr a) = inr (record {
      before = es ++ a.before;
      entry = a.entry;
      after = a.after;
      cut = ap (λ l. es ++ l) a.cut ∙ sym (append_assoc es a.before (a.entry ∷ a.after));
      at = a.at;
      served = rw (serve_entries-append env es a.before m, ran) a.served;
      answer = a.answer;
    })

    module _ (reliable : IsReliable env.leveldb) (laws : LeveldbLaws env.leveldb) where
      served_by :
          (es : List Entry) (p p' : Peer env) (c c' : Calls)
          → process_entries env es p c ≡ returned (p', c')
          → serve_entries env es (view env.leveldb p.kv_db) ≡ returned (view env.leveldb p'.kv_db)
      served_by es p p' c c' h =
          sym (process_entries-serve_entries env reliable laws es p c) ∙ ap (seen_peer env) h

      -- Of a batch of committed entries, whatever the order of the queue and whether or not the peer
      -- leads: every reply is a rejection or an answer in this log.
      pub process_entries-SaidIn :
          (es : List Entry) (p p' : Peer env) (c c' : Calls)
          → All P p.proposals
          → process_entries env es p c ≡ returned (p', c')
          → All P p'.proposals × News (SaidIn es (view env.leveldb p.kv_db)) c c'
      process_entries-SaidIn [] p p' c c' h ran =
          let (same, calls) = process_entries_nil env p p' c c' ran in
          (rw (← same) h, rw (← calls) (News-refl _ c))
      process_entries-SaidIn (e ∷ es) p p' c c' h ran =
          let (q, cq, first, rest) = process_entries_inv env e es p p' c c' ran in
          let m = view env.leveldb p.kv_db in
          let (left, now) = process_entry-Said e p q c cq h first in
          let (lefts, later) = process_entries-SaidIn es q p' cq c' left rest in
          let one = served_by (e ∷ []) p q c cq (one_entry e p q c cq first) in
          (
            lefts,
            News-trans (SaidIn (e ∷ es) m)
                (News-map (Said e m) (SaidIn (e ∷ es) m) (λ x r. here e es m x r) now)
                (News-map (SaidIn es (view env.leveldb q.kv_db)) (SaidIn (e ∷ es) m)
                  (λ x r. SaidIn-later (e ∷ []) es m (view env.leveldb q.kv_db) x one r) later),
          )
        where
          here :
              (e : Entry) (es : List Entry) (m : Map) (x : ℕ × KvResp)
              → Said e m x
              → SaidIn (e ∷ es) m x
          here e es m x (inl r) = inl r
          here e es m x (inr a) = inr (record {
            before = [];
            entry = e;
            after = es;
            cut = refl;
            at = m;
            served = refl;
            answer = a;
          })
