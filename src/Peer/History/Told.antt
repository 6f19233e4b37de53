-- ===== src/Peer/History/Told.antt =====
-- What the clients are told over a whole history.
use mathlib.Core.Path.{subst}
use jkv.Base.{
  ℕ, ◌+◌, ◌^◌, ◌<◌, ◌≡◌, refl, sym, ap, ◌⊎◌, inl, inr, true, some, List, [], ◌∷◌, ◌++◌, All,
  returned, fatal, Bytes,
}
use jkv.Proto.{KvReq, Entry, ok}
use jkv.Env.{Env}
use jkv.Storage.{LeveldbLaws}
use jkv.Storage.View.{view, IsReliable}
use jkv.Peer.State.{Peer}
use jkv.Peer.Proposals.{Proposal}
use jkv.Peer.Proposals.News.{News, News-refl, News-trans, News-map}
use jkv.Peer.Apply.Told.{SaidIn, process_entries-SaidIn}
use jkv.Peer.Propose.Backed.{LogMatching, IsBacked, All-IsBacked, proposed-IsBacked}
use jkv.Peer.Ready.{append_entries}
use jkv.Peer.Ready.Frame.{Round, ready_of, appended, process_entries-SameBut}
use jkv.Peer.History.{Member, Event, ticks, steps, proposes, happen, run, delivered_at, delivered}
use jkv.Peer.History.Steps.{ticked, ticks_inv, steps_inv, proposes_inv, run_nil, run_inv}
use jkv.Peer.History.Replica.{map_of, happen-serve_entries}
use jkv.Peer.History.Honest.{Honest, SaidIn-Honest, Honest-longer, Honest-later}

module _ (env : Env) (law : LogMatching env.raft) where
  open env use {raft, codec}

  -- Raft accepts a request that the peer makes as a leader, and the log has room for it; a message that
  -- raft is stepped with is sound.
  abbrev pub TakesAt : Event → Member env → Type 0
  TakesAt ticks m = Unit {0}
  TakesAt (steps msg) m = law.Sound m.peer.raw_node msg
  TakesAt (proposes req resp done) m =
      ((s : Bytes)
        → codec.serialize req ≡ some s
        → raft.is_leader m.peer.raw_node ≡ true
        → (raft.propose m.peer.raw_node s).0 ≡ ok)
      × (raft.last_index m.peer.raw_node + 1 < 2 ^ 64)

  abbrev pub TakesAll : List Event → Member env → Type 0
  TakesAll [] m = Unit {0}
  TakesAll (e ∷ es) m =
      TakesAt e m × (elim (happen env e m) [ returned m1 ↦ TakesAll es m1 | fatal f ↦ Unit {0} ])

module _ (env : Env) (law : LogMatching env.raft) (Asks : ℕ → KvReq → Type 0) where
  open env use {raft, codec}

  -- What is asked at an event.
  abbrev pub AsksAt : Event → Type 0
  AsksAt ticks = Unit {0}
  AsksAt (steps msg) = Unit {0}
  AsksAt (proposes req resp done) = Asks done req

  abbrev pub Backs : Peer env → Type 0
  Backs p = All (IsBacked env law Asks p.raw_node) p.proposals

  module _ (reliable : IsReliable env.leveldb) (laws : LeveldbLaws env.leveldb) where
    Round-Honest :
        (p : Peer env) (m m' : Member env)
        → Round env p m'.peer m.net m'.net m.calls m'.calls
        → Backs p
        → Backs m'.peer
          × News
              (Honest env law Asks
                (raft.committed_entries (ready_of env p))
                (view env.leveldb p.kv_db))
              m.calls
              m'.calls
    Round-Honest p m m' r h =
        let n = p.raw_node in
        let es = raft.committed_entries (ready_of env p) in
        let a = appended env p in
        let (left, sent) =
          process_entries-SaidIn env (IsBacked env law Asks n) reliable laws es a r.applied m.calls
            m'.calls h r.processed in
        let node =
          (process_entries-SameBut env es a r.applied m.calls m'.calls r.processed).raw_node_same in
        let kept : All (IsBacked env law Asks m'.peer.raw_node) r.applied.proposals =
          All-IsBacked env law Asks n m'.peer.raw_node r.applied.proposals
            (λ t i s put.
              subst (λ (q : Peer env). law.Put q.raw_node t i s) (sym r.advanced)
                (law.put_advance r.applied.raw_node (ready_of env p) t i s (
                  subst (λ k. law.Put k t i s) (sym node)
                    (put_append_entries (raft.get_ready n).1 (raft.entries (ready_of env p)) t i s
                      (law.put_get_ready n t i s put)))))
            left in
        (
          subst (λ (ps : List Proposal). All (IsBacked env law Asks m'.peer.raw_node) ps)
              (sym (ap (λ (q : Peer env). q.proposals) r.advanced)) kept,
          News-map (SaidIn env (IsBacked env law Asks n) es (view env.leveldb p.kv_db)) _
              (λ x s. SaidIn-Honest env law Asks n (view env.leveldb p.kv_db) x s) sent,
        )
      where
        put_append_entries :
            (n : raft.Node) (es : List Entry) (t i : ℕ) (s : Bytes)
            → law.Put n t i s
            → law.Put (append_entries env n es) t i s
        put_append_entries n [] t i s put = put
        put_append_entries n (e ∷ es) t i s put = law.put_append n (e ∷ es) t i s put

    pub happen-Honest :
        (e : Event) (m m' : Member env)
        → happen env e m ≡ returned m'
        → TakesAt env law e m
        → AsksAt e
        → Backs m.peer
        → Backs m'.peer
          × News (Honest env law Asks (delivered_at env e m) (map_of env m)) m.calls m'.calls
    happen-Honest ticks m m' h takes asks b =
        let p = ticked env m.peer in
        let b1 =
          All-IsBacked env law Asks m.peer.raw_node p.raw_node p.proposals
            (law.put_tick m.peer.raw_node) b in
        elim (ticks_inv env m m' h) [
          | inl i ↦ (
            subst Backs i.peer_same b1,
            subst
                (λ c.
                  News (Honest env law Asks (delivered_at env ticks m) (map_of env m)) m.calls c)
                i.calls_same
                (News-refl (Honest env law Asks (delivered_at env ticks m) (map_of env m)) m.calls),
          )
          | inr (ready, r) ↦ rw ready (Round-Honest p m m' r b1)
        ]
    happen-Honest (steps msg) m m' h takes asks b =
        let n = (raft.step m.peer.raw_node msg).1 in
        rw (← steps_inv env msg m m' h) (
          All-IsBacked env law Asks m.peer.raw_node n m.peer.proposals
              (law.put_step m.peer.raw_node msg takes) b,
          News-refl _ m.calls,
        )
    happen-Honest (proposes req resp done) m m' h takes asks b =
        let (s, ser, at) = proposes_inv env req resp done m m' h in
        rw (← at) (
          proposed-IsBacked env law Asks req s resp done m.peer ser asks (takes.0 s ser) takes.1 b,
          News-refl _ m.calls,
        )

    run-Honest :
        (es : List Event) (m m' : Member env)
        → run env es m ≡ returned m'
        → TakesAll env law es m
        → All AsksAt es
        → Backs m.peer
        → News (Honest env law Asks (delivered env es m) (map_of env m)) m.calls m'.calls
    unfolding delivered
    run-Honest [] m m' h takes asks b =
        subst
          (λ (q : Member env).
            News (Honest env law Asks (delivered env [] m) (map_of env m)) m.calls q.calls)
          (run_nil env m m' h)
          (News-refl (Honest env law Asks (delivered env [] m) (map_of env m)) m.calls)
    run-Honest (e ∷ es) m m' h takes asks b =
        let (m1, first, rest) = run_inv env e es m m' h in
        let now = delivered_at env e m in
        let later = delivered env es m1 in
        let (b1, sent) = happen-Honest e m m1 first takes.0 asks.0 b in
        let sents = run-Honest es m1 m' rest (rw first at takes.1) asks.1 b1 in
        rw first (
          News-trans (Honest env law Asks (now ++ later) (map_of env m))
            (News-map (Honest env law Asks now (map_of env m)) _
              (λ x a. Honest-longer env law Asks now later (map_of env m) x a) sent)
            (News-map (Honest env law Asks later (map_of env m1)) _
              (λ x a.
                Honest-later env law Asks now later (map_of env m) (map_of env m1) x
                  (happen-serve_entries env reliable laws e m m1 first) a)
              sents))

-- The closure `d` is that of a call with the request `r`, one of those made at these events.
abbrev pub AskedAt : Event → ℕ → KvReq → Type 0
AskedAt ticks d r = ⊥
AskedAt (steps msg) d r = ⊥
AskedAt (proposes req resp done) d r = (d ≡ done) × (r ≡ req)

abbrev pub Asked : List Event → ℕ → KvReq → Type 0
Asked [] d r = ⊥
Asked (e ∷ es) d r = AskedAt e d r ⊎ Asked es d r

AskedAt-AsksAt :
    (env : Env) (law : LogMatching env.raft) (Asks : ℕ → KvReq → Type 0) (e : Event)
    → ((d : ℕ) (r : KvReq) → AskedAt e d r → Asks d r)
    → AsksAt env law Asks e
AskedAt-AsksAt env law Asks ticks h = tt
AskedAt-AsksAt env law Asks (steps msg) h = tt
AskedAt-AsksAt env law Asks (proposes req resp done) h = h done req (refl, refl)

Asked-AsksAt :
    (env : Env) (law : LogMatching env.raft) (Asks : ℕ → KvReq → Type 0) (es : List Event)
    → ((d : ℕ) (r : KvReq) → Asked es d r → Asks d r)
    → All (AsksAt env law Asks) es
Asked-AsksAt env law Asks [] h = tt
Asked-AsksAt env law Asks (e ∷ es) h = (
  AskedAt-AsksAt env law Asks e (λ d r a. h d r (inl a)),
  Asked-AsksAt env law Asks es (λ d r a. h d r (inr a)),
)

-- In a history that returns, of a peer on which no proposal waits at first, every reply that is sent is
-- a rejection, or it answers a request that was made with the closure that it runs: there is an entry
-- of the log with this request, and the reply says what the map says that the log before the entry
-- makes of the first one. The requests that a leading peer's raft node is offered are accepted, its log
-- has an index left for each, the messages that it is stepped with are those of correct servers, and
-- raft keeps its log matching property.
pub run-Told :
    (env : Env) (law : LogMatching env.raft) (es : List Event) (m m' : Member env)
    → IsReliable env.leveldb
    → LeveldbLaws env.leveldb
    → m.peer.proposals ≡ []
    → TakesAll env law es m
    → run env es m ≡ returned m'
    → News (Honest env law (Asked es) (delivered env es m) (map_of env m)) m.calls m'.calls
run-Told env law es m m' reliable laws none_waits takes h =
    run-Honest env law (Asked es) reliable laws es m m' h takes
      (Asked-AsksAt env law (Asked es) es (λ d r a. a)) (rw none_waits tt)
