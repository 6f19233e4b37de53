-- ===== src/Server/Told.antt =====
-- What the clients are told while the server serves.
use mathlib.Core.Path.{subst}
use jkv.Base.{
  ℕ, ◌≡◌, refl, ◌⊎◌, inl, inr, List, [], ◌∷◌, ◌++◌, returned, >>=-eq-returned, AllIn, Table,
}
use jkv.Proto.{KvReq}
use jkv.Env.{Env}
use jkv.Storage.{LeveldbLaws}
use jkv.Storage.View.{IsReliable}
use jkv.Peer.State.{Peer}
use jkv.Peer.Proposals.News.{News, News-refl, News-trans, News-map}
use jkv.Peer.Propose.Backed.{LogMatching}
use jkv.Peer.History.Told.{TakesAt, Backs}
use jkv.Server.{Server}
use jkv.Server.Inputs.{
  Input, kv_call, raft_call, task_runs, timer_fires, call_answered, receive, serve, delivered_by,
  delivered_in,
}
use jkv.Server.Lift.{AtInputs}
use jkv.Server.Replica.{map_at}
use jkv.Server.Honest.{
  HonestAt, NewsOf, AskedInput, IsSound, receive-Honest, HonestAt-longer, HonestAt-later,
}

-- The closure `d` is that of a call with the request `r`, one of those that come in.
abbrev pub AskedBy : Input → ℕ → KvReq → Type 0
AskedBy (kv_call req resp done) d r = (d ≡ done) × (r ≡ req)
AskedBy (raft_call req done) d r = ⊥
AskedBy (task_runs n) d r = ⊥
AskedBy (timer_fires i) d r = ⊥
AskedBy (call_answered n) d r = ⊥

abbrev pub Asked : List Input → ℕ → KvReq → Type 0
Asked [] d r = ⊥
Asked (e ∷ es) d r = AskedBy e d r ⊎ Asked es d r

-- No proposal waits.
abbrev pub IsIdle : {env : Env} → Peer env → Type 0
IsIdle p = p.proposals ≡ []

module _ (env : Env) (law : LogMatching env.raft) where
  -- Raft accepts every request whose task runs, if the peer that it goes to leads, the log of that peer
  -- has an index left, and the messages that raft is stepped with are sound.
  abbrev pub TakesInputs : List Input → Server env → Type 0
  TakesInputs = AtInputs env (TakesAt env law)

  module _ (Asks : ℕ → KvReq → Type 0) where
    AskedBy-AskedInput :
        (e : Input) → ((d : ℕ) (r : KvReq) → AskedBy e d r → Asks d r) → AskedInput env law Asks e
    AskedBy-AskedInput (kv_call req resp done) h = h done req (refl, refl)
    AskedBy-AskedInput (raft_call req done) h = tt
    AskedBy-AskedInput (task_runs n) h = tt
    AskedBy-AskedInput (timer_fires i) h = tt
    AskedBy-AskedInput (call_answered n) h = tt

    idle-Backs : (m : Table (Peer env)) → AllIn IsIdle m → AllIn (Backs env law Asks) m
    idle-Backs [] h = tt
    idle-Backs ((j, p) ∷ m) h = (rw h.0 tt, idle-Backs m h.1)

    serve-Honest :
        (reliable : IsReliable env.leveldb) (laws : LeveldbLaws env.leveldb) (es : List Input)
        (s s' : Server env)
        → TakesInputs es s
        → ((d : ℕ) (r : KvReq) → Asked es d r → Asks d r)
        → serve env es s ≡ returned s'
        → IsSound env law Asks s
        → News
            (HonestAt env law Asks (λ j. delivered_in env j es s) (λ j. map_at env j s))
            s.calls
            s'.calls
    unfolding serve delivered_in
    serve-Honest reliable laws [] s s' takes asks h o =
        let P = HonestAt env law Asks (λ j. []) (λ j. map_at env j s) in
        subst (NewsOf env law Asks P s.calls) h (News-refl P s.calls)
    serve-Honest reliable laws (e ∷ es) s s' takes asks h o =
        let (s1, first, rest) = >>=-eq-returned (receive env e s) (serve env es) h in
        let P =
          HonestAt env law Asks (λ j. delivered_by env j e s ++ delivered_in env j es s1)
            (λ j. map_at env j s) in
        let (o1, sent) =
          receive-Honest env law Asks reliable laws e s s1 takes.0
            (AskedBy-AskedInput e (λ d r a. asks d r (inl a))) first o in
        let more =
          serve-Honest reliable laws es s1 s' (rw first at takes.1) (λ d r a. asks d r (inr a)) rest
            o1 in
        rw first (
          News-trans P
            (News-map (HonestAt env law Asks (λ j. delivered_by env j e s) (λ j. map_at env j s)) P
              (λ x. HonestAt-longer env law Asks reliable laws e es s s1 x first) sent)
            (News-map (HonestAt env law Asks (λ j. delivered_in env j es s1) (λ j. map_at env j s1))
              P (λ x. HonestAt-later env law Asks reliable laws e es s s1 x first) more))

  -- On a server that begins with no tasks and no proposals, whatever calls come in and in whatever
  -- order tasks run and timers fire, if it does not abort, every reply that it sends to a client is a
  -- rejection, or it answers a request that came in with the closure that it runs: there is an entry
  -- with this request in the log that a local peer has been handed over, and the reply says what the
  -- map says that the log before the entry makes of that peer's first one. The requests that a leading
  -- peer's raft node is offered are accepted, the log of the peer has an index left for each, the
  -- messages that raft is stepped with are those of correct servers, raft keeps its log matching
  -- property and the database does not fail.
  pub serve-Told :
      (es : List Input) (s s' : Server env)
      → IsReliable env.leveldb
      → LeveldbLaws env.leveldb
      → s.tasks ≡ []
      → AllIn IsIdle s.host.local_peers
      → TakesInputs es s
      → serve env es s ≡ returned s'
      → News
          (HonestAt env law (Asked es) (λ j. delivered_in env j es s) (λ j. map_at env j s))
          s.calls
          s'.calls
  serve-Told es s s' reliable laws free idle takes h =
      serve-Honest (Asked es) reliable laws es s s' takes (λ d r a. a) h
        (record { backed = idle-Backs (Asked es) s.host.local_peers idle; asked = rw free tt })
