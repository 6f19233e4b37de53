-- ===== src/Echo/Promise.antt =====
-- What the clients of an echo server are told, from its start on.
use mathlib.Core.Path.{subst}
use jkv.Base.{
  some-injective, none-ne-some, ℕ, ◌≡◌, refl, ap, inl, inr, some, List, ◌∷◌, sym, ◌∙◌, returned,
  arith, Bool-cases, false, ==_refl, ◌==◌, none, [],
}
use jkv.Proto.{KvResp}
use jkv.Calls.{no_calls}
use jkv.Env.{Env}
use jkv.Storage.{LeveldbLaws}
use jkv.Storage.View.{Map, view, IsReliable}
use jkv.Peer.State.{Peer}
use jkv.Peer.Proposals.News.{News, News-map}
use jkv.Peer.Propose.Backed.{LogMatching}
use jkv.Peer.History.Honest.{ToldIn, Honest}
use jkv.Server.{Server}
use jkv.Server.Inputs.{Input, serve, delivered_in}
use jkv.Server.Replica.{map_at}
use jkv.Server.Honest.{HonestAt}
use jkv.Server.Told.{Asked, TakesInputs, serve-Told}
use jkv.Echo.ServerMain.{ServerFlags, Launched, server_main}
use jkv.Echo.Launch.{server_main_lem}

module _ (env : Env) (law : LogMatching env.raft) where
  open env use {raft, jrpc, leveldb}

  -- With one local peer, the truth about the log of a local peer is that about the log of this one.
  only-Honest :
      (es : List Input) (s : Server env) (i : ℕ) (p : Peer env) (m : Map) (x : ℕ × KvResp)
      → s.host.local_peers ≡ (i, p) ∷ []
      → map_at env i s ≡ some m
      → HonestAt env law (Asked es) (λ j. delivered_in env j es s) (λ j. map_at env j s) x
      → Honest env law (Asked es) (delivered_in env i es s) m x
  only-Honest es s i p m x only at (inl r) = inl r
  only-Honest es s i p m x only at (inr (j, m1, at1, a)) = elim (Bool-cases (i == j)) [
    | inl e ↦
        let one : i ≡ j = ground arith in
        let same : m1 ≡ m =
          some-injective m1 m (sym at1 ∙ ap (λ k. map_at env k s) (sym one) ∙ at) in
        inr (
          subst (λ k. ToldIn env law (Asked es) (delivered_in env k es s) m x) (sym one)
            (subst (λ n. ToldIn env law (Asked es) (delivered_in env j es s) n x) same a))
    | inr e ↦ absurd (none-ne-some m1 (sym (map_at_other i j p s only e) ∙ at1))
  ]
    where
      map_at_other :
          (i j : ℕ) (p : Peer env) (s : Server env)
          → s.host.local_peers ≡ (i, p) ∷ []
          → (i == j) ≡ false
          → map_at env j s ≡ none
      map_at_other i j p s only e = rw (only, e) refl

  -- From the start of an echo server on, whatever calls come in and in whatever order tasks run and
  -- timers fire, if nothing aborts, every reply that a client is sent is a rejection, or it answers a
  -- request that came in with the closure that it runs: there is an entry with this request in the log
  -- that the server's peer has been handed over, and the reply says what the map says that the log
  -- before the entry makes of the one that was in the database at the start. The requests that a
  -- leading peer's raft node is offered are accepted, the log of the peer has an index left for each,
  -- the messages that raft is stepped with are those of correct servers, raft keeps its log matching
  -- property and the database does not fail.
  pub server_main-Told :
      (f : ServerFlags) (worker : jrpc.Worker) (storage : raft.Storage) (fs : leveldb.Files)
      (l : Launched env) (es : List Input) (s : Server env)
      → IsReliable leveldb
      → LeveldbLaws leveldb
      → server_main env f worker storage fs ≡ returned l
      → TakesInputs env law es l.server
      → serve env es l.server ≡ returned s
      → (m : Map) × (map_at env f.peer_id l.server ≡ some m)
        × News
            (Honest env law (Asked es) (delivered_in env f.peer_id es l.server) m)
            no_calls
            s.calls
  server_main-Told f worker storage fs l es s reliable laws launched takes h =
      let started = server_main_lem env f worker storage fs l launched in
      let (p, only, _, nobody, _, _) = started.3 in
      let m = view leveldb p.kv_db in
      let at : map_at env f.peer_id l.server ≡ some m = rw (only, ==_refl f.peer_id) refl in
      let P = Honest env law (Asked es) (delivered_in env f.peer_id es l.server) m in
      let sent =
        serve-Told env law es l.server s reliable laws started.5 (rw only (nobody, tt)) takes h in
      let told =
        News-map
          (HonestAt env law (Asked es) (λ j. delivered_in env j es l.server)
            (λ j. map_at env j l.server))
          P (λ x. only-Honest es l.server f.peer_id p m x only at) sent in
      (m, at, subst (λ c. News P c s.calls) started.4 told)
