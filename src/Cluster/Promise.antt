-- ===== src/Cluster/Promise.antt =====
-- What the clients of a cluster are told, over all that its hosts go through.
use mathlib.Core.List.{IsPrefix, flatten, append-nil}
use mathlib.Core.Path.{subst}
use jkv.Base.{
  refl, All, ℕ, ◌≡◌, sym, ap, ◌∙◌, inl, inr, Option, some, List, [], ◌∷◌, ◌++◌, returned,
  >>=-eq-returned, arith, find, find-assign, Bool-cases, ◌==◌,
}
use jkv.Proto.{Entry}
use jkv.Calls.{no_calls}
use jkv.Env.{Env}
use jkv.Storage.{LeveldbLaws, IsDurable}
use jkv.Storage.View.{Map, IsReliable}
use jkv.Peer.State.{GroupMember}
use jkv.Peer.Apply.Machine.{serve_entries}
use jkv.Peer.Apply.Replay.{empty_map}
use jkv.Peer.Proposals.News.{News, News-map}
use jkv.Peer.Propose.Backed.{LogMatching}
use jkv.Peer.History.Honest.{Honest, Honest-later, Honest-longer}
use jkv.Peer.History.Again.{Honest-again}
use jkv.Peer.Apply.Lives.{flatten-IsLeftBy}
use jkv.Server.{Server}
use jkv.Server.Inputs.{delivered_in}
use jkv.Server.Replica.{serve_at}
use jkv.Server.Told.{Asked, TakesInputs}
use jkv.Echo.ServerMain.{Launched, ServerFlags}
use jkv.Echo.Promise.{server_main-Told}
use jkv.Cluster.{
  Deployment, Cluster, NamesMember, Reach, none_yet, later, starts, quits, dies, acts, delivers,
}
use jkv.Cluster.Log.{log_at, past_logs, first_map}
use jkv.Cluster.Runs.{launch_of, inputs_of, Reach-IsRun}
use jkv.Cluster.Disk.{whole_log}
use jkv.Cluster.Durable.{Reach-map_held}
use jkv.Cluster.Recovery.{IsHome}

module _ (env : Env) (d : Deployment env) (home : ℕ) (g : GroupMember)
    (is_home : IsHome env d home g) where
  open env use {leveldb}

  abbrev past : {c : Cluster env} → Reach env d c → List Entry
  past r = flatten (past_logs env d g.peer_id r home)

  abbrev first : {c : Cluster env} → Reach env d c → Option Map
  first r = first_map env d g.peer_id r home

  pub served_map :
      (es : List Entry) (a m : Map)
      → serve_at env g.peer_id es (some a) ≡ returned (some m)
      → serve_entries env es a ≡ returned m
  served_map es a m h =
      let (n, ran, e) = >>=-eq-returned (serve_entries env es a) _ h in
      let same : n ≡ m = ground arith in ran ∙ ap returned same

  named_id : (f : ServerFlags) → f.host_id ≡ home → NamesMember env d f → f.peer_id ≡ g.peer_id
  named_id f here (read, (k, at, id), root) =
      let same : k ≡ g = ground (arith, rw here at at, is_home.member) in
      sym id ∙ ap (λ (x : GroupMember). x.peer_id) same

  module _ (durable : IsDurable leveldb) (reliable : IsReliable leveldb)
      (laws : LeveldbLaws leveldb) where
    -- The map that a start finds is the one that the earlier processes' entries have made.
    pub past-first_map :
        (c : Cluster env) (r : Reach env d c) (m : Map)
        → first r ≡ some m
        → serve_at env g.peer_id (past r) (some (empty_map env)) ≡ returned (some m)
    past-first_map _ none_yet m at = absurd (cc)
    past-first_map _ (later {c} r (starts f w st l names new ran)) m at =
        let r' = later r (starts f w st l names new ran) in
        let held =
          Reach-map_held env d home g is_home.member durable reliable laws is_home.blank _ r' in
        elim (Bool-cases (f.host_id == home)) [
          | inr other ↦ rw other (past-first_map c r m (rw other at at))
          | inl one ↦
              let logs = past_logs env d g.peer_id r home ++ log_at env d g.peer_id r home ∷ [] in
              rw one (
                ap (λ x. serve_at env g.peer_id x (some (empty_map env)))
                  (sym (append-nil (flatten logs)))
                ∙ rw (find-assign f.host_id home l.server c.servers, one) at held
                ∙ ap returned (rw one at at))
        ]
    past-first_map _ (later {c} r (quits k s there)) m at = past-first_map c r m at
    past-first_map _ (later {c} r (dies k s p n there cut)) m at = past-first_map c r m at
    past-first_map _ (later {c} r (acts k e s s' local there ran)) m at = past-first_map c r m at
    past-first_map _ (later {c} r (delivers client req done t t' flies to ran)) m at =
        past-first_map c r m at

    -- The replies since the start, on the map that the start has found.
    told_since :
        (law : LogMatching env.raft) (c : Cluster env) (r : Reach env d c) (s : Server env)
        (l : Launched env)
        → find home c.servers ≡ some s
        → launch_of env d r home ≡ some l
        → TakesInputs env law (inputs_of env d r home) l.server
        → (m : Map) × (first r ≡ some m)
          × News
              (Honest env law (Asked (inputs_of env d r home)) (log_at env d g.peer_id r home) m)
              no_calls
              s.calls
    told_since law c r s l at launched takes =
        let o = Reach-IsRun env d c r home s at in
        let es = inputs_of env d r home in
        let same : l ≡ o.launch = ground (arith, launched, o.launched) in
        let (m, began, told) =
          server_main-Told env law o.flags o.worker o.storage o.files o.launch es s reliable laws
            o.launches (rw (← same) takes) o.served in
        let id = named_id o.flags o.here o.names in
        let log : delivered_in env o.flags.peer_id es o.launch.server
            ≡ log_at env d g.peer_id r home =
          ap (λ j. delivered_in env j es o.launch.server) id ∙ o.log g.peer_id in
        (
          m,
          o.first g.peer_id ∙ rw id at began,
          subst (λ t. News (Honest env law (Asked es) t m) no_calls s.calls) log told,
        )

    -- In a cluster that begins without a database at the path of a host's member, over databases that
    -- outlive their processes and do not fail, and after any requests, tasks, timers, deliveries, ends
    -- in the middle of a round and restarts: every reply that the server that runs there has sent to a
    -- client is a rejection, or it answers a request that has come in since its start with the closure
    -- that it runs: there is an entry with this request in the log of what the peers of the host have
    -- been handed over and have applied, over all its processes, and the reply says what the map says
    -- that the log before the entry makes of the empty one. The requests that the server's raft node is
    -- offered as a leader are accepted, its log has an index left for each, the messages that it is
    -- stepped with are those of correct servers, and raft keeps its log matching property.
    pub Reach-Told :
        (law : LogMatching env.raft) (c : Cluster env) (r : Reach env d c) (s : Server env)
        (l : Launched env)
        → find home c.servers ≡ some s
        → launch_of env d r home ≡ some l
        → TakesInputs env law (inputs_of env d r home) l.server
        → News
            (Honest env law
              (Asked (inputs_of env d r home))
              (whole_log env d home g r)
              (empty_map env))
            no_calls
            s.calls
    Reach-Told law c r s l at launched takes =
        let es = inputs_of env d r home in
        let (m, began, told) = told_since law c r s l at launched takes in
        let held = served_map (past r) (empty_map env) m (past-first_map c r m began) in
        News-map (Honest env law (Asked es) (log_at env d g.peer_id r home) m)
          (Honest env law (Asked es) (whole_log env d home g r) (empty_map env))
          (λ x a.
            Honest-later env law (Asked es) (past r) (log_at env d g.peer_id r home) (empty_map env)
              m x held a)
          told

    -- In a cluster that begins without a database at the path of a host's member, over databases that
    -- outlive their processes and do not fail: when what each process of the host has been delivered,
    -- that is what its peer has been handed over and has applied, begins one log of the group, and this
    -- log can be served from the empty map, every reply that the server that runs there has sent to a
    -- client is a rejection, or it answers a request that has come in since its start with the closure
    -- that it runs: there is an entry with this request in the group's log, and the reply says what the
    -- map says that the group's log before the entry makes of the empty one. The requests that the
    -- server's raft node is offered as a leader are accepted, its log has an index left for each, the
    -- messages that it is stepped with are those of correct servers, and raft keeps its log matching
    -- property.
    pub Reach-one_history :
        (law : LogMatching env.raft) (c : Cluster env) (r : Reach env d c) (s : Server env)
        (l : Launched env) (log : List Entry) (m : Map)
        → find home c.servers ≡ some s
        → launch_of env d r home ≡ some l
        → TakesInputs env law (inputs_of env d r home) l.server
        → All (λ k. IsPrefix k log) (past_logs env d g.peer_id r home)
        → IsPrefix (log_at env d g.peer_id r home) log
        → serve_entries env log (empty_map env) ≡ returned m
        → News
            (Honest env law (Asked (inputs_of env d r home)) log (empty_map env))
            no_calls
            s.calls
    Reach-one_history law c r s l log m at launched takes earlier current ran =
        let asks = Asked (inputs_of env d r home) in
        let mine = log_at env d g.peer_id r home in
        let (n, began, told) = told_since law c r s l at launched takes in
        let held = served_map (past r) (empty_map env) n (past-first_map c r n began) in
        let left =
          flatten-IsLeftBy env (past_logs env d g.peer_id r home) log (empty_map env) n earlier
            (λ k w. refl) held in
        News-map (Honest env law asks mine n) (Honest env law asks log (empty_map env))
          (λ x a. Honest-again env law asks log n m x left ran (
            subst (λ t. Honest env law asks t n x) current.1
              (Honest-longer env law asks mine current.0 n x a)))
          told
