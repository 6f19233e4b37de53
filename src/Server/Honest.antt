-- ===== src/Server/Honest.antt =====
-- What the clients are told at one input of the server.
use mathlib.Core.Path.{subst}
use jkv.Base.{
  ℕ, ◌≡◌, refl, ap, ◌∙◌, ◌⊎◌, inl, inr, Option, none, some, List, [], ◌∷◌, ◌++◌, All, All-append,
  returned, fatal, Outcome, >>=-eq-returned, arith, find, AllIn, find-AllIn, assign-AllIn, ==_refl,
}
use jkv.Proto.{KvReq, KvResp, Entry}
use jkv.Calls
use jkv.Calls.{Calls, set_rejected}
use jkv.Env.{Env}
use jkv.Storage.{LeveldbLaws}
use jkv.Storage.View.{Map, IsReliable}
use jkv.Peer.Proposals.News.{News, News-refl, News-map, News-reject, IsRejected}
use jkv.Peer.Apply.Machine.{serve_entries}
use jkv.Peer.Propose.Backed.{LogMatching}
use jkv.Peer.History.{Event, ticks, steps, proposes, delivered_at}
use jkv.Peer.History.Replica.{map_of}
use jkv.Peer.History.Honest.{ToldIn, Honest, Honest-longer, Honest-later}
use jkv.Peer.History.Told.{TakesAt, AsksAt, Backs, happen-Honest}
use jkv.Server.{Task, kv_op_cb, handle_raft_msg_cb, Server, take_at, run_taken, run_at}
use jkv.Server.Inputs.{
  Input, kv_call, raft_call, task_runs, timer_fires, call_answered, receive, delivered_by,
  delivered_in,
}
use jkv.Server.Moves.{
  answer_call_inv, handle_raft_msg_inv, AllTaken, take_at-AllTaken, member_of, Moves, run_kv_op_inv,
  run_raft_msg_inv, fire_inv,
}
use jkv.Server.Lift.{AtPeer, AtTask, AtInput}
use jkv.Server.Replica.{map_at, serve_at, receive-serve_at}

module _ (env : Env) (law : LogMatching env.raft) (Asks : ℕ → KvReq → Type 0) where
  -- A reply is a rejection, or the truth about the log of one of the local peers.
  abbrev pub HonestAt : (ℕ → List Entry) → (ℕ → Option Map) → ℕ × KvResp → Type 0
  HonestAt logs maps x =
      IsRejected x ⊎ ((j : ℕ) × (m : Map) × (maps j ≡ some m) × ToldIn env law Asks (logs j) m x)

  abbrev pub AskedTask : Task → Type 0
  AskedTask (kv_op_cb req resp done) = Asks done req
  AskedTask (handle_raft_msg_cb req done) = Unit {0}

  abbrev AskedTaken : Option (Task × List Task) → Type 0
  AskedTaken = AllTaken AskedTask

  abbrev pub AskedInput : Input → Type 0
  AskedInput (kv_call req resp done) = Asks done req
  AskedInput (raft_call req done) = Unit {0}
  AskedInput (task_runs n) = Unit {0}
  AskedInput (call_answered n) = Unit {0}
  AskedInput (timer_fires i) = Unit {0}

  -- Each waiting proposal and each task has the request of its own client.
  pub record IsSound (s : Server env) : Type 0 where
    pub backed : AllIn (Backs env law Asks) s.host.local_peers
    pub asked : All AskedTask s.tasks

  abbrev pub NewsOf : (ℕ × KvResp → Type 0) → Calls → Outcome (Server env) → Type 0
  NewsOf Q c (returned s) = News Q c s.calls
  NewsOf Q c (fatal e) = Unit {0}

  News-run :
      (resp done : ℕ) (c : Calls) → News IsRejected c (Calls.run done resp (set_rejected resp c))
  News-run resp done c = News-reject (record { index = 0; term = 0; resp = resp; done = done }) c

  serve_at-some :
      (j : ℕ) (es : List Entry) (o : Option Map) (m1 : Map)
      → serve_at env j es o ≡ returned (some m1)
      → (m : Map) × (o ≡ some m) × (serve_entries env es m ≡ returned m1)
  serve_at-some j es none m1 h = absurd (ground arith)
  serve_at-some j es (some m) m1 h =
      let (m', served, e) = >>=-eq-returned (serve_entries env es m) _ h in
      let same : m' ≡ m1 = ground arith in (m, refl, served ∙ ap returned same)

  abbrev SoundOf : Outcome (Server env) → Type 0
  SoundOf (returned s) = IsSound s
  SoundOf (fatal e) = Unit {0}

  module _ (reliable : IsReliable env.leveldb) (laws : LeveldbLaws env.leveldb) where
    abbrev pub TakesInput : Input → Server env → Type 0
    TakesInput = AtInput env (TakesAt env law)

    Moves-Honest :
        (e : Event) (i : ℕ) (logs : ℕ → List Entry) (s s' : Server env) (v : Moves env e i s s')
        → logs i ≡ delivered_at env e (member_of env v.peer s)
        → AtPeer env (TakesAt env law) e s (find i s.host.local_peers)
        → AsksAt env law Asks e
        → IsSound s
        → IsSound s' × News (HonestAt logs (λ j. map_at env j s)) s.calls s'.calls
    Moves-Honest e i logs s s' v log takes asks h =
        let m = member_of env v.peer s in
        let before = find-AllIn (Backs env law Asks) i v.peer s.host.local_peers h.backed v.at in
        let (b, sent) =
          happen-Honest env law Asks reliable laws e m v.after v.ran (rw v.at at takes) asks
            before in
        (
          record {
            backed =
                rw v.peers_set
                  (assign-AllIn (Backs env law Asks) i v.after.peer s.host.local_peers b h.backed);
            asked = rw v.tasks_same h.asked;
          },
          rw v.calls_set (
              News-map (Honest env law Asks (delivered_at env e m) (map_of env m))
                (HonestAt logs (λ j. map_at env j s)) of_peer sent),
        )
      where
        of_peer :
            (x : ℕ × KvResp)
            → Honest env law Asks
                (delivered_at env e (member_of env v.peer s))
                (map_of env (member_of env v.peer s))
                x
            → HonestAt logs (λ j. map_at env j s) x
        of_peer x (inl r) = inl r
        of_peer x (inr a) = inr (i, map_of env (member_of env v.peer s), rw v.at refl, rw log a)

    run_taken-Honest :
        (x : Option (Task × List Task)) (s s' : Server env)
        → AtTask env (TakesAt env law) x s
        → AskedTaken x
        → run_taken env x s ≡ returned s'
        → IsSound s
        → IsSound s' × News (HonestAt (λ j. []) (λ j. map_at env j s)) s.calls s'.calls
    run_taken-Honest none s s' takes asks h o =
        let P = HonestAt (λ j. []) (λ j. map_at env j s) in
        subst (λ (r : Outcome (Server env)). SoundOf r × NewsOf P s.calls r) h
          (o, News-refl P s.calls)
    run_taken-Honest (some (kv_op_cb req resp done, ts)) s s' takes asks h o =
        let s1 : Server env = record s { tasks = ts } in
        let o1 : IsSound s1 = record { backed = o.backed; asked = asks.1 } in
        let P = HonestAt (λ j. []) (λ j. map_at env j s) in
        elim (run_kv_op_inv env req resp done s1 s' h) [
          | inl v ↦ Moves-Honest (proposes req resp done) 1 (λ j. []) s1 s' v refl takes asks.0 o1
          | inr e ↦ rw (← e) (
            record { backed = o.backed; asked = asks.1 },
            News-map IsRejected P (λ x r. inl r) (News-run resp done s.calls),
          )
        ]
    run_taken-Honest (some (handle_raft_msg_cb req done, ts)) s s' takes asks h o =
        let s1 : Server env = record s { tasks = ts } in
        let o1 : IsSound s1 = record { backed = o.backed; asked = asks.1 } in
        Moves-Honest (steps req.msg) req.to_peer.peer_id (λ j. []) s1 s'
          (run_raft_msg_inv env req done s1 s' h) refl takes tt o1

    pub receive-Honest :
        (e : Input) (s s' : Server env)
        → TakesInput e s
        → AskedInput e
        → receive env e s ≡ returned s'
        → IsSound s
        → IsSound s'
          × News (HonestAt (λ j. delivered_by env j e s) (λ j. map_at env j s)) s.calls s'.calls
    unfolding run_at
    receive-Honest (kv_call req resp done) s s' takes asks h o =
        let P = HonestAt (λ j. []) (λ j. map_at env j s) in
        subst (λ (r : Outcome (Server env)). SoundOf r × NewsOf P s.calls r) h
          (
            record {
              backed = o.backed;
              asked = All-append AskedTask s.tasks (kv_op_cb req resp done ∷ []) o.asked (asks, tt);
            },
            News-refl P s.calls,
          )
    receive-Honest (raft_call req done) s s' takes asks h o =
        let P = HonestAt (λ j. []) (λ j. map_at env j s) in
        subst (λ (q : Server env). IsSound q × News P s.calls q.calls)
          (handle_raft_msg_inv env req done s s' h)
          (
            record {
              backed = o.backed;
              asked =
                  All-append AskedTask s.tasks (handle_raft_msg_cb req done ∷ []) o.asked (tt, tt);
            },
            News-refl P s.calls,
          )
    receive-Honest (task_runs n) s s' takes asks h o =
        run_taken-Honest (take_at n s.tasks) s s' takes
          (take_at-AllTaken AskedTask n s.tasks o.asked) h o
    receive-Honest (call_answered n) s s' takes asks h o =
        let P = HonestAt (λ j. []) (λ j. map_at env j s) in
        let (net, _, e) = answer_call_inv env n s s' h in
        subst (λ (q : Server env). IsSound q × News P s.calls q.calls) e
          (record { backed = o.backed; asked = o.asked }, News-refl P s.calls)
    receive-Honest (timer_fires i) s s' takes asks h o =
        let v = fire_inv env i s s' h in
        let log : delivered_by env i (timer_fires i) s
            ≡ delivered_at env ticks (member_of env v.peer s) =
          rw (==_refl i, v.at) refl in
        Moves-Honest ticks i (λ j. delivered_by env j (timer_fires i) s) s s' v log takes tt o

    pub HonestAt-longer :
        (e : Input) (es : List Input) (s s1 : Server env) (x : ℕ × KvResp)
        → receive env e s ≡ returned s1
        → HonestAt (λ j. delivered_by env j e s) (λ j. map_at env j s) x
        → HonestAt (λ j. delivered_by env j e s ++ delivered_in env j es s1) (λ j. map_at env j s) x
    HonestAt-longer e es s s1 x ran (inl r) = inl r
    HonestAt-longer e es s s1 x ran (inr (j, m, at, a)) =
        elim (Honest-longer env law Asks (delivered_by env j e s) (delivered_in env j es s1) m x
          (inr a)) [ inl r ↦ inl r | inr b ↦ inr (j, m, at, b) ]

    pub HonestAt-later :
        (e : Input) (es : List Input) (s s1 : Server env) (x : ℕ × KvResp)
        → receive env e s ≡ returned s1
        → HonestAt (λ j. delivered_in env j es s1) (λ j. map_at env j s1) x
        → HonestAt (λ j. delivered_by env j e s ++ delivered_in env j es s1) (λ j. map_at env j s) x
    HonestAt-later e es s s1 x ran (inl r) = inl r
    HonestAt-later e es s s1 x ran (inr (j, m1, at, a)) =
        let (m, before, served) =
          serve_at-some j (delivered_by env j e s) (map_at env j s) m1
            (receive-serve_at env j reliable laws e s s1 ran ∙ ap returned at) in
        elim (Honest-later env law Asks (delivered_by env j e s) (delivered_in env j es s1) m m1 x
          served (inr a)) [ inl r ↦ inl r | inr b ↦ inr (j, m, before, b) ]
