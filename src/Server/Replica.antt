-- ===== src/Server/Replica.antt =====
-- The replicated state machine of each local peer while the whole server serves.
use mathlib.Core.Path.{subst}
use jkv.Base.{
  ℕ, ◌≡◌, refl, sym, ◌>>=◌, ap, ◌∙◌, inl, inr, true, false, Option, none, some, List, [], ◌∷◌, ◌++◌,
  returned, fatal, Outcome, >>=-eq-returned, arith, Bool-cases, find, find-assign, ◌==◌,
}
use jkv.Proto.{Entry}
use jkv.Env.{Env}
use jkv.Storage.{LeveldbLaws}
use jkv.Storage.View.{Map, view, IsReliable}
use jkv.Peer.State.{Peer}
use jkv.Peer.Apply.Machine.{serve_entries}
use jkv.Peer.History.{Event, ticks, delivered_at}
use jkv.Server.Moves.{
  answer_call_inv, member_of, Moves, run_taken_inv, handle_raft_msg_inv, fire_inv,
}
use jkv.Peer.Apply.Machine.{serve_entries-append}
use jkv.Peer.History.Replica.{happen-serve_entries}
use jkv.Server.{Server, take_at, run_at}
use jkv.Server.Inputs.{
  Input, kv_call, raft_call, task_runs, timer_fires, call_answered, receive, serve, delivered_by,
  delivered_in,
}

module _ (env : Env) (j : ℕ) where
  abbrev pub map_of_peer : Option (Peer env) → Option Map
  map_of_peer none = none
  map_of_peer (some p) = some (view env.leveldb p.kv_db)

  -- The map of the local peer `j`.
  abbrev pub map_at : Server env → Option Map
  map_at s = map_of_peer (find j s.host.local_peers)

  -- Serving entries on the map, if there is one.
  abbrev pub serve_at : List Entry → Option Map → Outcome (Option Map)
  serve_at es none = returned none
  serve_at es (some m) = do m' ← serve_entries env es m; returned (some m')

  pub serve_at-append :
      (es fs : List Entry) (a b : Option Map)
      → serve_at es a ≡ returned b
      → serve_at (es ++ fs) a ≡ serve_at fs b
  serve_at-append es fs none b h = let same : none ≡ b = ground arith in rw (← same) refl
  serve_at-append es fs (some m) b h =
      let (m', served, e) = >>=-eq-returned (serve_entries env es m) _ h in
      let same : some m' ≡ b = ground arith in
      rw (← same, serve_entries-append env es fs m, served) refl

  pub serve_at_nil : (a : Option Map) → serve_at [] a ≡ returned a
  serve_at_nil none = refl
  serve_at_nil (some m) = refl

  -- Where it does not abort, the map of the local peer `j` is the given one.
  abbrev MapOf : Option Map → Outcome (Server env) → Type 0
  MapOf o (returned s) = o ≡ map_at s
  MapOf o (fatal e) = Unit {0}

  same_map : (s s' : Server env) → s'.host.local_peers ≡ s.host.local_peers → map_at s ≡ map_at s'
  same_map s s' same = ap (λ m. map_of_peer (find j m)) (sym same)

  module _ (reliable : IsReliable env.leveldb) (laws : LeveldbLaws env.leveldb) where
    -- What happens to one local peer, with the entries that are delivered to the peer `j` by it.
    Moves-serve_at :
        (e : Event) (i : ℕ) (log : List Entry) (s s' : Server env) (v : Moves env e i s s')
        → ((i == j) ≡ true → log ≡ delivered_at env e (member_of env v.peer s))
        → ((i == j) ≡ false → log ≡ [])
        → serve_at log (map_at s) ≡ returned (map_at s')
    Moves-serve_at e i log s s' v mine others = elim (Bool-cases (i == j)) [
      | inl one ↦
          let same : i ≡ j = ground arith in
          let found : find j s.host.local_peers ≡ some v.peer = rw (← same) v.at in
          let served =
            happen-serve_entries env reliable laws e (member_of env v.peer s) v.after v.ran in
          rw
            (
              mine one,
              found,
              v.peers_set,
              find-assign i j v.after.peer s.host.local_peers,
              one,
              served,
            )
            refl
      | inr other ↦
          rw (others other, v.peers_set, find-assign i j v.after.peer s.host.local_peers, other)
            (serve_at_nil (map_at s))
    ]

    pub receive-serve_at :
        (e : Input) (s s' : Server env)
        → receive env e s ≡ returned s'
        → serve_at (delivered_by env j e s) (map_at s) ≡ returned (map_at s')
    unfolding run_at
    receive-serve_at (kv_call req resp done) s s' h =
        serve_at_nil (map_at s) ∙ ap returned (subst (MapOf (map_at s)) h refl)
    receive-serve_at (raft_call req done) s s' h =
        serve_at_nil (map_at s)
        ∙ ap (λ (q : Server env). returned (map_at q)) (handle_raft_msg_inv env req done s s' h)
    receive-serve_at (task_runs n) s s' h = elim (run_taken_inv env (take_at n s.tasks) s s' h) [
      | inl same ↦ serve_at_nil (map_at s) ∙ ap returned (same_map s s' same)
      | inr (ts, e, quiet, (i, v)) ↦
          Moves-serve_at e i [] (record s { tasks = ts }) s' v
            (λ one. sym (quiet (member_of env v.peer s))) (λ other. refl)
    ]
    receive-serve_at (call_answered n) s s' h =
        let (net, _, e) = answer_call_inv env n s s' h in
        serve_at_nil (map_at s) ∙ ap (λ (q : Server env). returned (map_at q)) e
    receive-serve_at (timer_fires i) s s' h =
        let v = fire_inv env i s s' h in
        Moves-serve_at ticks i (delivered_by env j (timer_fires i) s) s s' v
          (λ one. rw (one, timer_at i s v one) refl) (λ other. rw other refl)
      where
        timer_at :
            (i : ℕ) (s : Server env) {s' : Server env} (v : Moves env ticks i s s')
            → (i == j) ≡ true
            → find j s.host.local_peers ≡ some v.peer
        timer_at i s v one = let same : i ≡ j = ground arith in rw (← same) v.at

    -- Over a database that does not fail: whatever calls come in and in whatever order tasks run and
    -- timers fire, if the server does not abort, the map of each local peer is the one that serving the
    -- entries delivered to this peer as committed, in order, makes of its map at the start, and serving
    -- them does not abort.
    pub serve-serve_entries :
        (es : List Input) (s s' : Server env)
        → serve env es s ≡ returned s'
        → serve_at (delivered_in env j es s) (map_at s) ≡ returned (map_at s')
    unfolding serve delivered_in
    serve-serve_entries [] s s' h =
        serve_at_nil (map_at s) ∙ ap returned (subst (MapOf (map_at s)) h refl)
    serve-serve_entries (e ∷ es) s s' h =
        let (s1, first, rest) = >>=-eq-returned (receive env e s) (serve env es) h in
        rw first (
          serve_at-append (delivered_by env j e s) (delivered_in env j es s1) (map_at s) (map_at s1)
            (receive-serve_at e s s1 first)
          ∙ serve-serve_entries es s1 s' rest)
