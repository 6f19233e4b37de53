-- ===== src/Peer/History/Replica.antt =====
-- The replicated state machine over a whole history.
use jkv.Base.{◌≡◌, sym, ap, ◌∙◌, inl, inr, List, [], ◌∷◌, returned}
use jkv.Env.{Env}
use jkv.Storage.{LeveldbLaws}
use jkv.Storage.View.{Map, view, IsReliable}
use jkv.Peer.State.{Peer}
use jkv.Peer.Apply.Machine.{serve_entries-append}
use jkv.Peer.Apply.Machine.{serve_entries, seen_peer, process_entries-serve_entries}
use jkv.Peer.Ready.Frame.{ready_of, appended}
use jkv.Peer.History.Steps.{ticked, ticks_inv, steps_inv, proposes_inv, run_nil, run_inv}
use jkv.Peer.History.{Member, Event, ticks, steps, proposes, happen, run, delivered_at, delivered}

module _ (env : Env) where
  abbrev pub map_of : Member env → Map
  map_of m = view env.leveldb m.peer.kv_db

  module _ (reliable : IsReliable env.leveldb) (laws : LeveldbLaws env.leveldb) where
    pub happen-serve_entries :
        (e : Event) (m m' : Member env)
        → happen env e m ≡ returned m'
        → serve_entries env (delivered_at env e m) (map_of m) ≡ returned (map_of m')
    happen-serve_entries ticks m m' h = elim (ticks_inv env m m' h) [
      | inl i ↦
          rw i.not_ready (ap (λ (p : Peer env). returned (view env.leveldb p.kv_db)) i.peer_same)
      | inr (ready, r) ↦
          let p = ticked env m.peer in
          rw ready (
            sym (
              process_entries-serve_entries env reliable laws
                (env.raft.committed_entries (ready_of env p)) (appended env p) m.calls)
            ∙ ap (seen_peer env) r.processed
            ∙ ap (λ (q : Peer env). returned (view env.leveldb q.kv_db)) (sym r.advanced))
    ]
    happen-serve_entries (steps msg) m m' h =
        ap (λ (q : Member env). returned (map_of q)) (steps_inv env msg m m' h)
    happen-serve_entries (proposes req resp done) m m' h =
        let (s, es, at) = proposes_inv env req resp done m m' h in
        ap (λ (q : Member env). returned (map_of q)) at

    -- After any history that returns, whatever was proposed to the peer and whether or not it led, its
    -- map is the one that serving the entries delivered to it as committed, in order, makes of the map
    -- that it began with, and serving them does not abort.
    pub run-serve_entries :
        (es : List Event) (m m' : Member env)
        → run env es m ≡ returned m'
        → serve_entries env (delivered env es m) (map_of m) ≡ returned (map_of m')
    unfolding delivered
    run-serve_entries [] m m' h = ap (λ (q : Member env). returned (map_of q)) (run_nil env m m' h)
    run-serve_entries (e ∷ es) m m' h =
        let (m1, first, rest) = run_inv env e es m m' h in
        rw (first, serve_entries-append, happen-serve_entries e m m1 first)
          (run-serve_entries es m1 m' rest)
