-- ===== src/Server/Ticks.antt =====
-- A timer that fires, with its aborts.
use jkv.Base.{
  ℕ, ◌≡◌, refl, ap, ◌∙◌, inl, inr, false, Option, some, All, Outcome, returned, fatal, ◌>>=◌,
  Bool-cases, find, find-assign, ==_refl,
}
use jkv.Calls.{Calls}
use jkv.Env.{Env}
use jkv.Clients.{Net}
use jkv.Storage.{LeveldbLaws}
use jkv.Storage.View.{Map, view, IsReliable}
use jkv.Peer.State.{Peer}
use jkv.Peer.Apply.{process_entries}
use jkv.Peer.Apply.Machine.{serve_entries, seen_peer, process_entries-serve_entries}
use jkv.Peer.Send.Order.{IsMember, send_msgs_total}
use jkv.Peer.Ready.{tick, handle_raft_ready, handle_ready}
use jkv.Peer.Ready.Frame.{ready_of, appended, process_entries_guard, send_msgs_guard}
use jkv.Peer.History.{ticks, delivered_at}
use jkv.Peer.History.Steps.{ticked}
use jkv.Server.{Server, fire, put_peer}
use jkv.Server.Inputs.{timer_fires, delivered_by}
use jkv.Server.Replica.{map_at, serve_at}

module _ (env : Env) where
  open env use {raft, jrpc, leveldb}

  -- The map that is left, or the abort.
  abbrev seen_tick : Outcome (Peer env × Net env × Calls) → Outcome Map
  seen_tick (returned (p, net, c)) = returned (view leveldb p.kv_db)
  seen_tick (fatal e) = fatal e

  abbrev pub seen_at : ℕ → Outcome (Server env) → Outcome (Option Map)
  seen_at j (returned s) = returned (map_at env j s)
  seen_at j (fatal e) = fatal e

  seen_tick-advance :
      (m : Outcome (Peer env × Calls)) (net : Net env) (rd : raft.Ready)
      → seen_tick (
          m >>= λ (x : Peer env × Calls).
          returned (record (x.0) { raw_node = raft.advance x.0.raw_node rd }, net, x.1))
        ≡ seen_peer env m
  seen_tick-advance (returned x) net rd = refl
  seen_tick-advance (fatal e) net rd = refl

  module _ (fine : (c : jrpc.Client) → (jrpc.connect c).0 ≡ false) (reliable : IsReliable leveldb)
      (laws : LeveldbLaws leveldb) where
    seen-handle_ready :
        (p : Peer env) (net : Net env) (c : Calls)
        → All (IsMember env p) (raft.messages (ready_of env p))
        → seen_tick (
            handle_ready env
              (ready_of env p)
              (record p { raw_node = (raft.get_ready p.raw_node).1 })
              net
              c)
          ≡ serve_entries env (raft.committed_entries (ready_of env p)) (view leveldb p.kv_db)
    unfolding handle_ready
    seen-handle_ready p net c all =
        let ms = raft.messages (ready_of env p) in
        let es = raft.committed_entries (ready_of env p) in
        let (net', sent) = send_msgs_total env fine (appended env p) ms net all in
        rw
          (
            send_msgs_guard env ms (appended env p) net,
            sent,
            process_entries_guard env es (appended env p) c,
          )
          (seen_tick-advance (process_entries env es (appended env p) c) net' (ready_of env p)
            ∙ process_entries-serve_entries env reliable laws es (appended env p) c)

    seen-tick :
        (p : Peer env) (net : Net env) (c : Calls)
        → All (IsMember env p) (raft.messages (ready_of env (ticked env p)))
        → seen_tick (tick env p net c)
          ≡ serve_entries env
              (delivered_at env ticks (record { peer = p; net = net; calls = c }))
              (view leveldb p.kv_db)
    unfolding tick handle_raft_ready
    seen-tick p net c all = elim (Bool-cases (raft.has_ready (ticked env p).raw_node)) [
      | inl ready ↦ rw ready (seen-handle_ready (ticked env p) net c all)
      | inr idle ↦ rw idle refl
    ]

    -- Where connecting never fails, the database does not fail, and raft's messages are for members of
    -- the peer's group: what a timer that fires for a local peer leaves of its map is what serving the
    -- entries that raft delivers at it makes of the map before, and it aborts exactly where serving them
    -- does, by the same fault.
    pub fire-serve_at :
        (i : ℕ) (s : Server env) (p : Peer env)
        → find i s.host.local_peers ≡ some p
        → All (IsMember env p) (raft.messages (ready_of env (ticked env p)))
        → seen_at i (fire env i s)
          ≡ serve_at env i (delivered_by env i (timer_fires i) s) (map_at env i s)
    unfolding fire
    fire-serve_at i s p at all =
        rw (at, ==_refl i)
          (go (tick env p s.host.net s.calls)
            ∙ ap (λ o. o >>= λ (m : Map). returned (some m)) (seen-tick p s.host.net s.calls all))
      where
        go :
            (o : Outcome (Peer env × Net env × Calls))
            → seen_at i (
                o >>= λ (x : Peer env × Net env × Calls).
                let s' = put_peer env i x.0 s in
                returned (record s' { host = record (s'.host) { net = x.1 }; calls = x.2 }))
              ≡ (seen_tick o >>= λ (m : Map). returned (some m))
        go (returned (q, net, c)) = rw (find-assign i i q s.host.local_peers, ==_refl i) refl
        go (fatal e) = refl
