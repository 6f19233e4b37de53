-- ===== src/Cluster/Log.antt =====
-- The replicated state machine of a cluster: what has been delivered to each server since it was
-- started, and the maps that this makes. An entry counts as delivered when its peer has applied it; those
-- of a round that an abort or an end cuts short do not.
use jkv.Base.{
  find-erase-ne, find-erase-some, ℕ, ◌≡◌, sym, ap, ◌∙◌, Option, none, some, List, [], ◌∷◌, ◌++◌,
  returned, find, assign-Every_others, ◌==◌, ==_refl, if◌then◌else◌,
}
use jkv.Proto.{Entry}
use jkv.Env.{Env}
use jkv.Storage.{LeveldbLaws}
use jkv.Storage.View.{Map, IsReliable}
use jkv.Server.{Server}
use jkv.Server.Inputs.{raft_call, delivered_by}
use jkv.Server.Ends.{applied_in}
use jkv.Server.Replica.{map_at, serve_at, serve_at_nil, serve_at-append, receive-serve_at}
use jkv.Cluster.{Deployment, Cluster, starts, quits, dies, acts, delivers, Reach, none_yet, later}

module _ (env : Env) (d : Deployment env) (j : ℕ) where
  -- The entries that raft has handed over as committed to the local peer `j` on a host, and that this
  -- peer has applied, since the host's server was started last.
  abbrev pub log_at : {c : Cluster env} → Reach env d c → ℕ → List Entry
  log_at none_yet h = []
  log_at (later r (starts f w st l names new ran)) h = if f.host_id == h then [] else log_at r h
  log_at (later r (quits k s at)) h = log_at r h
  log_at (later r (dies k s m n at cut)) h =
      if k == h then log_at r h ++ applied_in env j cut else log_at r h
  log_at (later r (acts k e s s' local at ran)) h =
      if k == h then log_at r h ++ delivered_by env j e s else log_at r h
  log_at (later r (delivers client req done t t' flies to ran)) h = log_at r h

  -- The same of the processes that the host has run before.
  abbrev pub past_logs : {c : Cluster env} → Reach env d c → ℕ → List (List Entry)
  past_logs none_yet h = []
  past_logs (later r (starts f w st l names new ran)) h =
      if f.host_id == h then past_logs r h ++ log_at r h ∷ [] else past_logs r h
  past_logs (later r (quits k s at)) h = past_logs r h
  past_logs (later r (dies k s m n at cut)) h = past_logs r h
  past_logs (later r (acts k e s s' local at ran)) h = past_logs r h
  past_logs (later r (delivers client req done t t' flies to ran)) h = past_logs r h

  -- The map that was in its database when the host's server was started last.
  abbrev pub first_map : {c : Cluster env} → Reach env d c → ℕ → Option Map
  first_map none_yet h = none
  first_map (later r (starts f w st l names new ran)) h =
      if f.host_id == h then map_at env j l.server else first_map r h
  first_map (later r (quits k s at)) h = first_map r h
  first_map (later r (dies k s m n at cut)) h = first_map r h
  first_map (later r (acts k e s s' local at ran)) h = first_map r h
  first_map (later r (delivers client req done t t' flies to ran)) h = first_map r h

  module _ (reliable : IsReliable env.leveldb) (laws : LeveldbLaws env.leveldb) where
    -- In a cluster, however requests, tasks, timers, deliveries, ends and restarts have followed each other, and
    -- over databases that do not fail: the map of a local peer on each server that runs is the one that
    -- serving the entries delivered to this peer since the server was started, in order, makes of the map
    -- that was in its database then, and serving them does not abort.
    pub Reach-serve_at :
        (c : Cluster env) (r : Reach env d c) (h : ℕ) (s : Server env)
        → find h c.servers ≡ some s
        → serve_at env j (log_at r h) (first_map r h) ≡ returned (map_at env j s)
    Reach-serve_at _ none_yet = λ h s at. absurd (cc)
    Reach-serve_at _ (later {c} r (starts f w st l names new ran)) =
        assign-Every_others _ f.host_id l.server c.servers
          (rw (==_refl f.host_id) (serve_at_nil env j (map_at env j l.server)))
          (λ h s other at. rw other (Reach-serve_at c r h s at))
    Reach-serve_at _ (later {c} r (quits k s at)) =
        λ h t there. Reach-serve_at c r h t (find-erase-some k h t c.servers there)
    Reach-serve_at _ (later {c} r (dies k s m n at cut)) = λ h t there.
        rw (find-erase-ne k h t c.servers there)
          (Reach-serve_at c r h t (find-erase-some k h t c.servers there))
    Reach-serve_at _ (later {c} r (acts k e s s' local at ran)) =
        let now = receive-serve_at env j reliable laws e s s' ran in
        let before = Reach-serve_at c r k s at in
        assign-Every_others _ k s' c.servers
          (rw (==_refl k) (
            serve_at-append env j (log_at r k) (delivered_by env j e s) (first_map r k)
              (map_at env j s) before
            ∙ now))
          (λ h t other there. rw other (Reach-serve_at c r h t there))
    Reach-serve_at _ (later {c} r (delivers client req done t t' flies to ran)) =
        let now = receive-serve_at env j reliable laws (raft_call req done) t t' ran in
        assign-Every_others _ (d.reaches client) t' c.servers
          (Reach-serve_at c r (d.reaches client) t to
            ∙ sym (serve_at_nil env j (map_at env j t))
            ∙ now)
          (λ h u other there. Reach-serve_at c r h u there)

    -- In such a cluster, when the databases of two servers held the same map as these were started, and
    -- raft has delivered to the second one since what it has delivered to the first one and then some
    -- more entries, the second one's map is what serving these makes of the first one's map.
    pub Reach-agreement :
        (c : Cluster env) (r : Reach env d c) (h k : ℕ) (s t : Server env) (rest : List Entry)
        → find h c.servers ≡ some s
        → find k c.servers ≡ some t
        → first_map r h ≡ first_map r k
        → log_at r k ≡ log_at r h ++ rest
        → serve_at env j rest (map_at env j s) ≡ returned (map_at env j t)
    Reach-agreement c r h k s t rest at to same more =
        let first = Reach-serve_at c r h s at in
        let second = Reach-serve_at c r k t to in
        sym (serve_at-append env j (log_at r h) rest (first_map r h) (map_at env j s) first)
        ∙ ap (serve_at env j (log_at r h ++ rest)) same
        ∙ rw more at second
