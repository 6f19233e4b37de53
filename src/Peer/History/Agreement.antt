-- ===== src/Peer/History/Agreement.antt =====
-- Two replicas of one group.
use jkv.Base.{◌≡◌, sym, ap, ◌∙◌, List, ◌++◌, returned}
use jkv.Proto.{Entry}
use jkv.Env.{Env}
use jkv.Storage.{LeveldbLaws}
use jkv.Storage.View.{IsReliable}
use jkv.Peer.Apply.Machine.{serve_entries}
use jkv.Peer.History.{Member, Event, run, delivered}
use jkv.Peer.Apply.Machine.{serve_entries-append}
use jkv.Peer.History.Replica.{map_of, run-serve_entries}

module _ (env : Env) (reliable : IsReliable env.leveldb) (laws : LeveldbLaws env.leveldb) where
  -- Over a database that does not fail: when two peers begin with the same map and go through any
  -- histories of their own that return, and raft has delivered to the second one what it has delivered to
  -- the first one and then some more entries, the second one's map is what serving these makes of the
  -- first one's map.
  pub run-agreement :
      (es fs : List Event) (rest : List Entry) (m m' n n' : Member env)
      → map_of env m ≡ map_of env n
      → run env es m ≡ returned m'
      → run env fs n ≡ returned n'
      → delivered env fs n ≡ delivered env es m ++ rest
      → serve_entries env rest (map_of env m') ≡ returned (map_of env n')
  run-agreement es fs rest m m' n n' same ran_m ran_n more =
      let first = run-serve_entries env reliable laws es m m' ran_m in
      let second = run-serve_entries env reliable laws fs n n' ran_n in
      let split = serve_entries-append env (delivered env es m) rest (map_of env m) in
      sym (rw first at split)
      ∙ ap (serve_entries env (delivered env es m ++ rest)) same
      ∙ rw more at second
