-- ===== src/Peer/History/Recovery.antt =====
-- A peer on the database of a process that stopped.
use jkv.Base.{returned-injective, ◌≡◌, sym, ◌∙◌, List, returned}
use jkv.Proto.{Entry}
use jkv.Env.{Env}
use jkv.Storage.{LeveldbLaws}
use jkv.Storage.View.{IsReliable}
use jkv.Peer.Apply.Replay.{empty_map, Left, Left-IsLeftBy, serve_entries-again}
use jkv.Peer.History.{Member, Event, run, delivered}
use jkv.Peer.History.Replica.{map_of, run-serve_entries}

module _ (env : Env) (reliable : IsReliable env.leveldb) (laws : LeveldbLaws env.leveldb) where
  -- Over a database that does not fail: when a peer begins on a map that any number of interrupted runs
  -- of the log have left, and raft delivers the whole log to it again, it ends with the map of a peer
  -- that began on the empty map and has been delivered the same log without interruption.
  pub run-recovers :
      (log : List Entry) (es fs : List Event) (m m' n n' : Member env)
      → Left env log (map_of env m)
      → map_of env n ≡ empty_map env
      → run env es m ≡ returned m'
      → run env fs n ≡ returned n'
      → delivered env es m ≡ log
      → delivered env fs n ≡ log
      → map_of env m' ≡ map_of env n'
  run-recovers log es fs m m' n n' left fresh ran_m ran_n all_m all_n =
      let first = run-serve_entries env reliable laws fs n n' ran_n in
      let again =
        serve_entries-again env log (map_of env m) (map_of env n') (Left-IsLeftBy env left)
          (rw (fresh, all_n) at first) in
      returned-injective (sym (run-serve_entries env reliable laws es m m' ran_m) ∙ rw all_m again)
