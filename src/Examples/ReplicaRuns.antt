-- ===== src/Examples/ReplicaRuns.antt =====
-- Two histories of one peer, in the second of which one entry more is delivered.
use jkv.Base.{arith, ◌≡◌, refl, List, [], ◌∷◌, ◌++◌, returned}
use jkv.Storage
use jkv.Peer.Proposals.{get_proposal}
use jkv.Peer.Apply.{process_entries, process_entry, process_normal}
use jkv.Peer.Ready.{tick, handle_raft_ready}
use jkv.Peer.Propose.{propose_kv_op}
use jkv.Peer.History.{Member, Event, ticks, proposes, run, delivered}
use jkv.Peer.History.Told.{TakesAll}
use jkv.Examples.Solo.{solo_raft-LogMatching}
use jkv.Examples.World.{world, member, put_k, get_k}
use jkv.Examples.PeerRuns.{value_of, entry_at}

-- A history that goes less far than the next one.
abbrev put_only : List Event
put_only = proposes put_k 12 22 ∷ ticks ∷ []

abbrev put_get : List Event
put_get = proposes put_k 10 20 ∷ ticks ∷ proposes get_k 11 21 ∷ ticks ∷ []

behind : Member world
unfolding run propose_kv_op tick handle_raft_ready process_entries process_entry process_normal
    Storage.put Storage.get get_proposal
behind = value_of member (run world put_only member)

goes_behind : run world put_only member ≡ returned behind
unfolding behind
goes_behind = refl

ahead : Member world
unfolding run propose_kv_op tick handle_raft_ready process_entries process_entry process_normal
    Storage.put Storage.get get_proposal
ahead = value_of member (run world put_get member)

goes_ahead : run world put_get member ≡ returned ahead
unfolding ahead
goes_ahead = refl

one_more : delivered world put_get member ≡ delivered world put_only member ++ entry_at 2 get_k ∷ []
unfolding delivered run propose_kv_op tick handle_raft_ready process_entries process_entry
    process_normal Storage.put Storage.get get_proposal
one_more = refl

-- The raft node takes the two requests.
takes_both : TakesAll world solo_raft-LogMatching put_get member
unfolding run propose_kv_op tick handle_raft_ready process_entries process_entry process_normal
    Storage.put Storage.get get_proposal
takes_both = (((λ s e l. refl), omega arith), (tt, (((λ s e l. refl), omega arith), (tt, tt))))
