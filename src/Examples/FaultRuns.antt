-- ===== src/Examples/FaultRuns.antt =====
-- Requests that go astray, at concrete inputs.
use jkv.Base.{
  ◌+◌, ◌-◌, ◌^◌, ◌≡◌, refl, Option, none, some, [], ◌∷◌, Outcome, returned, fatal, Bytes, count,
  ◌>>=◌,
}
use jkv.Proto.{Entry, entry_normal, empty_req}
use jkv.Calls.{Calls, no_calls, answered}
use jkv.Peer.State.{Peer}
use jkv.Peer.Proposals.{get_proposal}
use jkv.Peer.Proposals.Account.{dones}
use jkv.Peer.Propose.{propose_kv_op, next_proposal_index, new_proposal}
use jkv.Peer.Propose.Dropped.{propose_kv_op_dropped}
use jkv.Peer.Apply.{process_entry, process_normal}
use jkv.Peer.Apply.Account.{count-invalid}
use jkv.Examples.World.{world, peer, node, put_k, get_k}

abbrev value_of {ℓ} : {A : Type ℓ} → A → Outcome A → A
value_of a (returned b) = b
value_of a (fatal e) = a

abbrev bytes_of : Option Bytes → Bytes
bytes_of none = []
bytes_of (some s) = s

-- A leader whose log is full, so that its raft node drops requests.
abbrev full : Peer world
full = record peer { raw_node = record node { stable = 2 ^ 64 - 2 } }

propose_kv_op_dropped_example :
    (p2 : Peer world) × (◌>>=◌ {A = Peer world}
        (propose_kv_op world put_k 10 20 full)
        (propose_kv_op world get_k 11 21)
      ≡ returned p2)
    × (p2.raw_node ≡ full.raw_node)
    × (get_proposal (next_proposal_index world full) 1 p2.proposals no_calls ≡ record {
      found = some (new_proposal world full 10 20);
      proposals = new_proposal world full 11 21 ∷ [];
      calls = no_calls;
    })
propose_kv_op_dropped_example =
    propose_kv_op_dropped world put_k get_k (bytes_of (world.codec.serialize put_k))
      (bytes_of (world.codec.serialize get_k)) 10 20 11 21 full no_calls refl refl refl refl refl

-- A leader with a kInvalid request in its queue and in its log.
abbrev waits : Peer world
waits = record peer { proposals = record { index = 1; term = 1; resp = 10; done = 20 } ∷ [] }

abbrev invalid_entry : Entry
invalid_entry = record { type = entry_normal; term = 1; index = 1; payload = [] }

gone : Peer world × Calls
unfolding process_entry process_normal get_proposal
gone = value_of (peer, no_calls) (process_entry world invalid_entry waits no_calls)

goes : process_entry world invalid_entry waits no_calls ≡ returned (gone.0, gone.1)
unfolding gone
goes = refl

count-invalid_example :
    count 20 (dones gone.0.proposals) + count 20 (answered gone.1) + 1
    ≡ count 20 (dones waits.proposals) + 0
unfolding get_proposal
count-invalid_example =
    count-invalid world 20 invalid_entry empty_req
      (record { index = 1; term = 1; resp = 10; done = 20 }) waits gone.0 no_calls gone.1 refl refl
      refl refl refl goes
