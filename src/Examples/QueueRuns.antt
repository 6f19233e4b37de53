-- ===== src/Examples/QueueRuns.antt =====
-- The queue of proposals at concrete inputs.
use jkv.Base.{ℕ, ◌+◌, ◌≡◌, refl, List, [], ◌∷◌, arith, Outcome, returned, some, fatal}
use jkv.Calls.{no_calls}
use jkv.Peer.Proposals.{Proposal, get_proposal}
use jkv.Peer.Proposals.Order.{split_at, get_proposal-split_at}
use jkv.Peer.Propose.{propose_kv_op}
use jkv.Peer.Propose.Queue.{IsInOrder}
use jkv.Peer.History.{Member, Event, proposes, run}
use jkv.Peer.History.InOrder.{AcceptsAll, run-IsInOrder}
use jkv.Examples.Solo.{solo_raft-LeaderAppendOnly}
use jkv.Examples.World.{world, member, put_k, get_k}

abbrev proposal : ℕ → ℕ → ℕ → Proposal
proposal term index d = record { index = index; term = term; resp = d + 100; done = d }

-- Positions (1, 5), (1, 6), (2, 7) and (3, 8).
abbrev queue : List Proposal
queue = proposal 1 5 1 ∷ proposal 1 6 2 ∷ proposal 2 7 3 ∷ proposal 3 8 4 ∷ []

found_third : (get_proposal 7 2 queue no_calls).found ≡ some (proposal 2 7 3)
unfolding get_proposal
found_third = refl

-- An entry of an older term at the position rejects nothing.
older_term : (get_proposal 9 0 queue no_calls).proposals ≡ queue
unfolding get_proposal
older_term = refl

get_proposal-split_at_example : get_proposal 7 2 queue no_calls ≡ split_at 7 2 queue no_calls
get_proposal-split_at_example = get_proposal-split_at 7 2 queue no_calls (omega arith)

abbrev two_requests : List Event
two_requests = proposes put_k 10 20 ∷ proposes get_k 11 21 ∷ []

abbrev value_or {ℓ} : {A : Type ℓ} → A → Outcome A → A
value_or a (returned b) = b
value_or a (fatal e) = a

two_in : Member world
unfolding run propose_kv_op
two_in = value_or member (run world two_requests member)

runs_to_two_in : run world two_requests member ≡ returned two_in
unfolding two_in
runs_to_two_in = refl

two_requests-AcceptsAll : AcceptsAll world solo_raft-LeaderAppendOnly two_requests member
unfolding propose_kv_op
two_requests-AcceptsAll = (
  record { accepted = λ s _ _. refl; room = omega arith },
  (record { accepted = λ s _ _. refl; room = omega arith }, tt),
)

run-IsInOrder_example : IsInOrder world solo_raft-LeaderAppendOnly two_in.peer
run-IsInOrder_example =
    run-IsInOrder world solo_raft-LeaderAppendOnly two_requests member two_in runs_to_two_in
      two_requests-AcceptsAll (tt, tt)
