-- ===== src/Examples/PeerRuns.antt =====
-- Runs of a peer, and the theorems about peers at concrete inputs.
use mathlib.Core.List.{reverse}
use jkv.Base.{
  ℕ, ◌≡◌, refl, false, Option, none, some, List, [], ◌∷◌, ◌++◌, arith, map, Outcome, returned,
  fatal, get_failed, not_serialized,
}
use jkv.Proto.{KvReq, Entry, entry_normal, empty_resp}
use jkv.Calls.{Calls, no_calls}
use jkv.Storage
use jkv.Peer.State.{Peer}
use jkv.Peer.Proposals.{Proposal, get_proposal, callback_all}
use jkv.Peer.Proposals.Account.{rejection}
use jkv.Peer.Proposals.Order.{IsAscending, split_at}
use jkv.Peer.Apply.{process_entries, process_entry, process_normal}
use jkv.Peer.Apply.Machine.{serve_entries, seen_peer, process_entries-serve_entries}
use jkv.Peer.Apply.Replies.{replies_to, leader_replies, follower_replies}
use jkv.Peer.Ready.{tick, handle_raft_ready}
use jkv.Peer.Propose.{new_proposal, propose_kv_op}
use jkv.Peer.Apply.Answered.{propose_kv_op-process_entry}
use jkv.Peer.History.{Member, Event, ticks, proposes, run}
use jkv.Peer.History.Replica.{map_of}
use jkv.Examples.Kv.{pairs_db-laws, pairs_db-reliable}
use jkv.Examples.Solo.{solo_raft-LeaderAppendOnly}
use jkv.Examples.World.{world, member, peer, node, put_k, get_k}

-- What a run that returns ends with.
abbrev pub value_of {ℓ} : {A : Type ℓ} → A → Outcome A → A
value_of a (returned b) = b
value_of a (fatal e) = a

abbrev or_none {ℓ} : {A : Type ℓ} → Option A → Outcome A
or_none none = fatal not_serialized
or_none (some a) = returned a

abbrev p1 : Proposal
p1 = record { index = 1; term = 1; resp = 10; done = 20 }

abbrev p2 : Proposal
p2 = record { index = 2; term = 1; resp = 11; done = 21 }

abbrev put_then_get : List Event
put_then_get = proposes put_k 10 20 ∷ proposes get_k 11 21 ∷ ticks ∷ []

end_state : Member world
unfolding run propose_kv_op tick handle_raft_ready process_entries process_entry process_normal
    Storage.put Storage.get get_proposal
end_state = value_of member (run world put_then_get member)

runs_to_end : run world put_then_get member ≡ returned end_state
unfolding end_state
runs_to_end = refl

-- Both clients have been answered, the reader with the value written before.
both_answered :
    end_state.calls.replies
    ≡ (21, record empty_resp { get_resp = some (record { value = b'v' ∷ [] }) })
      ∷ (20, empty_resp)
      ∷ []
unfolding end_state
both_answered = refl

-- The same peer when the two requests wait and their entries are in the log.
leading : Member world
unfolding run propose_kv_op
leading = value_of member (run world (proposes put_k 10 20 ∷ proposes get_k 11 21 ∷ []) member)

abbrev pub entry_at : ℕ → KvReq → Entry
entry_at i r = record {
  type = entry_normal;
  term = 1;
  index = i;
  payload = value_of [] (or_none (world.codec.serialize r));
}

abbrev both : List Entry
both = entry_at 1 put_k ∷ entry_at 2 get_k ∷ []

applied : Peer world × Calls
unfolding process_entries process_entry process_normal Storage.put Storage.get get_proposal leading
applied = value_of (peer, no_calls) (process_entries world both leading.peer no_calls)

applies : process_entries world both leading.peer no_calls ≡ returned (applied.0, applied.1)
unfolding applied
applies = refl

-- A peer that does not lead any more.
abbrev led : Peer world
led = record peer { raw_node = record node { leads = false }; proposals = p1 ∷ p2 ∷ [] }

-- A read of a key that nobody wrote aborts the process, on this peer as on every other.
missing_key_aborts : process_entries world (entry_at 1 get_k ∷ []) led no_calls ≡ fatal get_failed
unfolding process_entries process_entry process_normal Storage.get callback_all
missing_key_aborts = refl

process_entries-serve_entries_example :
    seen_peer world (process_entries world both led no_calls)
    ≡ serve_entries world both (map_of world member)
process_entries-serve_entries_example =
    process_entries-serve_entries world pairs_db-reliable pairs_db-laws both led no_calls

-- The first entry on the leader.
first_applied : Peer world × Calls
unfolding process_entry process_normal Storage.put get_proposal leading
first_applied =
    value_of (peer, no_calls) (process_entry world (entry_at 1 put_k) leading.peer no_calls)

first_applies :
    process_entry world (entry_at 1 put_k) leading.peer no_calls
    ≡ returned (first_applied.0, first_applied.1)
unfolding first_applied
first_applies = refl

leading-IsAscending : IsAscending leading.peer.proposals
unfolding leading
leading-IsAscending = omega arith

leader_replies_example :
    let cut = split_at 1 1 leading.peer.proposals no_calls in
    (first_applied.0.proposals ≡ cut.proposals)
    × (first_applied.1.replies
        ≡ replies_to put_k put_k.cmd_type (map_of world member) cut.calls cut.found
          ++ cut.calls.replies)
unfolding leading
leader_replies_example =
    leader_replies world (entry_at 1 put_k) put_k leading.peer first_applied.0 no_calls
      first_applied.1 refl leading-IsAscending refl refl first_applies

led_applied : Peer world × Calls
unfolding process_entry process_normal Storage.put callback_all
led_applied = value_of (peer, no_calls) (process_entry world (entry_at 1 put_k) led no_calls)

led_applies :
    process_entry world (entry_at 1 put_k) led no_calls ≡ returned (led_applied.0, led_applied.1)
unfolding led_applied
led_applies = refl

follower_replies_example :
    (led_applied.0.proposals ≡ [])
    × (led_applied.1.replies ≡ reverse (map (rejection no_calls) led.proposals) ++ no_calls.replies)
follower_replies_example =
    follower_replies world (entry_at 1 put_k) led led_applied.0 no_calls led_applied.1 refl
      led_applies

-- A leader that has taken one request, before and after its entry is applied.
asked : Peer world
unfolding propose_kv_op
asked = value_of peer (propose_kv_op world put_k 10 20 peer)

asks : propose_kv_op world put_k 10 20 peer ≡ returned asked
unfolding asked
asks = refl

done_with : Peer world × Calls
unfolding process_entry process_normal Storage.put get_proposal asked
done_with = value_of (peer, no_calls) (process_entry world (entry_at 1 put_k) asked no_calls)

does : process_entry world (entry_at 1 put_k) asked no_calls ≡ returned (done_with.0, done_with.1)
unfolding done_with
does = refl

propose_kv_op-process_entry_example :
    (done_with.0.proposals ≡ [])
    × (done_with.1.replies
        ≡ replies_to put_k put_k.cmd_type
            (map_of world member)
            (callback_all [] no_calls)
            (some (new_proposal world peer 10 20))
          ++ (callback_all [] no_calls).replies)
unfolding asked
propose_kv_op-process_entry_example =
    propose_kv_op-process_entry world solo_raft-LeaderAppendOnly put_k (entry_at 1 put_k).payload 10
      20 peer asked done_with.0 no_calls done_with.1 refl (tt, tt) (omega arith) refl asks refl does
