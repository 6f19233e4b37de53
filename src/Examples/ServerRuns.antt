-- ===== src/Examples/ServerRuns.antt =====
-- The echo server and its client at concrete inputs.
mod Told
use jkv.Base.{
  ◌↔◌, ℕ, ◌+◌, ◌≤◌, ◌≡◌, refl, false, some, List, [], ◌∷◌, arith, Outcome, returned, fatal, no_peer,
  count, AllIn,
}
use jkv.Proto.{empty_resp}
use jkv.Calls.{no_calls}
use jkv.Storage
use jkv.Storage.{disk_storage}
use jkv.Text.Split.{pieces}
use jkv.Text.Atoi.{atoi}
use jkv.Text.Decimal.{to_string}
use jkv.Peer.Members.{init_group_members, add_members}
use jkv.Peer.Create.{create_peer}
use jkv.Peer.Proposals.{get_proposal}
use jkv.Peer.Apply.{process_entries, process_entry, process_normal}
use jkv.Peer.Ready.{tick, handle_raft_ready}
use jkv.Peer.Propose.{propose_kv_op}
use jkv.Host.{peer_host, add_local_peer}
use jkv.Server.{Server, run_kv_op, run_at, fire}
use jkv.Server.Account.{held, held-serve, held_exact-serve}
use jkv.Server.Inputs.{
  Input, kv_call, task_runs, timer_fires, brought, serve, AllCommands, delivered_in,
}
use jkv.Echo.ServerMain.{
  ServerFlags, default_server_flags, check_server_flags, Launched, host_option, server_main,
}
use jkv.Echo.Start.{CanStart, server_main_iff}
use jkv.Echo.Launch.{LaunchedFrom, server_main_lem, other_peer_id}
use jkv.Server.Identity.{identity_at, identity-serve}
use jkv.Server.Replica.{map_at, serve_at, serve-serve_entries}
use jkv.Server.Order.{AcceptsInputs, AllInOrder, serve-AllInOrder}
use jkv.Peer.Proposals.News.{News}
use jkv.Server.Honest.{HonestAt}
use jkv.Server.Told.{IsIdle, TakesInputs, Asked, serve-Told}
use jkv.Storage.View.{Map}
use jkv.Peer.History.Honest.{Honest}
use jkv.Echo.Promise.{server_main-Told}
use jkv.Server.Answers.{Answers, run_kv_op_lem}
use jkv.Examples.Kv.{pairs_db-reliable, pairs_db-laws}
use jkv.Examples.MemberRuns.{members_text}
use jkv.Examples.Solo.{solo_raft-LeaderAppendOnly, solo_raft-LogMatching}
use jkv.Examples.World.{world, put_k, get_k}

abbrev pub value_of {ℓ} : {A : Type ℓ} → A → Outcome A → A
value_of a (returned b) = b
value_of a (fatal e) = a

abbrev pub flags_of : ℕ → ServerFlags
flags_of i = record default_server_flags {
  host_id = 1;
  peer_id = i;
  ip = b'a' ∷ [];
  port = 10000;
  members = members_text;
}

abbrev pub empty_snapshot : world.raft.Storage
empty_snapshot = record {
  payload = [];
  metadata = record {
    conf_state = record {
      voters = [];
      learners = [];
      voters_outgoing = [];
      learners_next = [];
      auto_leave = false;
    };
    index = 0;
    term = 0;
  };
}

abbrev pub idle : Launched world
idle = record {
  server = record {
    host = peer_host world (host_option world (flags_of 1) tt empty_snapshot);
    calls = no_calls;
    acks = [];
    tasks = [];
  };
  files = [];
  timers = [];
}

launched : ℕ → Launched world
unfolding server_main check_server_flags add_local_peer create_peer init_group_members add_members
    pieces atoi to_string disk_storage
launched i = value_of idle (server_main world (flags_of i) tt empty_snapshot [])

launches : server_main world (flags_of 1) tt empty_snapshot [] ≡ returned (launched 1)
unfolding launched
launches = refl

launches_2 : server_main world (flags_of 2) tt empty_snapshot [] ≡ returned (launched 2)
unfolding launched
launches_2 = refl

-- The database is under the host's path.
opened_path :
    (launched 1).files
    ≡ (
      b'.' ∷ b'/' ∷ b'h' ∷ b'o' ∷ b's' ∷ b't' ∷ b'_' ∷ b'1' ∷ b'/' ∷ b'p' ∷ b'e' ∷ b'e' ∷ b'r'
          ∷ b'_' ∷ b'1' ∷ [],
      [],
    )
      ∷ []
unfolding launched
opened_path = refl

server_main_lem_example : LaunchedFrom world (flags_of 1) tt empty_snapshot [] (launched 1)
server_main_lem_example =
    server_main_lem world (flags_of 1) tt empty_snapshot [] (launched 1) launches

-- A write and a read come in, their tasks run, the timer fires.
abbrev two_calls : List Input
two_calls =
    kv_call put_k 10 20 ∷ kv_call get_k 11 21 ∷ task_runs 0 ∷ task_runs 0 ∷ timer_fires 1 ∷ []

served : Server world
unfolding serve run_at run_kv_op propose_kv_op fire tick handle_raft_ready process_entries
    process_entry process_normal Storage.put Storage.get get_proposal launched
served = value_of idle.server (serve world two_calls (launched 1).server)

serves : serve world two_calls (launched 1).server ≡ returned served
unfolding served
serves = refl

-- Both calls have been answered, the read with the value written before.
answers :
    served.calls.replies
    ≡ (21, record empty_resp { get_resp = some (record { value = b'v' ∷ [] }) })
      ∷ (20, empty_resp)
      ∷ []
unfolding served
answers = refl

held-serve_example :
    held world 20 served ≤ held world 20 (launched 1).server + count 20 (brought two_calls)
held-serve_example = held-serve world 20 two_calls (launched 1).server served serves

two_calls-AllCommands : AllCommands world two_calls (launched 1).server
unfolding serve run_at run_kv_op propose_kv_op fire tick handle_raft_ready process_entries
    process_entry process_normal Storage.put Storage.get get_proposal launched
two_calls-AllCommands = (
  tt,
  (
    tt,
    (tt, (tt, (((refl, (put_k, refl, (λ e. cc))), ((refl, (get_k, refl, (λ e. cc))), tt)), tt))),
  ),
)

held_exact-serve_example :
    held world 20 served ≡ held world 20 (launched 1).server + count 20 (brought two_calls)
held_exact-serve_example =
    held_exact-serve world 20 two_calls (launched 1).server served two_calls-AllCommands serves

two_calls-AcceptsInputs :
    AcceptsInputs world solo_raft-LeaderAppendOnly two_calls (launched 1).server
unfolding serve run_at run_kv_op propose_kv_op fire tick handle_raft_ready process_entries
    process_entry process_normal Storage.put Storage.get get_proposal launched
two_calls-AcceptsInputs = (
  tt,
  (
    tt,
    (
      record { accepted = λ s _ _. refl; room = omega arith },
      (record { accepted = λ s _ _. refl; room = omega arith }, (tt, tt)),
    ),
  ),
)

launched-AllInOrder :
    AllInOrder world solo_raft-LeaderAppendOnly (launched 1).server.host.local_peers
unfolding launched
launched-AllInOrder = ((tt, tt), tt)

serve-AllInOrder_example : AllInOrder world solo_raft-LeaderAppendOnly served.host.local_peers
serve-AllInOrder_example =
    serve-AllInOrder world solo_raft-LeaderAppendOnly two_calls (launched 1).server served
      two_calls-AcceptsInputs serves launched-AllInOrder

identity-serve_example : identity_at world 1 served ≡ identity_at world 1 (launched 1).server
identity-serve_example = identity-serve world 1 two_calls (launched 1).server served serves

serve-serve_entries_example :
    serve_at world 1
      (delivered_in world 1 two_calls (launched 1).server)
      (map_at world 1 (launched 1).server)
    ≡ returned (map_at world 1 served)
serve-serve_entries_example =
    serve-serve_entries world 1 pairs_db-reliable pairs_db-laws two_calls (launched 1).server served
      serves

other_peer_id_example : run_kv_op world put_k 10 20 (launched 2).server ≡ fatal no_peer
unfolding serve
other_peer_id_example =
    other_peer_id world (flags_of 2) tt empty_snapshot [] (launched 2) put_k 10 20 []
      (launched 2).server launches_2 (λ e. omega arith) refl

run_kv_op_lem_example : Answers world put_k 10 20 (launched 1).server
run_kv_op_lem_example = run_kv_op_lem world put_k 10 20 (launched 1).server

server_main_iff_example :
    ((l : Launched world) × (server_main world (flags_of 1) tt empty_snapshot [] ≡ returned l))
    ↔ CanStart world (flags_of 1) empty_snapshot []
server_main_iff_example = server_main_iff world (flags_of 1) tt empty_snapshot []
