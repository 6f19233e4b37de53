-- ===== src/Examples/ClientRuns.antt =====
-- The echo client at concrete inputs.
use jkv.Base.{
  ◌≡◌, ◌⊎◌, Option, refl, true, false, none, some, [], ◌∷◌, returned, fatal, Bytes, rpc_rejected,
}
use jkv.Proto.{KvResp, empty_resp, entry_normal}
use jkv.Storage.View.{Map, view}
use jkv.Storage
use jkv.Calls.{Calls, no_calls}
use jkv.Peer.State.{Peer}
use jkv.Peer.Proposals.{Proposal, get_proposal}
use jkv.Peer.Apply.{process_entry, process_normal}
use jkv.Echo.Answers.{IsServed, IsTurnedAway, kv_cb-process_entry}
use jkv.Examples.Kv.{pairs_db}
use jkv.Examples.PeerRuns.{value_of}
use jkv.Peer.Apply.Machine.{serve_by_type}
use jkv.Peer.Apply.Account.{IsCommand}
use jkv.Echo.ClientMain.{
  ClientFlags, default_client_flags, check_client_flags, put_word, get_word, request_of,
  get_request, put_request, kv_cb, kv_client, client_main,
}
use jkv.Echo.Requests.{IsValid, Means, entry_of, client_main_lem}
use jkv.Examples.World.{world, peer, Link, put_k, get_k}

abbrev flags : ClientFlags
flags = record default_client_flags {
  port = 10000;
  op_type = put_word;
  key = b'k' ∷ [];
  val = b'v' ∷ [];
}

abbrev link : Link
link = record { ip = flags.ip; port = 10000; timeout = 300; depth = 10000 }

requests : client_main world flags tt ≡ returned (link, put_k)
unfolding client_main check_client_flags kv_client request_of put_request
requests = refl

abbrev bytes_of : Option Bytes → Bytes
bytes_of none = []
bytes_of (some s) = s

abbrev put_bytes : Bytes
put_bytes = bytes_of (world.codec.serialize put_k)

client_main_lem_example :
    IsValid flags
    × IsCommand world.codec (entry_of world 1 1 put_bytes)
    × ((m : Map)
        → Means flags m (serve_by_type world entry_normal (entry_of world 1 1 put_bytes) m))
client_main_lem_example = client_main_lem world flags tt link put_k put_bytes 1 1 requests refl

-- A client that reads, and a peer that leads and holds the key, on which only the client's request waits.
abbrev reading : ClientFlags
reading = record flags { op_type = get_word }

asks_to_read : request_of reading ≡ returned get_k
unfolding request_of get_request
asks_to_read = refl

abbrev waiting : Proposal
waiting = record { index = 2; term = 1; resp = 10; done = 20 }

abbrev holding : Peer world
holding = record peer {
  kv_db = record { db_path = []; db = (b'k' ∷ [], b'v' ∷ []) ∷ [] };
  proposals = waiting ∷ [];
}

abbrev get_bytes : Bytes
get_bytes = bytes_of (world.codec.serialize get_k)

served : Peer world × Calls
unfolding process_entry process_normal Storage.get get_proposal
served =
    value_of (peer, no_calls) (process_entry world (entry_of world 1 2 get_bytes) holding no_calls)

serves :
    process_entry world (entry_of world 1 2 get_bytes) holding no_calls
    ≡ returned (served.0, served.1)
unfolding served
serves = refl

kv_cb-process_entry_example :
    ((true ≡ true) × IsServed reading (view pairs_db holding.kv_db) waiting no_calls served.1)
    ⊎ ((true ≡ false) × IsTurnedAway waiting [] no_calls served.1)
kv_cb-process_entry_example =
    kv_cb-process_entry world reading get_k (entry_of world 1 2 get_bytes) waiting [] holding
      served.0 no_calls served.1 asks_to_read refl refl refl refl refl refl serves

abbrev rejected_resp : KvResp
rejected_resp = record empty_resp { rejected = true }

-- A rejection ends the client with an abort.
rejection_aborts : kv_cb false rejected_resp ≡ fatal rpc_rejected
unfolding kv_cb
rejection_aborts = refl
