-- ===== src/Examples/HostRuns.antt =====
-- The host and the creation of a peer at concrete inputs.
use mathlib.Core.List.{reverse, reverse-cons}
use jkv.Base.{
  ℕ, ◌≡◌, refl, none, some, List, [], ◌∷◌, arith, returned, fatal, find, ◌==◌, if◌then◌else◌, count,
  count-append, peer_existed,
}
use jkv.Storage.{disk_storage}
use jkv.Text.Split.{pieces}
use jkv.Text.Atoi.{atoi}
use jkv.Text.Decimal.{to_string}
use jkv.Config.{PeerOption}
use jkv.Peer.State.{Peer}
use jkv.Peer.Members.{init_group_members, add_members}
use jkv.Peer.Create.{create_peer}
use jkv.Host.{Host, add_local_peer}
use jkv.Echo.ServerMain.{peer_option}
use jkv.Host.Invariant.{IsPeerTable, add_local_peer-IsPeerTable}
use jkv.Peer.Create.Voters.{StartsFrom, create_peer_lem}
use jkv.Examples.World.{world, peer}
use jkv.Examples.ServerRuns.{value_of, flags_of, idle}

-- The host of the server before and after its peer was added.
abbrev option_1 : PeerOption world.jrpc.Worker world.raft.Storage
option_1 = peer_option world (flags_of 1) idle.server.host.option

added : Host world × world.leveldb.Files
unfolding add_local_peer create_peer init_group_members add_members pieces atoi to_string
    disk_storage
added = value_of (idle.server.host, []) (add_local_peer world option_1 idle.server.host [])

adds : add_local_peer world option_1 idle.server.host [] ≡ returned (added.0, added.1)
unfolding added
adds = refl

add_local_peer-IsPeerTable_example :
    IsPeerTable world added.0.option.host_id added.0.local_peers
    × ((p : Peer world) × (p.proposals ≡ [])
        × ((j : ℕ) → find j added.0.local_peers ≡ (if 1 == j then some p else none)))
add_local_peer-IsPeerTable_example =
    add_local_peer-IsPeerTable world option_1 idle.server.host added.0 [] added.1 tt adds

-- The same peer once more is refused.
added_twice : add_local_peer world option_1 added.0 [] ≡ fatal peer_existed
unfolding added add_local_peer
added_twice = refl

created : Peer world × world.leveldb.Files
unfolding create_peer init_group_members add_members pieces atoi to_string disk_storage
created = value_of (peer, []) (create_peer world option_1 [] [])

creates : create_peer world option_1 [] [] ≡ returned (created.0, created.1)
unfolding created
creates = refl

count-reverse : (d : ℕ) (ks : List ℕ) → count d (reverse ks) ≡ count d ks
count-reverse d [] = refl
count-reverse d (k ∷ ks) =
    rw (reverse-cons k ks) (omega (arith, count-append d (reverse ks) (k ∷ []), count-reverse d ks))

create_peer_lem_example : StartsFrom world option_1 created.0
create_peer_lem_example =
    create_peer_lem world option_1 [] [] created.1 created.0 count-reverse creates
