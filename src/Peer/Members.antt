-- ===== src/Peer/Members.antt =====
-- `Peer::InitGroupMembers` of peer/peer.cc: the member table from its text,
-- host1,peer1,ip1,port1|host2,peer2,ip2,port2|... . `split` is `boost::split`.
pub mod RoundTrip
pub mod Entries
use jkv.Base.{
  ℕ, Bool, true, false, Option, none, some, List, [], ◌∷◌, Outcome, returned, fatal, fatal_if,
  invalid_members, invalid_member, same_host, ◌>>=◌, ◌>>◌, Bytes, Table, find, insert, is_empty,
}
use jkv.Text.Atoi.{atoi, to_uint64, to_uint16}
use jkv.Peer.State.{GroupMember}

abbrev pub is_found {ℓ} : {A : Type ℓ} → Option A → Bool
is_found none = false
is_found (some a) = true

-- The rest of a round, with the four fields of `addr_info`.
abbrev pub add_member :
    Bytes → Bytes → Bytes → Bytes → Table GroupMember → Outcome (Table GroupMember)
add_member host peer ip port peers = do
  host_id ← atoi host
  fatal_if (is_found (find (to_uint64 host_id) peers)) same_host
  peer_id ← atoi peer
  port_no ← atoi port
  let group_member : GroupMember = record {
    host_id = to_uint64 host_id;
    peer_id = to_uint64 peer_id;
    ip = ip;
    port = to_uint16 port_no;
  }
  returned (insert group_member.host_id group_member peers)

-- `if (addr_info.size() != 4)`
abbrev pub add_fields : List Bytes → Table GroupMember → Outcome (Table GroupMember)
add_fields (host ∷ peer ∷ ip ∷ port ∷ []) peers = add_member host peer ip port peers
add_fields _ peers = fatal invalid_member

module _ (split : ℕ → Bytes → List Bytes) where
  -- The loop over `strs`.
  unfoldable pub add_members : List Bytes → Table GroupMember → Outcome (Table GroupMember)
  add_members [] peers = returned peers
  add_members (str ∷ strs) peers = do
    peers' ← add_fields (split b',' str) peers
    add_members strs peers'

  -- `Peer::InitGroupMembers`
  unfoldable pub init_group_members : Bytes → Table GroupMember → Outcome (Table GroupMember)
  unfolding add_members
  init_group_members members peers = do
    fatal_if (is_empty (split b'|' members)) invalid_members
    add_members (split b'|' members) peers
