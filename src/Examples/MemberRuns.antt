-- ===== src/Examples/MemberRuns.antt =====
-- The member list, the creation of a peer and the host at concrete inputs.
use jkv.Base.{◌≡◌, refl, [], ◌∷◌, arith, returned, Bytes}
use jkv.Text.Split.{pieces, pieces-SplitLaws}
use jkv.Text.Atoi.{atoi}
use jkv.Peer.Members.{init_group_members, add_members}
use jkv.Peer.Members.RoundTrip.{
  IsPrintable, table_of, print_members, init_group_members-print_members,
}
use jkv.Peer.Members.Entries.{IsMemberTable, init_group_members-IsMemberTable}
use jkv.Examples.World.{member_1, member_2}

-- "1,1,a,10000|2,1,b,10001"
abbrev pub members_text : Bytes
members_text =
    b'1' ∷ b',' ∷ b'1' ∷ b',' ∷ b'a' ∷ b',' ∷ b'1' ∷ b'0' ∷ b'0' ∷ b'0' ∷ b'0' ∷ b'|' ∷ b'2' ∷ b','
    ∷ b'1' ∷ b',' ∷ b'b' ∷ b',' ∷ b'1' ∷ b'0' ∷ b'0' ∷ b'0' ∷ b'1' ∷ []

pub reads_members :
    init_group_members pieces members_text [] ≡ returned (table_of (member_1 ∷ member_2 ∷ []))
unfolding init_group_members add_members pieces atoi
reads_members = refl

IsPrintable-1 : IsPrintable member_1
IsPrintable-1 = record {
  host_fits = omega arith;
  peer_fits = omega arith;
  port_fits = omega arith;
  ip_comma = refl;
  ip_bar = refl;
}

IsPrintable-2 : IsPrintable member_2
IsPrintable-2 = record {
  host_fits = omega arith;
  peer_fits = omega arith;
  port_fits = omega arith;
  ip_comma = refl;
  ip_bar = refl;
}

init_group_members-print_members_example :
    init_group_members pieces (print_members (member_1 ∷ member_2 ∷ [])) []
    ≡ returned (table_of (member_1 ∷ member_2 ∷ []))
init_group_members-print_members_example =
    init_group_members-print_members pieces pieces-SplitLaws member_1 (member_2 ∷ [])
      (IsPrintable-1, (IsPrintable-2, tt)) (((λ e. omega arith), tt), (tt, tt))

init_group_members-IsMemberTable_example : IsMemberTable (table_of (member_1 ∷ member_2 ∷ []))
init_group_members-IsMemberTable_example =
    init_group_members-IsMemberTable pieces members_text (table_of (member_1 ∷ member_2 ∷ []))
      reads_members
