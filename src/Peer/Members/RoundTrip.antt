-- ===== src/Peer/Members/RoundTrip.antt =====
-- The member list round trip: what is printed in the format of the comment is read back.
use mathlib.Core.List.{append_assoc, append-nil}
use jkv.Base.{
  ℕ, ◌%◌, ◌^◌, ◌<◌, ◌≡◌, ◌≢◌, refl, ap, ◌∙◌, none, List, [], ◌∷◌, ◌++◌, map, arith, All,
  count-append, returned, Bytes, Table, find, insert-new,
}
use jkv.Text.Split.{join, IsFree, SplitLaws, split-join}
use jkv.Text.Decimal.{to_string, to_string-IsDigit, count-digits, count_low-digits}
use jkv.Text.Atoi.{atoi-to_string}
use jkv.Peer.State.{GroupMember}
use jkv.Peer.Members.{add_member, add_fields, add_members, init_group_members}

-- host,peer,ip,port
abbrev pub fields_of : GroupMember → List Bytes
fields_of g = to_string g.host_id ∷ to_string g.peer_id ∷ g.ip ∷ to_string g.port ∷ []

abbrev pub print_member : GroupMember → Bytes
print_member g = join b',' (fields_of g)

abbrev pub print_members : List GroupMember → Bytes
print_members gs = join b'|' (map print_member gs)

-- The numbers fit the types that they pass through, and the address holds no separator.
pub record IsPrintable (g : GroupMember) : Type 0 where
  pub host_fits : g.host_id < 2 ^ 31
  pub peer_fits : g.peer_id < 2 ^ 31
  pub port_fits : g.port < 2 ^ 16
  pub ip_comma : IsFree b',' g.ip
  pub ip_bar : IsFree b'|' g.ip

-- No two members on one host.
abbrev pub OnDistinctHosts : List GroupMember → Type 0
OnDistinctHosts [] = Unit
OnDistinctHosts (g ∷ gs) = All (λ h. g.host_id ≢ h.host_id) gs × OnDistinctHosts gs

abbrev pub table_of : List GroupMember → Table GroupMember
table_of [] = []
table_of (g ∷ gs) = (g.host_id, g) ∷ table_of gs

comma-IsFree : (g : GroupMember) → IsPrintable g → All (IsFree b',') (fields_of g)
comma-IsFree g h = (
  count_low-digits b',' (to_string g.host_id) (omega arith) (to_string-IsDigit g.host_id),
  (
    count_low-digits b',' (to_string g.peer_id) (omega arith) (to_string-IsDigit g.peer_id),
    (
      h.ip_comma,
      (count_low-digits b',' (to_string g.port) (omega arith) (to_string-IsDigit g.port), tt),
    ),
  ),
)

bar-IsFree : (g : GroupMember) → IsPrintable g → IsFree b'|' (print_member g)
bar-IsFree g h =
    let a = to_string g.host_id in
    let b = to_string g.peer_id in
    let c = to_string g.port in
    omega (
      arith,
      count-append b'|' a (b',' ∷ (b ++ b',' ∷ (g.ip ++ b',' ∷ c))),
      count-append b'|' b (b',' ∷ (g.ip ++ b',' ∷ c)),
      count-append b'|' g.ip (b',' ∷ c),
      count-digits b'|' a (omega arith) (to_string-IsDigit g.host_id),
      count-digits b'|' b (omega arith) (to_string-IsDigit g.peer_id),
      count-digits b'|' c (omega arith) (to_string-IsDigit g.port),
      h.ip_bar,
    )

add_member_printed :
    (g : GroupMember) (peers : Table GroupMember)
    → IsPrintable g
    → find g.host_id peers ≡ none
    → add_member (to_string g.host_id) (to_string g.peer_id) g.ip (to_string g.port) peers
      ≡ returned (peers ++ (g.host_id, g) ∷ [])
add_member_printed g peers h new =
    let host : g.host_id % 2 ^ 64 ≡ g.host_id = omega arith in
    let peer : g.peer_id % 2 ^ 64 ≡ g.peer_id = omega arith in
    let port : g.port % 2 ^ 16 ≡ g.port = omega arith in
    rw
      (
        atoi-to_string g.host_id h.host_fits,
        host,
        new,
        atoi-to_string g.peer_id h.peer_fits,
        peer,
        atoi-to_string g.port (omega arith),
        port,
      )
      (ap returned (insert-new g.host_id g peers new))

find-append_new :
    (k : ℕ) (g : GroupMember) (peers : Table GroupMember)
    → g.host_id ≢ k
    → find k peers ≡ none
    → find k (peers ++ (g.host_id, g) ∷ []) ≡ none
find-append_new k g [] ne h = ground arith
find-append_new k g ((j, v) ∷ peers) ne h = ground (arith, find-append_new k g peers ne)

module _ (split : ℕ → Bytes → List Bytes) (laws : SplitLaws split) where
  add_fields_printed :
      (g : GroupMember) (peers : Table GroupMember)
      → IsPrintable g
      → find g.host_id peers ≡ none
      → add_fields (split b',' (print_member g)) peers ≡ returned (peers ++ (g.host_id, g) ∷ [])
  add_fields_printed g peers h new =
      rw (split-join split laws b',' (fields_of g) (λ e. cc) (comma-IsFree g h))
        (add_member_printed g peers h new)

  -- The members that are still to come are not in the table.
  still_new :
      (g : GroupMember) (gs : List GroupMember) (peers : Table GroupMember)
      → All (λ h. g.host_id ≢ h.host_id) gs
      → All (λ h. find h.host_id peers ≡ none) gs
      → All (λ h. find h.host_id (peers ++ (g.host_id, g) ∷ []) ≡ none) gs
  still_new g [] peers ne h = tt
  still_new g (k ∷ gs) peers ne h =
      (find-append_new k.host_id g peers ne.0 h.0, still_new g gs peers ne.1 h.1)

  add_members_printed :
      (gs : List GroupMember) (peers : Table GroupMember)
      → All IsPrintable gs
      → OnDistinctHosts gs
      → All (λ g. find g.host_id peers ≡ none) gs
      → add_members split (map print_member gs) peers ≡ returned (peers ++ table_of gs)
  unfolding add_members
  add_members_printed [] peers ok distinct new = rw append-nil
  add_members_printed (g ∷ gs) peers ok distinct new = rw (add_fields_printed g peers ok.0 new.0) (
      add_members_printed gs (peers ++ (g.host_id, g) ∷ []) ok.1 distinct.1
        (still_new g gs peers distinct.0 new.1)
      ∙ ap returned (append_assoc peers ((g.host_id, g) ∷ []) (table_of gs)))

  -- A member list in the documented format, of at least one member, with no two on one host, with
  -- numbers that fit and addresses without separators, is read into the table with exactly these
  -- members, each under its host, in the order of the list.
  pub init_group_members-print_members :
      (g : GroupMember) (gs : List GroupMember)
      → All IsPrintable (g ∷ gs)
      → OnDistinctHosts (g ∷ gs)
      → init_group_members split (print_members (g ∷ gs)) [] ≡ returned (table_of (g ∷ gs))
  unfolding init_group_members
  init_group_members-print_members g gs ok distinct =
      rw (split-join split laws b'|' (map print_member (g ∷ gs)) (λ e. cc) (bars (g ∷ gs) ok))
        (add_members_printed (g ∷ gs) [] ok distinct (none_yet (g ∷ gs)))
    where
      bars : (hs : List GroupMember) → All IsPrintable hs → All (IsFree b'|') (map print_member hs)
      bars [] h = tt
      bars (x ∷ hs) h = (bar-IsFree x h.0, bars hs h.1)

      none_yet : (hs : List GroupMember) → All (λ x. find {V = GroupMember} x.host_id [] ≡ none) hs
      none_yet [] = tt
      none_yet (x ∷ hs) = (refl, none_yet hs)
