-- ===== src/Peer/Members/Entries.antt =====
-- The member table that any text is read into.
use jkv.Base.{
  ℕ, ◌^◌, ◌<◌, ◌≡◌, refl, ◌≢◌, inl, inr, none, List, [], ◌∷◌, ◌++◌, arith, returned,
  >>=-eq-returned, Bytes, Table, find, insert-new, is_empty, Option-cases, Bool-cases,
}
use jkv.Text.Atoi.{ℤ, pos, negsuc, atoi, to_uint64, to_uint16}
use jkv.Peer.State.{GroupMember}
use jkv.Peer.Members.{add_member, add_fields, add_members, init_group_members}

-- Each member stands under its own host, on its own, with numbers of the fields' widths.
abbrev pub IsMemberTable : Table GroupMember → Type 0
IsMemberTable [] = Unit {0}
IsMemberTable ((k, g) ∷ m) =
    (k ≡ g.host_id)
    × (find k m ≡ none)
    × (g.host_id < 2 ^ 64)
    × (g.peer_id < 2 ^ 64)
    × (g.port < 2 ^ 16)
    × IsMemberTable m

uint64_lt : (z : ℤ) → to_uint64 z < 2 ^ 64
uint64_lt (pos n) = omega arith
uint64_lt (negsuc n) = omega arith

uint16_lt : (z : ℤ) → to_uint16 z < 2 ^ 16
uint16_lt (pos n) = omega arith
uint16_lt (negsuc n) = omega arith

find-append :
    (j k : ℕ) (g : GroupMember) (m : Table GroupMember)
    → j ≢ k
    → find j m ≡ none
    → find j (m ++ (k, g) ∷ []) ≡ none
find-append j k g [] ne e = ground arith
find-append j k g ((i, v) ∷ m) ne e = ground (arith, find-append j k g m ne)

IsMemberTable-append :
    (g : GroupMember) (m : Table GroupMember)
    → find g.host_id m ≡ none
    → g.host_id < 2 ^ 64
    → g.peer_id < 2 ^ 64
    → g.port < 2 ^ 16
    → IsMemberTable m
    → IsMemberTable (m ++ (g.host_id, g) ∷ [])
IsMemberTable-append g [] new a b c t = (refl, refl, a, b, c, tt)
IsMemberTable-append g ((k, h) ∷ m) new a b c t = (
  t.0,
  find-append k g.host_id g m (λ e. ground (arith, new)) t.1,
  t.2,
  t.3,
  t.4,
  IsMemberTable-append g m (ground (arith, new)) a b c t.5,
)

add_member-IsMemberTable :
    (host peer ip port : Bytes) (m m' : Table GroupMember)
    → add_member host peer ip port m ≡ returned m'
    → IsMemberTable m
    → IsMemberTable m'
add_member-IsMemberTable host peer ip port m m' e t =
    let (h, _, e1) = >>=-eq-returned (atoi host) _ e in
    elim (Option-cases (find (to_uint64 h) m)) [
      | inl new ↦
          let (p, _, e2) = >>=-eq-returned (atoi peer) _ (rw new at e1) in
          let (q, _, e3) = >>=-eq-returned (atoi port) _ e2 in
          let g : GroupMember = record {
            host_id = to_uint64 h;
            peer_id = to_uint64 p;
            ip = ip;
            port = to_uint16 q;
          } in
          let same : m ++ (g.host_id, g) ∷ [] ≡ m' = ground (arith, insert-new g.host_id g m new) in
          rw (← same) (IsMemberTable-append g m new (uint64_lt h) (uint64_lt p) (uint16_lt q) t)
      | inr (old, found) ↦ absurd (cc (rw found at e1))
    ]

add_fields-IsMemberTable :
    (fs : List Bytes) (m m' : Table GroupMember)
    → add_fields fs m ≡ returned m'
    → IsMemberTable m
    → IsMemberTable m'
add_fields-IsMemberTable (a ∷ b ∷ c ∷ d ∷ []) m m' e t = add_member-IsMemberTable a b c d m m' e t
add_fields-IsMemberTable _ m m' e t = absurd (cc)

module _ (split : ℕ → Bytes → List Bytes) where
  add_members-IsMemberTable :
      (strs : List Bytes) (m m' : Table GroupMember)
      → add_members split strs m ≡ returned m'
      → IsMemberTable m
      → IsMemberTable m'
  unfolding add_members
  add_members-IsMemberTable [] m m' e t = let same : m ≡ m' = ground arith in rw (← same) t
  add_members-IsMemberTable (s ∷ strs) m m' e t =
      let (m1, first, rest) =
        >>=-eq-returned (add_fields (split b',' s) m) (add_members split strs) e in
      add_members-IsMemberTable strs m1 m' rest
        (add_fields-IsMemberTable (split b',' s) m m1 first t)

  -- Whatever the text, a table that is read has each member under its own host id, no two on one host,
  -- and ids and ports within the widths of their fields.
  pub init_group_members-IsMemberTable :
      (s : Bytes) (m : Table GroupMember)
      → init_group_members split s [] ≡ returned m
      → IsMemberTable m
  unfolding init_group_members
  init_group_members-IsMemberTable s m e = elim (Bool-cases (is_empty (split b'|' s))) [
    | inl empty ↦ absurd (cc (rw empty at e))
    | inr full ↦ add_members-IsMemberTable (split b'|' s) [] m (rw full at e) tt
  ]
