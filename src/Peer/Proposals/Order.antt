-- ===== src/Peer/Proposals/Order.antt =====
-- `GetProposal` against a description that does not depend on how the loop goes: on a queue in
-- ascending order of (term, index) it splits the queue at the pair that it is asked for.
use jkv.Base.{
  ℕ, ◌<◌, ◌≡◌, refl, ◌⊎◌, Bool, true, false, ◌&&◌, ◌||◌, List, [], ◌∷◌, arith, ltb, ◌==◌, filter,
  find_first, All, All-map, All-filter, All-append, ◌++◌, filter-All, filter-none, find_first-none,
  Bool-cases, inl, inr,
}
use jkv.Calls.{Calls}
use jkv.Peer.Proposals.{Proposal, Got, reject, get_proposal, callback_all}

-- The order of raft's log: by term, then by index.
abbrev pub Precedes : Proposal → Proposal → Type 0
Precedes p q = (p.term < q.term) ⊎ ((p.term ≡ q.term) × (p.index < q.index))

abbrev pub IsAscending : List Proposal → Type 0
IsAscending [] = Unit
IsAscending (p ∷ ps) = All (Precedes p) ps × IsAscending ps

abbrev pub is_earlier : ℕ → ℕ → Proposal → Bool
is_earlier index term p = ltb p.term term || ((p.term == term) && ltb p.index index)

abbrev pub is_exact : ℕ → ℕ → Proposal → Bool
is_exact index term p = (p.term == term) && (p.index == index)

abbrev pub is_later : ℕ → ℕ → Proposal → Bool
is_later index term p = ltb term p.term || ((p.term == term) && ltb index p.index)

-- What stands behind a proposal at or past the pair is past it.
module _ (index term : ℕ) (p : Proposal) (at : is_earlier index term p ≡ false) where
  behind_earlier : (q : Proposal) → Precedes p q → is_earlier index term q ≡ false
  behind_earlier q h = ground arith

  behind_exact : (q : Proposal) → Precedes p q → is_exact index term q ≡ false
  behind_exact q h = ground arith

  behind_later : (q : Proposal) → Precedes p q → is_later index term q ≡ true
  behind_later q h = ground arith

-- The split, written with the three tests.
abbrev pub split_at : ℕ → ℕ → List Proposal → Calls → Got
split_at index term ps c = record {
  found = find_first (is_exact index term) ps;
  proposals = filter (is_later index term) ps;
  calls = callback_all (filter (is_earlier index term) ps) c;
}

-- On an ascending queue `GetProposal` returns the proposal with exactly the given index and term, if
-- there is one, keeps exactly the later ones, and rejects exactly the earlier ones, in order.
pub get_proposal-split_at :
    (index term : ℕ) (ps : List Proposal) (c : Calls)
    → IsAscending ps
    → get_proposal index term ps c ≡ split_at index term ps c
unfolding get_proposal callback_all
get_proposal-split_at index term [] c h = refl
get_proposal-split_at index term (p ∷ ps) c h = elim (Bool-cases (is_earlier index term p)) [
  | inl e ↦ ground (arith, get_proposal-split_at index term ps (reject p c) h.1)
  | inr e ↦ ground (
    arith,
    filter-none (is_earlier index term) ps (All-map ps (behind_earlier index term p e) h.0),
    filter-All (is_later index term) ps (All-map ps (behind_later index term p e) h.0),
    find_first-none (is_exact index term) ps (All-map ps (behind_exact index term p e) h.0),
  )
]

IsAscending-filter :
    (f : Proposal → Bool) (ps : List Proposal) → IsAscending ps → IsAscending (filter f ps)
IsAscending-filter f [] h = tt
IsAscending-filter f (p ∷ ps) h = elim (Bool-cases (f p)) [
  | inl e ↦ rw e (All-filter (Precedes p) f ps h.0, IsAscending-filter f ps h.1)
  | inr e ↦ rw e (IsAscending-filter f ps h.1)
]

pub IsAscending-append :
    (x : Proposal) (ps : List Proposal)
    → IsAscending ps
    → All (λ q. Precedes q x) ps
    → IsAscending (ps ++ x ∷ [])
IsAscending-append x [] h a = (tt, tt)
IsAscending-append x (p ∷ ps) h a =
    (All-append (Precedes p) ps (x ∷ []) h.0 (a.0, tt), IsAscending-append x ps h.1 a.1)

-- What `GetProposal` leaves of an ascending queue is ascending, with only members of the queue in it.
pub get_proposal-IsAscending {ℓ} :
    (P : Proposal → Type ℓ) (index term : ℕ) (ps : List Proposal) (c : Calls)
    → IsAscending ps
    → All P ps
    → let left = (get_proposal index term ps c).proposals in IsAscending left × All P left
get_proposal-IsAscending P index term ps c h a =
    rw (get_proposal-split_at index term ps c h)
      (IsAscending-filter (is_later index term) ps h, All-filter P (is_later index term) ps a)
