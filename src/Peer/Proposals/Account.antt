-- ===== src/Peer/Proposals/Account.antt =====
-- No closure gets lost in the queue or is run twice there: the closures that wait, those that a call
-- hands out and those that have been run add up. And what a rejection sends.
use mathlib.Core.Path.{fun_ext}
use mathlib.Core.List.{reverse, reverse-cons, append_assoc}
use jkv.Base.{
  ℕ, ◌+◌, ◌≡◌, refl, ap, true, Option, none, some, List, [], ◌∷◌, ◌++◌, map, arith, count, ==_refl,
}
use jkv.Proto.{KvResp}
use jkv.Calls.{Calls, answered}
use jkv.Peer.Proposals.{Proposal, reject, get_proposal, callback_all}

-- The closures of the proposals that wait.
abbrev pub dones : List Proposal → List ℕ
dones [] = []
dones (p ∷ ps) = p.done ∷ dones ps

abbrev pub dones_of : Option Proposal → List ℕ
dones_of none = []
dones_of (some p) = p.done ∷ []

-- Through `GetProposal` each closure stands as often as before: handed out, still waiting, or run.
pub count-get_proposal :
    (d index term : ℕ) (ps : List Proposal) (c : Calls)
    → let r = get_proposal index term ps c in
      count d (dones_of r.found) + count d (dones r.proposals) + count d (answered r.calls)
      ≡ count d (dones ps) + count d (answered c)
unfolding get_proposal
count-get_proposal d index term [] c = omega arith
count-get_proposal d index term (p ∷ ps) c =
    ground (arith, count-get_proposal d index term ps (reject p c))

-- `CallbackAll` runs the closure of each waiting proposal, once for each time it waits.
pub count-callback_all :
    (d : ℕ) (ps : List Proposal) (c : Calls)
    → count d (answered (callback_all ps c)) ≡ count d (dones ps) + count d (answered c)
unfolding callback_all
count-callback_all d [] c = omega arith
count-callback_all d (p ∷ ps) c = omega (arith, count-callback_all d ps (reject p c))

-- The reply that a rejection of `p` owes: its response, marked as rejected.
abbrev pub rejection : Calls → Proposal → ℕ × KvResp
rejection c p = (p.done, record (c.resp p.resp) { rejected = true })

rejection-reject : (c : Calls) (p q : Proposal) → rejection (reject p c) q ≡ rejection c q
rejection-reject c p q = ground arith

-- `CallbackAll` sends one reply for each waiting proposal, in the order of the queue, and each of
-- them is the response of that proposal marked as rejected.
pub replies-callback_all :
    (ps : List Proposal) (c : Calls)
    → (callback_all ps c).replies ≡ reverse (map (rejection c) ps) ++ c.replies
unfolding callback_all
replies-callback_all [] c = refl
replies-callback_all (p ∷ ps) c =
    rw
      (
        replies-callback_all ps (reject p c),
        ==_refl p.resp,
        reverse-cons (rejection c p) (map (rejection c) ps),
        append_assoc (reverse (map (rejection c) ps)) (rejection c p ∷ []) c.replies,
      )
      (ap (λ (f : Proposal → ℕ × KvResp). reverse (map f ps) ++ rejection c p ∷ c.replies)
        (fun_ext (rejection-reject c p)))
