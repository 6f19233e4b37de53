-- ===== src/Peer/Proposals.antt =====
-- `struct Proposal`, `Peer::GetProposal` and `Peer::CallbackAll` of peer/peer.cc.
-- The deque `proposals_` is a list, its front first; the loop pops one entry a round.
pub mod Account
pub mod Order
pub mod News
use jkv.Base.{ℕ, Option, none, some, List, [], ◌∷◌, ltb, ◌==◌, if◌then◌else◌}
use jkv.Calls.{Calls, set_rejected, run}

-- `resp` and `done` are the pointers.
pub record Proposal : Type 0 where
  pub index : ℕ
  pub term : ℕ
  pub resp : ℕ
  pub done : ℕ

-- `p->resp->set_rejected(true); p->done->Run();`
abbrev pub reject : Proposal → Calls → Calls
reject p c = run p.done p.resp (set_rejected p.resp c)

-- What `Peer::GetProposal` returns, what it leaves of the deque, and the calls after it.
pub record Got : Type 0 where
  pub found : Option Proposal
  pub proposals : List Proposal
  pub calls : Calls

-- `Peer::GetProposal`
unfoldable pub get_proposal : ℕ → ℕ → List Proposal → Calls → Got
get_proposal index term [] c = record { found = none; proposals = []; calls = c }
get_proposal index term (p ∷ ps) c =
    let pass = get_proposal index term ps (reject p c) in
    let stop : Got = record { found = none; proposals = p ∷ ps; calls = c } in
    if term == p.term
    then (if index == p.index
        then record { found = some p; proposals = ps; calls = c }
        else (if ltb index p.index then stop else pass))
    else (if ltb term p.term then stop else pass)

-- `Peer::CallbackAll`: its loop; the deque is empty afterwards.
unfoldable pub callback_all : List Proposal → Calls → Calls
callback_all [] c = c
callback_all (p ∷ ps) c = callback_all ps (reject p c)
