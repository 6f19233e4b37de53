-- ===== src/Peer/Proposals/News.antt =====
-- What an operation adds to the replies.
use mathlib.Core.List.{append_assoc}
use jkv.Base.{
  ℕ, ◌≡◌, refl, sym, ap, ◌∙◌, inl, inr, true, some, List, [], ◌∷◌, ◌++◌, All, All-map, All-append,
  arith, Bool-cases, ltb, ◌==◌, ==_refl,
}
use jkv.Proto.{KvResp}
use jkv.Calls.{Calls}
use jkv.Peer.Proposals.{Proposal, reject, get_proposal, callback_all}

-- The replies have grown by new ones with a property.
pub record News (Q : ℕ × KvResp → Type 0) (c c' : Calls) : Type 0 where
  pub news : List (ℕ × KvResp)
  pub grown : c'.replies ≡ news ++ c.replies
  pub all : All Q news

abbrev pub IsRejected : ℕ × KvResp → Type 0
IsRejected x = x.1.rejected ≡ true

module _ (Q : ℕ × KvResp → Type 0) where
  pub News-refl : (c : Calls) → News Q c c
  News-refl c = record { news = []; grown = refl; all = tt }

  pub News-trans : {c c1 c2 : Calls} → News Q c c1 → News Q c1 c2 → News Q c c2
  News-trans {c} a b = record {
    news = b.news ++ a.news;
    grown = b.grown ∙ ap (λ rs. b.news ++ rs) a.grown ∙ sym (append_assoc b.news a.news c.replies);
    all = All-append Q b.news a.news b.all a.all;
  }

  pub News-map :
      (R : ℕ × KvResp → Type 0) {c c' : Calls}
      → ((x : ℕ × KvResp) → Q x → R x)
      → News Q c c'
      → News R c c'
  News-map R f a = record { news = a.news; grown = a.grown; all = All-map a.news f a.all }

pub News-reject : (p : Proposal) (c : Calls) → News IsRejected c (reject p c)
News-reject p c = record {
  news = (p.done, record (c.resp p.resp) { rejected = true }) ∷ [];
  grown = rw (==_refl p.resp) refl;
  all = (refl, tt);
}

pub News-callback_all : (ps : List Proposal) (c : Calls) → News IsRejected c (callback_all ps c)
unfolding callback_all
News-callback_all [] c = News-refl IsRejected c
News-callback_all (p ∷ ps) c =
    News-trans IsRejected (News-reject p c) (News-callback_all ps (reject p c))

-- What `GetProposal` returns is a proposal of the queue at exactly this position, what it leaves is of
-- the queue, and all that it sends is rejections, whatever the order of the queue.
pub record IsGot (P : Proposal → Type 0) (index term : ℕ) (ps : List Proposal) (c : Calls)
    : Type 0 where
  pub left : All P (get_proposal index term ps c).proposals
  pub found :
      (q : Proposal)
      → (get_proposal index term ps c).found ≡ some q
      → P q × (q.index ≡ index) × (q.term ≡ term)
  pub sent : News IsRejected c (get_proposal index term ps c).calls

pub get_proposal-IsGot :
    (P : Proposal → Type 0) (index term : ℕ) (ps : List Proposal) (c : Calls)
    → All P ps
    → IsGot P index term ps c
unfolding get_proposal
get_proposal-IsGot P index term [] c h = record {
  left = tt;
  found = λ q e. absurd (cc);
  sent = News-refl IsRejected c;
}
get_proposal-IsGot P index term (p ∷ ps) c h =
    let ih = get_proposal-IsGot P index term ps (reject p c) h.1 in
    let passed = News-trans IsRejected (News-reject p c) ih.sent in
    let stays = News-refl IsRejected c in
    elim (Bool-cases (term == p.term)) [
      | inl t ↦ elim (Bool-cases (index == p.index)) [
        | inl i ↦ record {
          left = rw (t, i) h.1;
          found = λ q e. ground (arith, h.0);
          sent = rw (t, i) stays;
        }
        | inr i ↦ elim (Bool-cases (ltb index p.index)) [
          | inl l ↦ record {
            left = rw (t, i, l) h;
            found = λ q e. absurd (cc (rw (t, i, l) at e));
            sent = rw (t, i, l) stays;
          }
          | inr l ↦ record {
            left = rw (t, i, l) ih.left;
            found = λ q e. ih.found q (rw (t, i, l) at e);
            sent = rw (t, i, l) passed;
          }
        ]
      ]
      | inr t ↦ elim (Bool-cases (ltb term p.term)) [
        | inl l ↦ record {
          left = rw (t, l) h;
          found = λ q e. absurd (cc (rw (t, l) at e));
          sent = rw (t, l) stays;
        }
        | inr l ↦ record {
          left = rw (t, l) ih.left;
          found = λ q e. ih.found q (rw (t, l) at e);
          sent = rw (t, l) passed;
        }
      ]
    ]
