-- ===== src/Server/Closures.antt =====
-- The closures of the tasks in the worker's loop.
use jkv.Base.{
  ℕ, zero, suc, ◌+◌, ◌≡◌, ap, inl, inr, Option, none, some, List, [], ◌∷◌, ◌++◌, arith, count,
  Option-cases,
}
use jkv.Server.{Task, kv_op_cb, handle_raft_msg_cb, take_at}

abbrev pub closure_of : Task → ℕ
closure_of (kv_op_cb req resp done) = done
closure_of (handle_raft_msg_cb req done) = done

abbrev pub closures : List Task → List ℕ
closures [] = []
closures (t ∷ ts) = closure_of t ∷ closures ts

pub count-closures-append :
    (d : ℕ) (t : Task) (ts : List Task)
    → count d (closures (ts ++ t ∷ [])) ≡ count d (closures ts) + count d (closure_of t ∷ [])
count-closures-append d t [] = omega arith
count-closures-append d t (u ∷ us) = omega (arith, count-closures-append d t us)

abbrev count_taken : ℕ → Option (Task × List Task) → ℕ
count_taken d none = 0
count_taken d (some (t, ts)) = count d (closure_of t ∷ closures ts)

pub count-take_at :
    (d n : ℕ) (t : Task) (ts us : List Task)
    → take_at n ts ≡ some (t, us)
    → count d (closures ts) ≡ count d (closure_of t ∷ []) + count d (closures us)
count-take_at d n t [] us h = cc
count-take_at d zero t (u ∷ vs) us h = omega (arith, ap (count_taken d) h)
count-take_at d (suc n) t (u ∷ vs) us h = elim (Option-cases (take_at n vs)) [
  | inl e ↦ absurd (cc (rw e at h))
  | inr (x, e) ↦ omega (arith, count-take_at d n x.0 vs x.1 e, ap (count_taken d) (rw e at h))
]
