-- ===== src/Peer/History/Account.antt =====
-- The clients' closures over a whole history.
use jkv.Base.{
  ℕ, ◌+◌, ◌≤◌, ◌≡◌, ap, inl, inr, List, [], ◌∷◌, ◌++◌, returned, arith, count, count-append,
  Bool-cases, All,
}
use jkv.Calls.{Calls, answered}
use jkv.Env.{Env}
use jkv.Peer.State.{Peer}
use jkv.Peer.Proposals.{Proposal}
use jkv.Peer.Proposals.Account.{dones}
use jkv.Peer.Apply.Account.{IsCommand, count_le-process_entries, count-process_entries}
use jkv.Peer.Ready.Frame.{ready_of, appended}
use jkv.Peer.Propose.{queue_of, new_proposal}
use jkv.Peer.History.Steps.{ticked, ticks_inv, steps_inv, proposes_inv, run_nil, run_inv}
use jkv.Peer.History.{
  Member, Event, ticks, steps, proposes, brought_by, brought, happen, run, delivered_at,
}

pub dones-append :
    (d : ℕ) (ps qs : List Proposal)
    → count d (dones (ps ++ qs)) ≡ count d (dones ps) + count d (dones qs)
dones-append d [] qs = omega arith
dones-append d (p ∷ ps) qs = omega (arith, dones-append d ps qs)

module _ (env : Env) (d : ℕ) where
  -- How often a closure waits or has been run.
  abbrev pub held : Member env → ℕ
  held m = count d (dones m.peer.proposals) + count d (answered m.calls)

  pub held-queue_of :
      (p : Peer env) (resp done : ℕ)
      → count d (dones (queue_of env p resp done))
        ≤ count d (dones p.proposals) + count d (done ∷ [])
  held-queue_of p resp done = elim (Bool-cases (env.raft.is_leader p.raw_node)) [
    | inl leads ↦
        rw leads (omega (arith, dones-append d p.proposals (new_proposal env p resp done ∷ [])))
    | inr follows ↦ rw follows (omega arith)
  ]

  pub held-happen :
      (e : Event) (m m' : Member env)
      → happen env e m ≡ returned m'
      → held m' ≤ held m + count d (brought_by e)
  held-happen ticks m m' h = elim (ticks_inv env m m' h) [
    | inl i ↦ omega (
      arith,
      ap (λ (p : Peer env). count d (dones p.proposals)) i.peer_same,
      ap (λ (c : Calls). count d (answered c)) i.calls_same,
    )
    | inr (ready, r) ↦
        let p = ticked env m.peer in
        omega (
          arith,
          ap (λ (q : Peer env). count d (dones q.proposals)) r.advanced,
          count_le-process_entries env d (env.raft.committed_entries (ready_of env p))
              (appended env p) r.applied m.calls m'.calls r.processed,
        )
  ]
  held-happen (steps msg) m m' h = omega (arith, ap held (steps_inv env msg m m' h))
  held-happen (proposes req resp done) m m' h =
      let (s, es, at) = proposes_inv env req resp done m m' h in
      omega (arith, ap held at, held-queue_of m.peer resp done)

  -- A tick at which only client commands are delivered.
  pub held-ticks :
      (m m' : Member env)
      → All (IsCommand env.codec) (delivered_at env ticks m)
      → happen env ticks m ≡ returned m'
      → held m' ≡ held m
  held-ticks m m' all h = elim (ticks_inv env m m' h) [
    | inl i ↦ omega (
      arith,
      ap (λ (p : Peer env). count d (dones p.proposals)) i.peer_same,
      ap (λ (c : Calls). count d (answered c)) i.calls_same,
    )
    | inr (ready, r) ↦
        let p = ticked env m.peer in
        omega (
          arith,
          ap (λ (q : Peer env). count d (dones q.proposals)) r.advanced,
          count-process_entries env d (env.raft.committed_entries (ready_of env p)) (appended env p)
              r.applied m.calls m'.calls (rw ready at all) r.processed,
        )
  ]

  -- Over any history a closure is run, or waits to be run, at most as often as it was at the start and
  -- as requests have brought it.
  pub held-run :
      (es : List Event) (m m' : Member env)
      → run env es m ≡ returned m'
      → held m' ≤ held m + count d (brought es)
  held-run [] m m' h = omega (arith, ap held (run_nil env m m' h))
  held-run (e ∷ es) m m' h =
      let (m1, first, rest) = run_inv env e es m m' h in
      omega (
        arith,
        held-happen e m m1 first,
        held-run es m1 m' rest,
        count-append d (brought_by e) (brought es),
      )
