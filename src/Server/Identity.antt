-- ===== src/Server/Identity.antt =====
-- What a server's local peers are never changes while it serves.
use mathlib.Core.Path.{subst}
use jkv.Base.{
  ℕ, ◌≡◌, refl, sym, ◌∙◌, inl, inr, none, some, Option, no_peer, List, [], ◌∷◌, returned, arith,
  fatal, Outcome, >>=-eq-returned, Bool-cases, Table, find, assign, find-assign, ◌==◌,
}
use jkv.Proto.{KvReq}
use jkv.Env.{Env}
use jkv.Peer.State.{Peer, GroupMember}
use jkv.Peer.Ready.Frame.{ready_of, appended, process_entries-SameBut}
use jkv.Peer.History.{Member, Event, ticks, steps, proposes, happen}
use jkv.Server.Moves.{member_of, receive_inv}
use jkv.Peer.History.Steps.{ticked, ticks_inv, steps_inv, proposes_inv}
use jkv.Server.{Server, run_kv_op}
use jkv.Server.Inputs.{Input, receive, serve}

module _ (env : Env) where
  -- The same peer: its identity, its members and its database.
  pub record SamePeer (p q : Peer env) : Type 0 where
    pub self_same : q.self ≡ p.self
    pub peers_same : q.peers ≡ p.peers
    pub path_same : q.kv_db.db_path ≡ p.kv_db.db_path

  happen-SamePeer :
      (e : Event) (m m' : Member env) → happen env e m ≡ returned m' → SamePeer m.peer m'.peer
  happen-SamePeer ticks m m' h = elim (ticks_inv env m m' h) [
    | inl i ↦
        subst (SamePeer m.peer) i.peer_same
          (record { self_same = refl; peers_same = refl; path_same = refl })
    | inr (ready, r) ↦
        let p = ticked env m.peer in
        let kept =
          process_entries-SameBut env (env.raft.committed_entries (ready_of env p)) (appended env p)
            r.applied m.calls m'.calls r.processed in
        rw (r.advanced) (record {
          self_same = kept.self_same;
          peers_same = kept.peers_same;
          path_same = kept.path_same;
        })
  ]
  happen-SamePeer (steps msg) m m' h =
      rw (← steps_inv env msg m m' h)
        (record { self_same = refl; peers_same = refl; path_same = refl })
  happen-SamePeer (proposes req resp done) m m' h =
      let (s, _, at) = proposes_inv env req resp done m m' h in
      rw (← at) (record { self_same = refl; peers_same = refl; path_same = refl })

  -- A property of the table of local peers that a write of the same peer in its place keeps.
  pub record IsKept {κ} (P : Table (Peer env) → Type κ) : Type κ where
    pub kept :
        (i : ℕ) (p q : Peer env) (m : Table (Peer env))
        → find i m ≡ some p
        → SamePeer p q
        → P m
        → P (assign i q m)

  module _ {κ} (P : Table (Peer env) → Type κ) (k : IsKept P) where
    abbrev Holds : Server env → Type κ
    Holds s = P s.host.local_peers

    abbrev HoldsOf : Outcome (Server env) → Type κ
    HoldsOf (returned s) = Holds s
    HoldsOf (fatal e) = Unit

    pub receive-Holds :
        (e : Input) (s s' : Server env) → receive env e s ≡ returned s' → Holds s → Holds s'
    receive-Holds e s s' h hs = elim (receive_inv env e s s' h) [
      | inl same ↦ subst P (sym same) hs
      | inr (ts, ev, _, (i, v)) ↦
          let same = happen-SamePeer ev (member_of env v.peer s) v.after v.ran in
          subst P (sym v.peers_set) (k.kept i v.peer v.after.peer s.host.local_peers v.at same hs)
    ]

    pub serve-Holds :
        (es : List Input) (s s' : Server env) → serve env es s ≡ returned s' → Holds s → Holds s'
    unfolding serve
    serve-Holds [] s s' h hs = subst HoldsOf h hs
    serve-Holds (e ∷ es) s s' h hs =
        let (s1, first, rest) = >>=-eq-returned (receive env e s) (serve env es) h in
        serve-Holds es s1 s' rest (receive-Holds e s s1 first hs)

  abbrev pub identity_of : Option (Peer env) → Option (GroupMember × Table GroupMember)
  identity_of none = none
  identity_of (some p) = some (p.self, p.peers)

  -- Which peer stands under an id, and with which members.
  abbrev pub identity_at : ℕ → Server env → Option (GroupMember × Table GroupMember)
  identity_at j s = identity_of (find j s.host.local_peers)

  identity-assign :
      (j i : ℕ) (p q : Peer env) (m : Table (Peer env))
      → find i m ≡ some p
      → SamePeer p q
      → identity_of (find j (assign i q m)) ≡ identity_of (find j m)
  identity-assign j i p q m at same = elim (Bool-cases (i == j)) [
    | inl e ↦
        let one : i ≡ j = ground arith in
        let found : find j m ≡ some p = rw (← one) at in
        rw (find-assign i j q m, e, found, same.self_same, same.peers_same) refl
    | inr e ↦ rw (find-assign i j q m, e) refl
  ]

  -- Whatever calls come in and in whatever order tasks run and timers fire, under each id the same peer
  -- stands with the same members as at the start, or none as at the start.
  pub identity-serve :
      (j : ℕ) (es : List Input) (s s' : Server env)
      → serve env es s ≡ returned s'
      → identity_at j s' ≡ identity_at j s
  identity-serve j es s s' h =
      serve-Holds (λ m. identity_of (find j m) ≡ identity_at j s)
        (record { kept = λ i p q m at same e. identity-assign j i p q m at same ∙ e }) es s s' h
        refl

  -- A server without a peer 1 has none after any calls, tasks and timers; so the first request whose
  -- task runs aborts the process.
  pub no_peer-serve :
      (req : KvReq) (resp done : ℕ) (es : List Input) (s s' : Server env)
      → find 1 s.host.local_peers ≡ none
      → serve env es s ≡ returned s'
      → run_kv_op env req resp done s' ≡ fatal no_peer
  unfolding run_kv_op
  no_peer-serve req resp done es s s' none_1 h =
      let still =
        serve-Holds (λ m. find 1 m ≡ none)
          (record {
            kept = λ i p q m at same e. elim (Bool-cases (i == 1)) [
              | inl one ↦ let same_id : i ≡ 1 = ground arith in absurd (cc (rw same_id at at))
              | inr other ↦ rw (find-assign i 1 q m, other) e
            ];
          })
          es s s' h none_1 in
      rw still refl
