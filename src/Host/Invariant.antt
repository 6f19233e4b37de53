-- ===== src/Host/Invariant.antt =====
-- What the host keeps true of its local peers.
use jkv.Base.{
  ℕ, ◌<◌, ◌≡◌, ◌≢◌, refl, ap, inl, inr, true, false, none, some, [], ◌∷◌, returned, >>=-eq-returned,
  arith, Bool-cases, Option-cases, Bytes, Table, find, assign, find-assign, if◌then◌else◌, ◌∙◌,
  ◌>>=◌, ◌==◌, fatal, peer_existed, bad_peer_id, other_host, leb,
}
use jkv.Config.{PeerOption}
use jkv.Env.{Env}
use jkv.Peer.State.{Peer}
use jkv.Peer.Members.Entries.{IsMemberTable, init_group_members-IsMemberTable}
use jkv.Peer.Create.{create_peer}
use jkv.Peer.Create.Voters.{create_peer_inv}
use jkv.Host.{Host, add_local_peer}

module _ (env : Env) where
  open env use {raft, jrpc, leveldb, split}

  -- A local peer: of this host, under its own id, which is not 0, with a well-formed member table.
  abbrev pub IsLocalPeer : ℕ → ℕ → Peer env → Type 0
  IsLocalPeer host i p =
      (p.self.peer_id ≡ i) × (p.self.host_id ≡ host) × (0 < i) × IsMemberTable p.peers

  -- Each entry is a local peer, and no id stands twice.
  abbrev pub IsPeerTable : ℕ → Table (Peer env) → Type 0
  IsPeerTable host [] = Unit {0}
  IsPeerTable host ((i, p) ∷ m) = IsLocalPeer host i p × (find i m ≡ none) × IsPeerTable host m

  find-assign-other :
      (i j : ℕ) (p : Peer env) (m : Table (Peer env))
      → i ≢ j
      → find j m ≡ none
      → find j (assign i p m) ≡ none
  find-assign-other i j p [] ne h = ground arith
  find-assign-other i j p ((k, q) ∷ m) ne h = ground (arith, find-assign-other i j p m)

  assign-IsPeerTable :
      (host i : ℕ) (p : Peer env) (m : Table (Peer env))
      → IsLocalPeer host i p
      → find i m ≡ none
      → IsPeerTable host m
      → IsPeerTable host (assign i p m)
  assign-IsPeerTable host i p [] l new t = (l, refl, tt)
  assign-IsPeerTable host i p ((k, q) ∷ m) l new t = elim (Bool-cases (k == i)) [
    | inl e ↦ absurd (cc (rw e at new))
    | inr e ↦ rw e (
      t.0,
      find-assign-other i k p m (λ same. ground arith) t.1,
      assign-IsPeerTable host i p m l (rw e at new) t.2,
    )
  ]

  -- `AddLocalPeer` refuses an id that is taken, an id that is 0 and another host's peer, in this order,
  -- before it makes or opens anything.
  pub add_local_peer_refuses :
      (opt : PeerOption jrpc.Worker raft.Storage) (h : Host env) (fs : leveldb.Files)
      → ((p : Peer env)
          → find opt.peer_id h.local_peers ≡ some p
          → add_local_peer env opt h fs ≡ fatal peer_existed)
        × (find opt.peer_id h.local_peers ≡ none
            → ((opt.peer_id ≡ 0) → add_local_peer env opt h fs ≡ fatal bad_peer_id)
              × (0 < opt.peer_id
                  → opt.host_id ≢ h.option.host_id
                  → add_local_peer env opt h fs ≡ fatal other_host))
  unfolding add_local_peer
  add_local_peer_refuses opt h fs = (
    (λ p e. rw e refl),
    (λ e. (
      (λ z. rw (e, z) refl),
      (λ pos ne.
          let big : leb opt.peer_id 0 ≡ false = ground arith in
          let other : (opt.host_id == h.option.host_id) ≡ false = ground arith in
          rw (e, big, other) refl),
    )),
  )

  created-IsLocalPeer :
      (opt : PeerOption jrpc.Worker raft.Storage) (host : ℕ) (db_path : Bytes)
      (fs fs' : leveldb.Files) (p : Peer env)
      → leb opt.peer_id 0 ≡ false
      → (opt.host_id == host) ≡ true
      → create_peer env opt db_path fs ≡ returned (p, fs')
      → IsLocalPeer host opt.peer_id p × (p.proposals ≡ [])
  created-IsLocalPeer opt host db_path fs fs' p big own h =
      let c = create_peer_inv env opt db_path fs fs' p h in
      (
        (
          ap (λ (q : Peer env). q.self.peer_id) c.at,
          ap (λ (q : Peer env). q.self.host_id) c.at ∙ ground arith,
          ground arith,
          init_group_members-IsMemberTable split opt.members p.peers c.members_read,
        ),
        ap (λ (q : Peer env). q.proposals) c.at,
      )

  -- What `AddLocalPeer` went through when it returned.
  pub record IsAdded (opt : PeerOption jrpc.Worker raft.Storage) (h h' : Host env)
      (fs fs' : leveldb.Files) : Type 0 where
    pub peer : Peer env
    pub new : find opt.peer_id h.local_peers ≡ none
    pub id_given : leb opt.peer_id 0 ≡ false
    pub own : (opt.host_id == h.option.host_id) ≡ true
    pub made : create_peer env opt h.option.db_path fs ≡ returned (peer, fs')
    pub at : h' ≡ record h { local_peers = assign opt.peer_id peer h.local_peers }

  IsAdded-end :
      (opt : PeerOption jrpc.Worker raft.Storage) (h h' : Host env) (fs fs' : leveldb.Files)
      → find opt.peer_id h.local_peers ≡ none
      → leb opt.peer_id 0 ≡ false
      → (opt.host_id == h.option.host_id) ≡ true
      → ◌>>=◌ {B = Host env × leveldb.Files}
          (create_peer env opt h.option.db_path fs)
          (λ x. returned (record h { local_peers = assign opt.peer_id x.0 h.local_peers }, x.1))
        ≡ returned (h', fs')
      → IsAdded opt h h' fs fs'
  IsAdded-end opt h h' fs fs' new big own e =
      let (x, made, last) = >>=-eq-returned (create_peer env opt h.option.db_path fs) _ e in
      let files : x.1 ≡ fs' = ground arith in
      record {
        peer = x.0;
        new = new;
        id_given = big;
        own = own;
        made = made ∙ ap (λ f. returned (x.0, f)) files;
        at = ground arith;
      }

  pub add_local_peer_inv :
      (opt : PeerOption jrpc.Worker raft.Storage) (h h' : Host env) (fs fs' : leveldb.Files)
      → add_local_peer env opt h fs ≡ returned (h', fs')
      → IsAdded opt h h' fs fs'
  unfolding add_local_peer
  add_local_peer_inv opt h h' fs fs' e = elim (Option-cases (find opt.peer_id h.local_peers)) [
    | inr (q, f) ↦ absurd (cc (rw f at e))
    | inl new ↦ elim (Bool-cases (leb opt.peer_id 0)) [
      | inl zero ↦ absurd (cc (rw zero at (rw new at e)))
      | inr big ↦ elim (Bool-cases (opt.host_id == h.option.host_id)) [
        | inr other ↦ absurd (cc (rw other at (rw big at (rw new at e))))
        | inl own ↦ IsAdded-end opt h h' fs fs' new big own (rw own at (rw big at (rw new at e)))
      ]
    ]
  ]

  -- `AddLocalPeer` on a host whose local peers are all its own, each under its own id, keeps that so;
  -- when it returns, the new peer is there with nothing in its queue, and every other one is as before.
  pub add_local_peer-IsPeerTable :
      (opt : PeerOption jrpc.Worker raft.Storage) (h h' : Host env) (fs fs' : leveldb.Files)
      → IsPeerTable h.option.host_id h.local_peers
      → add_local_peer env opt h fs ≡ returned (h', fs')
      → IsPeerTable h'.option.host_id h'.local_peers
        × ((p : Peer env) × (p.proposals ≡ [])
            × ((j : ℕ)
                → find j h'.local_peers
                  ≡ (if opt.peer_id == j then some p else find j h.local_peers)))
  add_local_peer-IsPeerTable opt h h' fs fs' t e =
      let a = add_local_peer_inv opt h h' fs fs' e in
      let made =
        created-IsLocalPeer opt h.option.host_id h.option.db_path fs fs' a.peer a.id_given a.own
          a.made in
      rw (a.at) (
        assign-IsPeerTable h.option.host_id opt.peer_id a.peer h.local_peers made.0 a.new t,
        (a.peer, made.1, (λ j. find-assign opt.peer_id j a.peer h.local_peers)),
      )
