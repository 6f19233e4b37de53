-- ===== src/Peer/Send/Objects.antt =====
-- The controllers and responses of the calls that a host makes: each one is freed once.
use jkv.Base.{
  ℕ, ◌+◌, ◌≤◌, ◌<◌, ◌≡◌, refl, inl, inr, true, false, List, [], ◌∷◌, ◌++◌, returned, arith,
  Bool-cases, Option-cases, >>=-eq-returned, length, leb, ltb, count, count-append, filter, ◌==◌,
  if◌then◌else◌, find, length-append,
}
use mathlib.Core.Path.{subst}
use jkv.Proto.{Message}
use jkv.Env.{Env}
use jkv.Clients.{Net, get_client}
use jkv.Clients.Cache.{Connected, get_client_lem}
use jkv.Peer.State.{Peer, GroupMember}
use jkv.Peer.Send.{raft_msg_req, call_stub, send_msg2_peer, send_msgs, free, handle_send_msg2_peer}

-- The list without a number.
abbrev pub without : ℕ → List ℕ → List ℕ
without k = filter (λ c. if c == k then false else true)

count-without :
    (j k : ℕ) (cs : List ℕ) → count j (without k cs) ≡ (if j == k then 0 else count j cs)
count-without j k [] = ground arith
count-without j k (c ∷ cs) = ground (arith, count-without j k cs)

free_inv :
    (call : ℕ) (os os' : List ℕ)
    → free call os ≡ returned os'
    → (1 ≤ count call os) × (without call os ≡ os')
free_inv call os os' h = elim (Bool-cases (leb 1 (count call os))) [
  | inl e ↦ (ground arith, ground (arith, rw e at h))
  | inr e ↦ absurd (cc (rw e at h))
]

module _ (env : Env) where
  -- A closure that runs has found both objects of its call, and has freed them.
  pub record AreFreed (call : ℕ) (net net' : Net env) : Type 0 where
    pub controller_there : 1 ≤ count call net.controllers
    pub response_there : 1 ≤ count call net.responses
    pub at :
        record net {
          controllers = without call net.controllers;
          responses = without call net.responses;
        }
        ≡ net'

  pub handle_send_msg2_peer_inv :
      (call : ℕ) (net net' : Net env)
      → handle_send_msg2_peer env call net ≡ returned net'
      → AreFreed call net net'
  unfolding handle_send_msg2_peer
  handle_send_msg2_peer_inv call net net' h =
      let (rs, first, h1) = >>=-eq-returned (free call net.responses) _ h in
      let (cs, second, h2) = >>=-eq-returned (free call net.controllers) _ h1 in
      let (r_there, r_gone) = free_inv call net.responses rs first in
      let (c_there, c_gone) = free_inv call net.controllers cs second in
      record {
        controller_there = c_there;
        response_there = r_there;
        at = rw (r_gone, c_gone) (ground arith);
      }

  -- Whether a call has been made: the calls are numbered as they are made.
  abbrev pub made : ℕ → Net env → ℕ
  made k net = if ltb k (length net.sent) then 1 else 0

  -- The controller and the response of a call are there once each, if the call has been made and its
  -- closure is not among those that have been run, and otherwise not.
  abbrev pub AreOwned : List ℕ → Net env → Type 0
  AreOwned done net =
      (k : ℕ)
      → (count k net.controllers + count k done ≡ made k net)
        × (count k net.responses + count k done ≡ made k net)

  call_stub-AreOwned :
      (done : List ℕ) (p : Peer env) (msg : Message) (net n1 : Net env) (g : GroupMember)
      (cl : env.jrpc.Client)
      → Connected env msg.to net n1 cl
      → AreOwned done net
      → AreOwned done (call_stub env cl (raft_msg_req env p g msg) n1)
  call_stub-AreOwned done p msg net n1 g cl con own k =
      rw (con.sent_same, con.controllers_same, con.responses_same)
        (one_more net.controllers (own k).0, one_more net.responses (own k).1)
    where
      one_more :
          (os : List ℕ)
          → count k os + count k done ≡ made k net
          → count k (os ++ length net.sent ∷ []) + count k done
            ≡ made k (call_stub env cl (raft_msg_req env p g msg) net)
      one_more os h = ground (
        arith,
        h,
        count-append k os (length net.sent ∷ []),
        length-append net.sent ((cl, raft_msg_req env p g msg) ∷ []),
      )

  send_msg2_peer-AreOwned :
      (done : List ℕ) (p : Peer env) (msg : Message) (net net' : Net env)
      → send_msg2_peer env p msg net ≡ returned net'
      → AreOwned done net
      → AreOwned done net'
  unfolding send_msg2_peer
  send_msg2_peer-AreOwned done p msg net net' e own = elim (Option-cases (find msg.to p.peers)) [
    | inl missing ↦ absurd (cc (rw missing at e))
    | inr (g, member) ↦
        let addr = env.jrpc.sock_address g.ip g.port in
        let (x, got, e2) =
          >>=-eq-returned (get_client env msg.to p.worker addr 300 [] true net) _
            (rw member at e) in
        let (cl, found, con) = get_client_lem env msg.to p.worker addr 300 [] net x.1 x.0 got in
        let same : call_stub env cl (raft_msg_req env p g msg) x.1 ≡ net' =
          ground (arith, rw found at e2) in
        subst (AreOwned done) same (call_stub-AreOwned done p msg net x.1 g cl con own)
  ]

  pub send_msgs-AreOwned :
      (done : List ℕ) (p : Peer env) (msgs : List Message) (net net' : Net env)
      → send_msgs env p msgs net ≡ returned net'
      → AreOwned done net
      → AreOwned done net'
  unfolding send_msgs
  send_msgs-AreOwned done p [] net net' e own =
      let same : net ≡ net' = ground arith in subst (AreOwned done) same own
  send_msgs-AreOwned done p (m ∷ ms) net net' e own =
      let (n1, first, rest) = >>=-eq-returned (send_msg2_peer env p m net) _ e in
      send_msgs-AreOwned done p ms n1 net' rest (send_msg2_peer-AreOwned done p m net n1 first own)

  pub handle_send_msg2_peer-AreOwned :
      (done : List ℕ) (call : ℕ) (net net' : Net env)
      → handle_send_msg2_peer env call net ≡ returned net'
      → AreOwned done net
      → AreOwned (call ∷ done) net'
  handle_send_msg2_peer-AreOwned done call net net' h own =
      let freed = handle_send_msg2_peer_inv call net net' h in
      subst (AreOwned (call ∷ done)) freed.at λ k. (
        one_less k net.controllers freed.controller_there (own k).0 (own call).0,
        one_less k net.responses freed.response_there (own k).1 (own call).1,
      )
    where
      one_less :
          (k : ℕ) (os : List ℕ)
          → 1 ≤ count call os
          → count k os + count k done ≡ made k net
          → count call os + count call done ≡ made call net
          → count k (without call os) + count k (call ∷ done) ≡ made k net
      one_less k os there own_k own_call = ground (arith, count-without k call os)

  -- The closure of a call that has been made and whose closure has not run frees the controller and the
  -- response of this call and no others.
  pub handle_send_msg2_peer-frees :
      (done : List ℕ) (call : ℕ) (net : Net env)
      → AreOwned done net
      → call < length net.sent
      → count call done ≡ 0
      → (net' : Net env) × (handle_send_msg2_peer env call net ≡ returned net')
        × ((k : ℕ)
            → (count k net'.controllers ≡ (if k == call then 0 else count k net.controllers))
              × (count k net'.responses ≡ (if k == call then 0 else count k net.responses)))
  unfolding handle_send_msg2_peer
  handle_send_msg2_peer-frees done call net own was not_yet =
      let c_there : leb 1 (count call net.controllers) ≡ true = ground (arith, own call) in
      let r_there : leb 1 (count call net.responses) ≡ true = ground (arith, own call) in
      (
        record net {
          controllers = without call net.controllers;
          responses = without call net.responses;
        },
        rw (c_there, r_there) refl,
        λ k. (count-without k call net.controllers, count-without k call net.responses),
      )
