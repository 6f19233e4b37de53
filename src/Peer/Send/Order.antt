-- ===== src/Peer/Send/Order.antt =====
-- Each message goes out once, in order, over the connection of the host that it is for.
use mathlib.Core.List.{append-nil, append_assoc}
use jkv.Base.{
  ℕ, ◌≡◌, refl, ap, ◌∙◌, inl, inr, true, false, some, List, [], ◌∷◌, ◌++◌, All, Outcome, returned,
  arith, Table, find, Option-cases, >>=-eq-returned,
}
use jkv.Proto.{Message, RaftMsgReq}
use jkv.Env.{Env}
use jkv.Clients.{Net, get_client}
use jkv.Clients.Cache.{Connected, get_client_lem, get_client_total}
use jkv.Peer.State.{Peer, GroupMember}
use jkv.Peer.Send.{raft_msg_req, call_stub, send_msg2_peer, send_msgs}

module _ (env : Env) where
  open env.jrpc use {Client, sock_address, connect}

  -- A delivery of `msg`: the member's own connection, and a request from the ids of this peer to the ids
  -- of the member, with the message as it is.
  abbrev pub IsDelivery : Peer env → Table Client → Message → Client × RaftMsgReq → Type 0
  IsDelivery p mgr msg d =
      (find msg.to mgr ≡ some d.0)
      × ((g : GroupMember) × (find msg.to p.peers ≡ some g)
          × (d.1 ≡ record {
            from_peer = record { host_id = p.self.host_id; peer_id = p.self.peer_id };
            to_peer = record { host_id = g.host_id; peer_id = g.peer_id };
            msg = msg;
          }))

  -- One delivery for each message, in the same order.
  abbrev pub Delivers : Peer env → Table Client → List Message → List (Client × RaftMsgReq) → Type 0
  Delivers p mgr [] [] = Unit
  Delivers p mgr [] (d ∷ ds) = ⊥
  Delivers p mgr (m ∷ ms) [] = ⊥
  Delivers p mgr (m ∷ ms) (d ∷ ds) = IsDelivery p mgr m d × Delivers p mgr ms ds

  -- Connections that are there stay.
  abbrev Keeps : Net env → Net env → Type 0
  Keeps net net' =
      (j : ℕ) (c : Client) → find j net.rpc_cli_mgr ≡ some c → find j net'.rpc_cli_mgr ≡ some c

  call_stub_lem :
      (p : Peer env) (msg : Message) (net n1 net' : Net env) (g : GroupMember) (cl : Client)
      → find msg.to p.peers ≡ some g
      → Connected env msg.to net n1 cl
      → ◌≡◌ {A = Outcome (Net env)}
          (returned (call_stub env cl (raft_msg_req env p g msg) n1))
          (returned net')
      → (d : Client × RaftMsgReq) × IsDelivery p net'.rpc_cli_mgr msg d
        × (net'.sent ≡ net.sent ++ d ∷ [])
        × Keeps net net'
  call_stub_lem p msg net n1 net' g cl member con e =
      let req = raft_msg_req env p g msg in
      let same : call_stub env cl req n1 ≡ net' = ground arith in
      rw (← same) (
        (cl, req),
        (con.cached, (g, member, refl)),
        ap (λ l. l ++ (cl, req) ∷ []) con.sent_same,
        con.kept,
      )

  send_msg2_peer_lem :
      (p : Peer env) (msg : Message) (net net' : Net env)
      → send_msg2_peer env p msg net ≡ returned net'
      → (d : Client × RaftMsgReq) × IsDelivery p net'.rpc_cli_mgr msg d
        × (net'.sent ≡ net.sent ++ d ∷ [])
        × Keeps net net'
  unfolding send_msg2_peer
  send_msg2_peer_lem p msg net net' e = elim (Option-cases (find msg.to p.peers)) [
    | inl missing ↦ absurd (cc (rw missing at e))
    | inr (g, member) ↦
        let addr = sock_address g.ip g.port in
        let (x, got, e2) =
          >>=-eq-returned (get_client env msg.to p.worker addr 300 [] true net) _
            (rw member at e) in
        let (cl, made, con) = get_client_lem env msg.to p.worker addr 300 [] net x.1 x.0 got in
        call_stub_lem p msg net x.1 net' g cl member con (rw made at e2)
  ]

  -- When `SendMsgs` does not abort, every message of its list goes out exactly once, in order: to the
  -- group's member on the host that it names, from the ids of this peer and to the ids of that member,
  -- over the connection that the table then holds for that host; and no connection is lost.
  pub send_msgs_lem :
      (p : Peer env) (msgs : List Message) (net net' : Net env)
      → send_msgs env p msgs net ≡ returned net'
      → (ds : List (Client × RaftMsgReq)) × Delivers p net'.rpc_cli_mgr msgs ds
        × (net'.sent ≡ net.sent ++ ds)
        × Keeps net net'
  unfolding send_msgs
  send_msgs_lem p [] net net' e =
      let same : net ≡ net' = ground arith in
      ([], tt, rw (← same, append-nil), rw (← same) (λ j c k. k))
  send_msgs_lem p (m ∷ ms) net net' e =
      let (n1, first, rest) = >>=-eq-returned (send_msg2_peer env p m net) _ e in
      let (d, ok, sent, keep) = send_msg2_peer_lem p m net n1 first in
      let (ds, oks, sents, keeps) = send_msgs_lem p ms n1 net' rest in
      (
        d ∷ ds,
        ((keeps m.to d.0 ok.0, ok.1), oks),
        sents ∙ ap (λ l. l ++ ds) sent ∙ append_assoc net.sent (d ∷ []) ds,
        λ j c k. keeps j c (keep j c k),
      )

  abbrev pub IsMember : Peer env → Message → Type 0
  IsMember p msg = (g : GroupMember) × (find msg.to p.peers ≡ some g)

  send_msg2_peer_total :
      ((c : Client) → (connect c).0 ≡ false)
      → (p : Peer env) (msg : Message) (net : Net env) → IsMember p msg
      → (net' : Net env) × (send_msg2_peer env p msg net ≡ returned net')
  unfolding send_msg2_peer
  send_msg2_peer_total fine p msg net (g, member) =
      let addr = sock_address g.ip g.port in
      let (o, n1, got) = get_client_total env fine msg.to p.worker addr 300 [] net in
      let (cl, made, con) = get_client_lem env msg.to p.worker addr 300 [] net n1 o got in
      (call_stub env cl (raft_msg_req env p g msg) n1, rw (member, got, made))

  -- Where connecting never fails and every message is for a member of the group, all are sent.
  pub send_msgs_total :
      ((c : Client) → (connect c).0 ≡ false)
      → (p : Peer env) (msgs : List Message) (net : Net env) → All (IsMember p) msgs
      → (net' : Net env) × (send_msgs env p msgs net ≡ returned net')
  unfolding send_msgs
  send_msgs_total fine p [] net h = (net, refl)
  send_msgs_total fine p (m ∷ ms) net h =
      let (n1, first) = send_msg2_peer_total fine p m net h.0 in
      let (n2, rest) = send_msgs_total fine p ms n1 h.1 in (n2, rw (first, rest))
