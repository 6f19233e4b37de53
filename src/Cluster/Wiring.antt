-- ===== src/Cluster/Wiring.antt =====
-- Connections lead to the hosts that they are kept for, and what is sent over them is for those.
use jkv.Base.{
  ℕ, ◌≡◌, ◌∙◌, refl, sym, ap, inl, inr, true, Option, some, List, [], ◌∷◌, All, All-append,
  returned, >>=-eq-returned, arith, Bytes, Table, find, assign, assign-Every, AreKeysOf,
  assign-AreKeysOf, Option-cases, Bool-cases, ◌==◌,
}
use jkv.Proto.{Message, RaftMsgReq}
use jkv.Env.{Env}
use jkv.Clients.{Net, get_client}
use jkv.Clients.Cache.{get_client_lem}
use jkv.Peer.State.{Peer, GroupMember}
use jkv.Peer.Members.Entries.{IsMemberTable}
use jkv.Peer.Ready.Frame.{ready_of, appended, process_entries-SameBut}
use jkv.Peer.History.{Member, Event, ticks, steps, proposes, happen}
use jkv.Peer.History.Steps.{ticked, ticks_inv, steps_inv, proposes_inv}
use mathlib.Core.Path.{subst}
use jkv.Peer.Send.{raft_msg_req, call_stub, send_msg2_peer, send_msgs}

find-host :
    (h : ℕ) (g : GroupMember) (m : Table GroupMember)
    → IsMemberTable m
    → find h m ≡ some g
    → g.host_id ≡ h
find-host h g [] t at = absurd (cc)
find-host h g ((k, q) ∷ m) t at = elim (Bool-cases (k == h)) [
  | inl e ↦
      let same : q ≡ g = ground (arith, rw e at at) in
      let key : k ≡ h = ground arith in
      ap (λ (r : GroupMember). r.host_id) (sym same) ∙ sym t.0 ∙ key
  | inr e ↦ find-host h g m t.5 (rw e at at)
]

module _ (env : Env) (group : Table GroupMember) (reaches : env.jrpc.Client → ℕ) where
  open env.jrpc use {
    Client, Worker, sock_address, rpc_client, set_timeout_ms, set_rpc_depth, connect,
  }

  -- `reaches` is the host whose process a connection ends at. A connection that is made to a member's
  -- address ends at the member's host.
  abbrev pub IsNetwork : Type 0
  IsNetwork =
      (h : ℕ) (g : GroupMember)
      → find h group ≡ some g
      → (w : Option Worker) (name : Bytes) (timeout depth : ℕ)
      → reaches
          (connect (
            set_rpc_depth (set_timeout_ms (rpc_client w (sock_address g.ip g.port) name) timeout)
              depth)).1
        ≡ g.host_id

  -- The request is for the group's member on this host.
  abbrev pub IsFor : ℕ → RaftMsgReq → Type 0
  IsFor h req =
      (g : GroupMember) × (find h group ≡ some g)
      × (req.to_peer ≡ record { host_id = h; peer_id = g.peer_id })

  abbrev pub IsSent : Client × RaftMsgReq → Type 0
  IsSent x = IsFor (reaches x.0) x.1

  -- Each connection leads to the host that it is kept for, there is one for a host at most, and only for
  -- members.
  pub record IsLinked (mgr : Table Client) : Type 0 where
    pub linked : (h : ℕ) (cl : Client) → find h mgr ≡ some cl → reaches cl ≡ h
    pub keyed : AreKeysOf group mgr

  pub record IsWired (net : Net env) : Type 0 where
    pub links : IsLinked net.rpc_cli_mgr
    pub sent : All IsSent net.sent

  assign-IsLinked :
      (h : ℕ) (g : GroupMember) (cl : Client) (mgr : Table Client)
      → find h group ≡ some g
      → reaches cl ≡ h
      → IsLinked mgr
      → IsLinked (assign h cl mgr)
  assign-IsLinked h g cl mgr member ends o = record {
    linked = assign-Every (λ k c. reaches c ≡ k) h cl mgr ends o.linked;
    keyed = assign-AreKeysOf group h cl g mgr member o.keyed;
  }

  module _ (table : IsMemberTable group) (network : IsNetwork) where
    get_client-IsLinked :
        (h : ℕ) (g : GroupMember) (w : Option Worker) (t : ℕ) (n : Bytes) (net net' : Net env)
        (o : Option Client)
        → find h group ≡ some g
        → get_client env h w (sock_address g.ip g.port) t n true net ≡ returned (o, net')
        → IsLinked net.rpc_cli_mgr
        → IsLinked net'.rpc_cli_mgr
    unfolding get_client
    get_client-IsLinked h g w t n net net' o member e old =
        elim (Option-cases (find h net.rpc_cli_mgr)) [
          | inr (c, hit) ↦ let same : net ≡ net' = ground (arith, rw hit at e) in rw (← same) old
          | inl miss ↦
              let c =
                set_rpc_depth (set_timeout_ms (rpc_client w (sock_address g.ip g.port) n) t)
                  10000 in
              elim (Bool-cases (connect c).0) [
                | inl failed ↦ absurd (cc (rw (miss, failed) at e))
                | inr fine ↦
                    let new : Net env = record net {
                      rpc_cli_mgr = assign h (connect c).1 net.rpc_cli_mgr;
                    } in
                    let same : new ≡ net' = ground (arith, rw (miss, fine) at e) in
                    let ends = network h g member w n t 10000 ∙ find-host h g group table member in
                    rw (← same) (assign-IsLinked h g (connect c).1 net.rpc_cli_mgr member ends old)
              ]
        ]

    send_msg2_peer-IsWired :
        (p : Peer env) (msg : Message) (net net' : Net env)
        → p.peers ≡ group
        → send_msg2_peer env p msg net ≡ returned net'
        → IsWired net
        → IsWired net'
    unfolding send_msg2_peer
    send_msg2_peer-IsWired p msg net net' own e w = elim (Option-cases (find msg.to p.peers)) [
      | inl missing ↦ absurd (cc (rw missing at e))
      | inr (g, member) ↦
          let addr = sock_address g.ip g.port in
          let in_group : find msg.to group ≡ some g = rw own at member in
          let (x, got, e2) =
            >>=-eq-returned (get_client env msg.to p.worker addr 300 [] true net) _
              (rw member at e) in
          let (cl, made, con) = get_client_lem env msg.to p.worker addr 300 [] net x.1 x.0 got in
          let links =
            get_client-IsLinked msg.to g p.worker 300 [] net x.1 x.0 in_group got w.links in
          let req = raft_msg_req env p g msg in
          let same : call_stub env cl req x.1 ≡ net' = ground (arith, rw made at e2) in
          let ends : reaches cl ≡ msg.to = links.linked msg.to cl con.cached in
          let one : IsSent (cl, req) =
            rw ends (g, in_group, rw (find-host msg.to g group table in_group) refl) in
          rw (← same) (record {
            links = links;
            sent = All-append IsSent x.1.sent ((cl, req) ∷ []) (rw con.sent_same w.sent) (one, tt);
          })
    ]

    pub send_msgs-IsWired :
        (p : Peer env) (msgs : List Message) (net net' : Net env)
        → p.peers ≡ group
        → send_msgs env p msgs net ≡ returned net'
        → IsWired net
        → IsWired net'
    unfolding send_msgs
    send_msgs-IsWired p [] net net' own e w = let same : net ≡ net' = ground arith in rw (← same) w
    send_msgs-IsWired p (m ∷ ms) net net' own e w =
        let (n1, first, rest) = >>=-eq-returned (send_msg2_peer env p m net) _ e in
        send_msgs-IsWired p ms n1 net' own rest (send_msg2_peer-IsWired p m net n1 own first w)

    -- What happens to a peer of the group keeps its host's connections and messages so.
    pub happen-IsWired :
        (e : Event) (m m' : Member env)
        → happen env e m ≡ returned m'
        → m.peer.peers ≡ group
        → IsWired m.net
        → (m'.peer.peers ≡ group) × IsWired m'.net
    happen-IsWired ticks m m' h own w = elim (ticks_inv env m m' h) [
      | inl i ↦ (ap (λ (q : Peer env). q.peers) (sym i.peer_same) ∙ own, subst IsWired i.net_same w)
      | inr (_, r) ↦
          let p = ticked env m.peer in
          let es = env.raft.committed_entries (ready_of env p) in
          let same =
            (process_entries-SameBut env es (appended env p) r.applied m.calls m'.calls
              r.processed).peers_same in
          (
            ap (λ (q : Peer env). q.peers) r.advanced ∙ same ∙ own,
            send_msgs-IsWired (appended env p) (env.raft.messages (ready_of env p)) m.net m'.net own
                r.sent w,
          )
    ]
    happen-IsWired (steps msg) m m' h own w = rw (← steps_inv env msg m m' h) (own, w)
    happen-IsWired (proposes req resp done) m m' h own w =
        let (s, _, at) = proposes_inv env req resp done m m' h in rw (← at) (own, w)
