-- ===== src/Clients/Cache.antt =====
-- `GetClient` as a cache of connections, one for each host.
use jkv.Base.{
  ℕ, ◌≡◌, ◌≢◌, refl, inl, inr, Bool, true, false, Option-cases, Option, none, some, Outcome,
  returned, arith, Bytes, find, assign, find-assign, Bool-cases,
}
use jkv.Config.{HostId}
use jkv.Env.{Env}
use jkv.Clients.{Net, get_or_create, get_client}

module _ (env : Env) where
  open env.jrpc use {
    Client, Worker, SockAddress, connect, rpc_client, set_timeout_ms, set_rpc_depth,
  }

  -- A host that has a connection: nothing is made, and nothing changes.
  pub get_client_hit :
      (h : HostId) (w : Option Worker) (a : SockAddress) (t : ℕ) (n : Bytes) (create : Bool)
      (net : Net env) (cl : Client)
      → find h net.rpc_cli_mgr ≡ some cl
      → get_client env h w a t n create net ≡ returned (some cl, net)
  unfolding get_client
  get_client_hit h w a t n create net cl e = rw e

  the_net :
      {o o' : Option Client} {n n' : Net env}
      → ◌≡◌ {A = Outcome (Option Client × Net env)} (returned (o, n)) (returned (o', n'))
      → n ≡ n'
  the_net e = ground arith

  -- What a call that may create a connection leaves.
  pub record Connected (h : HostId) (net net' : Net env) (cl : Client) : Type 0 where
    pub cached : find h net'.rpc_cli_mgr ≡ some cl
    pub others : (j : HostId) → j ≢ h → find j net'.rpc_cli_mgr ≡ find j net.rpc_cli_mgr
    pub kept :
        (j : HostId) (c : Client)
        → find j net.rpc_cli_mgr ≡ some c
        → find j net'.rpc_cli_mgr ≡ some c
    pub sent_same : net'.sent ≡ net.sent
    pub controllers_same : net'.controllers ≡ net.controllers
    pub responses_same : net'.responses ≡ net.responses

  Connected-assign :
      (h : HostId) (net : Net env) (cl : Client)
      → find h net.rpc_cli_mgr ≡ none
      → Connected h net (record net { rpc_cli_mgr = assign h cl net.rpc_cli_mgr }) cl
  Connected-assign h net cl new = record {
    cached = ground (arith, find-assign h h cl net.rpc_cli_mgr);
    others = λ j ne. ground (arith, find-assign h j cl net.rpc_cli_mgr);
    kept = λ j c e. ground (arith, find-assign h j cl net.rpc_cli_mgr);
    sent_same = refl;
    controllers_same = refl;
    responses_same = refl;
  }

  -- The client that a miss creates, and whether its connection failed.
  abbrev attempt : Option Worker → SockAddress → ℕ → Bytes → Bool × Client
  attempt w a t n = connect (set_rpc_depth (set_timeout_ms (rpc_client w a n) t) 10000)

  get_or_create_lem :
      (h : HostId) (w : Option Worker) (a : SockAddress) (t : ℕ) (n : Bytes) (net net' : Net env)
      (found o : Option Client)
      → find h net.rpc_cli_mgr ≡ found
      → get_or_create env h w a t n true net found ≡ returned (o, net')
      → (cl : Client) × (o ≡ some cl) × Connected h net net' cl
  get_or_create_lem h w a t n net net' (some cl) o old e = (
    cl,
    ground arith,
    rw (← (the_net e)) (record {
      cached = old;
      others = λ j ne. refl;
      kept = λ j c k. k;
      sent_same = refl;
      controllers_same = refl;
      responses_same = refl;
    }),
  )
  get_or_create_lem h w a t n net net' none o new e = elim (Bool-cases (attempt w a t n).0) [
    | inl failed ↦ absurd (cc (rw failed at e))
    | inr fine ↦ (
      (attempt w a t n).1,
      ground (arith, rw fine at e),
      rw (← (the_net (rw fine at e))) (Connected-assign h net (attempt w a t n).1 new),
    )
  ]

  -- A call that may create a connection and returns, returns one; it is in the table from then on,
  -- the entries of other hosts and every entry that was there are as before, and nothing is sent.
  pub get_client_lem :
      (h : HostId) (w : Option Worker) (a : SockAddress) (t : ℕ) (n : Bytes) (net net' : Net env)
      (o : Option Client)
      → get_client env h w a t n true net ≡ returned (o, net')
      → (cl : Client) × (o ≡ some cl) × Connected h net net' cl
  unfolding get_client
  get_client_lem h w a t n net net' o e =
      get_or_create_lem h w a t n net net' (find h net.rpc_cli_mgr) o refl e

  -- Where connecting never fails, a call that may create a connection returns.
  pub get_client_total :
      ((c : Client) → (connect c).0 ≡ false)
      → (h : HostId) (w : Option Worker) (a : SockAddress) (t : ℕ) (n : Bytes) (net : Net env)
      → (o : Option Client) × (net' : Net env) × (get_client env h w a t n true net
          ≡ returned (o, net'))
  unfolding get_client
  get_client_total fine h w a t n net = elim (Option-cases (find h net.rpc_cli_mgr)) [
    | inl new ↦ (
      some (attempt w a t n).1,
      record net { rpc_cli_mgr = assign h (attempt w a t n).1 net.rpc_cli_mgr },
      rw (new, fine (set_rpc_depth (set_timeout_ms (rpc_client w a n) t) 10000)),
    )
    | inr (cl, old) ↦ (some cl, net, rw old)
  ]
