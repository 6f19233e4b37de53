-- ===== src/Echo/Launch.antt =====
-- What the echo server starts with, and what becomes of it.
use jkv.Base.{
  returned-injective, ℕ, ◌%◌, ◌^◌, ◌≤◌, ◌≡◌, ◌≢◌, ◌↔◌, refl, ap, ◌∙◌, false, List, [], ◌∷◌, ◌++◌,
  Bytes, returned, fatal, no_host_path, fatal_if-passes, fatal_if-false, >>=-eq-returned, arith,
  ltb, ◌==◌, ◌||◌, is_empty, is_empty-false, ne-is_empty, find, no_peer,
}
use jkv.Proto.{KvReq}
use jkv.Calls.{no_calls}
use jkv.Env.{Env}
use jkv.Peer.State.{Peer}
use jkv.Peer.Members.{init_group_members}
use jkv.Text.Decimal.{to_string}
use jkv.Storage.{disk_storage}
use jkv.Peer.Create.{slash_peer}
use jkv.Host.{peer_host, add_local_peer}
use jkv.Host.Invariant.{add_local_peer_inv}
use jkv.Peer.Create.Voters.{create_peer_inv}
use jkv.Server.{Server, run_kv_op}
use jkv.Server.Inputs.{Input, serve}
use jkv.Server.Identity.{no_peer-serve}
use jkv.Echo.ServerMain.{
  ServerFlags, check_server_flags, Launched, host_option, peer_option, server_main, or_null,
}

-- The flags that the server takes.
pub record IsValid (f : ServerFlags) : Type 0 where
  pub host_given : f.host_id ≢ 0
  pub peer_given : f.peer_id ≢ 0
  pub ip_given : f.ip ≢ []
  pub port_low : 1024 ≤ f.port
  pub port_high : f.port ≤ 65535
  pub members_given : f.members ≢ []
  pub level_given : f.log_level ≢ []
  pub path_given : f.host_path ≢ []

zero-eq : (n : ℕ) → (n == 0) ≡ false → n ≢ 0
zero-eq n h = ground arith

eq-zero : (n : ℕ) → n ≢ 0 → (n == 0) ≡ false
eq-zero n h = ground arith

pub port_fine : (n : ℕ) → (ltb n 1024 || ltb 65535 n) ≡ false → (1024 ≤ n) × (n ≤ 65535)
port_fine n h = (ground arith, ground arith)

pub fine_port : (n : ℕ) → 1024 ≤ n → n ≤ 65535 → (ltb n 1024 || ltb 65535 n) ≡ false
fine_port n a b = ground arith

-- `CheckFlags` lets exactly the valid flags through.
pub check_server_flags_iff : (f : ServerFlags) → (check_server_flags f ≡ returned tt) ↔ IsValid f
unfolding check_server_flags
check_server_flags_iff f = (checked, passes)
  where
    checked : check_server_flags f ≡ returned tt → IsValid f
    checked h =
        let (host, h1) = fatal_if-passes (f.host_id == 0) _ _ h in
        let (peer, h2) = fatal_if-passes (f.peer_id == 0) _ _ h1 in
        let (ip, h3) = fatal_if-passes (is_empty f.ip) _ _ h2 in
        let (port, h4) = fatal_if-passes (ltb f.port 1024 || ltb 65535 f.port) _ _ h3 in
        let (members, h5) = fatal_if-passes (is_empty f.members) _ _ h4 in
        let (level, h6) = fatal_if-passes (is_empty f.log_level) _ _ h5 in
        record {
          host_given = zero-eq f.host_id host;
          peer_given = zero-eq f.peer_id peer;
          ip_given = is_empty-false f.ip ip;
          port_low = (port_fine f.port port).0;
          port_high = (port_fine f.port port).1;
          members_given = is_empty-false f.members members;
          level_given = is_empty-false f.log_level level;
          path_given =
              is_empty-false f.host_path (fatal_if-false (is_empty f.host_path) no_host_path h6);
        }

    passes : IsValid f → check_server_flags f ≡ returned tt
    passes v =
        rw
          (
            eq-zero f.host_id v.host_given,
            eq-zero f.peer_id v.peer_given,
            ne-is_empty f.ip v.ip_given,
            fine_port f.port v.port_low v.port_high,
            ne-is_empty f.members v.members_given,
            ne-is_empty f.log_level v.level_given,
            ne-is_empty f.host_path v.path_given,
          )
          refl

-- Where the database of a host's peer is.
abbrev pub peer_path : Bytes → ℕ → ℕ → Bytes
peer_path root host_id peer_id =
    (root ++ b'_' ∷ to_string host_id) ++ slash_peer ++ to_string peer_id

module _ (env : Env) where
  open env use {raft, jrpc, leveldb}

  -- A server as these flags describe it, before its first input.
  abbrev pub LaunchedFrom :
      ServerFlags → jrpc.Worker → raft.Storage → leveldb.Files → Launched env → Type 0
  LaunchedFrom f worker storage fs l =
      IsValid f
      × (l.server.host.option ≡ host_option env f worker storage)
      × (l.timers ≡ f.peer_id ∷ [])
      × ((p : Peer env) × (l.server.host.local_peers ≡ (f.peer_id, p) ∷ [])
          × (p.self ≡ record { host_id = f.host_id; peer_id = f.peer_id; ip = f.ip; port = f.port })
          × (p.proposals ≡ [])
          × (init_group_members env.split f.members [] ≡ returned p.peers)
          × (disk_storage leveldb fs (peer_path f.host_path f.host_id f.peer_id)
              ≡ returned (p.kv_db, l.files)))
      × (l.server.calls ≡ no_calls)
      × (l.server.tasks ≡ [])
      × (l.server.host.net.sent ≡ [])
      × (l.server.host.net.rpc_cli_mgr ≡ [])

  -- When the echo server's start-up returns, the flags were valid; the host is the one that the flags
  -- name; its only local peer is the one that they name, with nothing in its queue, with the members
  -- that are read from the flags' text and with the database at the flags' path opened, and its timer is
  -- the one that runs; no call has been taken, no
  -- message sent and no connection made.
  pub server_main_lem :
      (f : ServerFlags) (worker : jrpc.Worker) (storage : raft.Storage) (fs : leveldb.Files)
      (l : Launched env)
      → server_main env f worker storage fs ≡ returned l
      → LaunchedFrom f worker storage fs l
  unfolding server_main
  server_main_lem f worker storage fs l h =
      let (_, checked, h1) = >>=-eq-returned (check_server_flags f) _ h in
      let valid = (check_server_flags_iff f).0 checked in
      let opt = host_option env f worker storage in
      let popt = peer_option env f opt in
      let (x, added, h2) = >>=-eq-returned (add_local_peer env popt (peer_host env opt) fs) _ h1 in
      let a = add_local_peer_inv env popt (peer_host env opt) x.0 fs x.1 added in
      let c = create_peer_inv env popt opt.db_path fs x.1 a.peer a.made in
      let port : f.port % 2 ^ 16 ≡ f.port = omega (arith, valid.port_low, valid.port_high) in
      let (y, found, h3) = >>=-eq-returned (or_null (find f.peer_id x.0.local_peers)) _ h2 in
      let at = returned-injective h3 in
      rw (← at, a.at)
        (
          valid,
          refl,
          refl,
          (
            a.peer,
            refl,
            ap (λ (q : Peer env). q.self) c.at ∙ rw port refl,
            ap (λ (q : Peer env). q.proposals) c.at,
            c.members_read,
            c.opened,
          ),
          refl,
          refl,
          refl,
          refl,
        )

  -- The echo server started with a peer id other than 1 aborts at the first request whose task runs,
  -- whatever calls came in and whatever tasks ran and timers fired before.
  pub other_peer_id :
      (f : ServerFlags) (worker : jrpc.Worker) (storage : raft.Storage) (fs : leveldb.Files)
      (l : Launched env) (req : KvReq) (resp done : ℕ) (es : List Input) (s : Server env)
      → server_main env f worker storage fs ≡ returned l
      → f.peer_id ≢ 1
      → serve env es l.server ≡ returned s
      → run_kv_op env req resp done s ≡ fatal no_peer
  other_peer_id f worker storage fs l req resp done es s launched ne h =
      let started = server_main_lem f worker storage fs l launched in
      let (p, only, _, _, _, _) = started.3 in
      let other : (f.peer_id == 1) ≡ false = ground arith in
      no_peer-serve env req resp done es l.server s (rw (only, other) refl) h
