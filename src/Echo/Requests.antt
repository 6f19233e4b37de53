-- ===== src/Echo/Requests.antt =====
-- What the echo client asks for, and what the peers make of it.
use jkv.Base.{
  ℕ, ◌%◌, ◌^◌, ◌≤◌, ◌≡◌, ◌≢◌, ◌↔◌, ◌⊎◌, refl, ap, ◌∙◌, inl, inr, some, [], returned,
  fatal_if-passes, fatal_if-false, no_key, >>=-eq-returned, arith, Bool-cases, Bytes, bytes_eq,
  bytes_eq_iff, ltb, ◌||◌, is_empty, is_empty-false, ne-is_empty, Outcome,
}
use jkv.Proto.{KvReq, CmdType, Entry, entry_normal}
use jkv.Env.{Env}
use jkv.Storage.View.{Map, update, erase}
use jkv.Peer.Apply.Machine.{need, serve_req, serve_by_type}
use jkv.Peer.Apply.Account.{IsCommand}
use jkv.Echo.Launch.{port_fine, fine_port}
use jkv.Echo.ClientMain.{
  ClientFlags, check_client_flags, get_request, put_request, del_request, get_word, put_word,
  del_word, request_of, kv_client, client_main,
}

-- The flags that the client takes.
pub record IsValid (f : ClientFlags) : Type 0 where
  pub port_low : 1024 ≤ f.port
  pub port_high : f.port ≤ 65535
  pub op_given : f.op_type ≢ []
  pub key_given : f.key ≢ []

-- `CheckFlags` lets exactly the valid flags through.
check_client_flags_iff : (f : ClientFlags) → (check_client_flags f ≡ returned tt) ↔ IsValid f
unfolding check_client_flags
check_client_flags_iff f = (checked, passes)
  where
    checked : check_client_flags f ≡ returned tt → IsValid f
    checked h =
        let (port, h1) = fatal_if-passes (ltb f.port 1024 || ltb 65535 f.port) _ _ h in
        let (op, h2) = fatal_if-passes (is_empty f.op_type) _ _ h1 in
        record {
          port_low = (port_fine f.port port).0;
          port_high = (port_fine f.port port).1;
          op_given = is_empty-false f.op_type op;
          key_given = is_empty-false f.key (fatal_if-false (is_empty f.key) no_key h2);
        }

    passes : IsValid f → check_client_flags f ≡ returned tt
    passes v =
        rw
          (
            fine_port f.port v.port_low v.port_high,
            ne-is_empty f.op_type v.op_given,
            ne-is_empty f.key v.key_given,
          )
          refl

-- What a valid command line means for the map: a read needs its key, "put" stores the value under the
-- key, "del" takes the key out.
abbrev pub Means : ClientFlags → Map → Outcome Map → Type 0
Means f m o =
    ((f.op_type ≡ get_word) × (o ≡ need (m f.key) m))
    ⊎ (((f.op_type ≡ put_word) × (o ≡ returned (update m f.key f.val)))
        ⊎ ((f.op_type ≡ del_word) × (o ≡ returned (erase m f.key))))

-- The request that the dispatch builds means what the flags say.
request_of-Means :
    (f : ClientFlags) (req : KvReq)
    → request_of f ≡ returned req
    → ((m : Map) → Means f m (serve_req req req.cmd_type m)) × (req.cmd_type ≢ CmdType.invalid)
unfolding request_of get_request put_request del_request
request_of-Means f req h = elim (Bool-cases (bytes_eq f.op_type get_word)) [
  | inl e ↦
      let word = (bytes_eq_iff f.op_type get_word).0 e in
      rw (← request-eq (rw e at h)) ((λ m. inl (word, refl)), (λ z. cc))
  | inr e ↦ elim (Bool-cases (bytes_eq f.op_type put_word)) [
    | inl e1 ↦
        let word = (bytes_eq_iff f.op_type put_word).0 e1 in
        rw (← request-eq (rw (e, e1) at h)) ((λ m. inr (inl (word, refl))), (λ z. cc))
    | inr e1 ↦ elim (Bool-cases (bytes_eq f.op_type del_word)) [
      | inl e2 ↦
          let word = (bytes_eq_iff f.op_type del_word).0 e2 in
          rw (← request-eq (rw (e, e1, e2) at h)) ((λ m. inr (inr (word, refl))), (λ z. cc))
      | inr e2 ↦ absurd (cc (rw (e, e1, e2) at h))
    ]
  ]
]
  where
    request-eq : {r s : KvReq} → ◌≡◌ {A = Outcome KvReq} (returned r) (returned s) → r ≡ s
    request-eq e = ground arith

module _ (env : Env) where
  -- An entry of the log with a request that the client made and raft has committed.
  abbrev pub entry_of : ℕ → ℕ → Bytes → Entry
  entry_of term index s = record { type = entry_normal; term = term; index = index; payload = s }

  -- When the client has made its request, the command line was valid; and an entry with the request's
  -- bytes, wherever it stands in the log, is a client command that does to the map of each peer what the
  -- command line says.
  pub client_main_lem :
      (f : ClientFlags) (worker : env.jrpc.Worker) (client : env.jrpc.Client) (req : KvReq)
      (s : Bytes) (term index : ℕ)
      → client_main env f worker ≡ returned (client, req)
      → env.codec.serialize req ≡ some s
      → IsValid f
        × IsCommand env.codec (entry_of term index s)
        × ((m : Map) → Means f m (serve_by_type env entry_normal (entry_of term index s) m))
  unfolding client_main
  client_main_lem f worker client req s term index h ser =
      let (_, checked, h1) = >>=-eq-returned (check_client_flags f) _ h in
      let (cl, _, h2) = >>=-eq-returned (kv_client env f.ip (f.port % 2 ^ 16) worker) _ h1 in
      let (r, built, h3) = >>=-eq-returned (request_of f) _ h2 in
      let same : r ≡ req = ground arith in
      let meant = request_of-Means f req (built ∙ ap returned same) in
      let parsed = env.codec.parse-serialize req s ser in
      (
        (check_client_flags_iff f).0 checked,
        (refl, (req, parsed, meant.1)),
        (λ m. rw parsed (meant.0 m)),
      )
