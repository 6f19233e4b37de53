-- ===== src/Echo/ClientMain.antt =====
-- example/echo/client/main.cc and client_flags.cc. gflags, the log and the worker's thread are not
-- modelled; the request that the stub is given is what the model returns, and the callback has what
-- the controller and the response hold then.
use jkv.Base.{
  ℕ, ◌%◌, ◌^◌, Bool, some, [], ◌∷◌, ◌||◌, Outcome, returned, fatal, fatal_if, bad_port, no_op_type,
  no_key, invalid_type, rpc_failed, rpc_rejected, connect_failed, ◌>>=◌, ◌>>◌, Bytes, bytes_eq, ltb,
  is_empty, if◌then◌else◌,
}
use jkv.Proto.{KvReq, KvResp, CmdType, empty_req}
use jkv.Env.{Env}

pub record ClientFlags : Type 0 where
  pub ip : Bytes
  pub port : ℕ
  pub op_type : Bytes
  pub key : Bytes
  pub val : Bytes
  pub log_level : Bytes

-- The flags where the command line gives none: "127.0.0.1" and "debug".
abbrev pub default_client_flags : ClientFlags
default_client_flags = record {
  ip = b'1' ∷ b'2' ∷ b'7' ∷ b'.' ∷ b'0' ∷ b'.' ∷ b'0' ∷ b'.' ∷ b'1' ∷ [];
  port = 0;
  op_type = [];
  key = [];
  val = [];
  log_level = b'd' ∷ b'e' ∷ b'b' ∷ b'u' ∷ b'g' ∷ [];
}

-- `CheckFlags`
unfoldable pub check_client_flags : ClientFlags → Outcome (Unit {0})
check_client_flags f = do
  fatal_if (ltb f.port 1024 || ltb 65535 f.port) bad_port
  fatal_if (is_empty f.op_type) no_op_type
  fatal_if (is_empty f.key) no_key

-- The requests that `KvClient::Get`, `Put` and `Del` build.
unfoldable pub get_request : Bytes → KvReq
get_request key = record empty_req { cmd_type = CmdType.get; get_req = record { key = key } }

unfoldable pub put_request : Bytes → Bytes → KvReq
put_request key val = record empty_req {
  cmd_type = CmdType.put;
  put_req = record { key = key; value = val };
}

unfoldable pub del_request : Bytes → KvReq
del_request key = record empty_req { cmd_type = CmdType.del; del_req = record { key = key } }

abbrev pub get_word : Bytes
get_word = b'g' ∷ b'e' ∷ b't' ∷ []

abbrev pub put_word : Bytes
put_word = b'p' ∷ b'u' ∷ b't' ∷ []

abbrev pub del_word : Bytes
del_word = b'd' ∷ b'e' ∷ b'l' ∷ []

-- The dispatch of `main` on the type of the operation.
unfoldable pub request_of : ClientFlags → Outcome KvReq
request_of f =
    if bytes_eq f.op_type get_word
    then returned (get_request f.key)
    else (if bytes_eq f.op_type put_word
        then returned (put_request f.key f.val)
        else (if bytes_eq f.op_type del_word
            then returned (del_request f.key)
            else fatal invalid_type))

-- `KvClient::GetCb`, `PutCb` and `DelCb`, which are alike but for the log: `failed` is
-- `cntl->Failed()`. What returns ends the process with `exit(0)`.
unfoldable pub kv_cb : Bool → KvResp → Outcome (Unit {0})
kv_cb failed resp = do fatal_if failed rpc_failed; fatal_if resp.rejected rpc_rejected

module _ (env : Env) where
  open env.jrpc use {
    Client, Worker, sock_address, rpc_client, set_timeout_ms, set_rpc_depth, connect,
  }

  -- `KvClient::KvClient`
  unfoldable pub kv_client : Bytes → ℕ → Worker → Outcome Client
  kv_client ip port worker =
      let client = rpc_client (some worker) (sock_address ip port) [] in
      let (failed, client') = connect (set_rpc_depth (set_timeout_ms client 300) 10000) in
      do fatal_if failed connect_failed; returned client'

  -- `main` and what it runs in the worker's loop: the request and the connection that it goes out on.
  -- The port is a `uint16_t` there.
  unfoldable pub client_main : ClientFlags → Worker → Outcome (Client × KvReq)
  client_main f worker = do
    check_client_flags f
    client ← kv_client f.ip (f.port % 2 ^ 16) worker
    req ← request_of f
    returned (client, req)
