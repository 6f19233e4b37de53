-- ===== src/Calls.antt =====
-- The client calls that the server holds: the `KvResp` objects that pointers reach, and the closures
-- that have been run (`google::protobuf::Closure`, made by jrpc for each call).
-- A pointer to a response and a closure are numbers. To run a closure is to send its response: the log
-- `replies` holds, newest first, each closure run with what the response beside it held just then.
-- The code is that of peer/peer.cc and service/*.cc that goes through `resp` and `done`, and
-- `ClosureGuard` of jrpc, whose destructor runs the closure that it was given.
use jkv.Base.{ℕ, true, some, List, [], ◌∷◌, map, ◌==◌, if◌then◌else◌, Bytes}
use jkv.Proto.{KvResp, empty_resp}

pub record Calls : Type 0 where
  pub resp : ℕ → KvResp
  pub replies : List (ℕ × KvResp)

-- No call yet; every response object is as `new KvResp` makes it.
abbrev pub no_calls : Calls
no_calls = record { resp = λ _. empty_resp; replies = [] }

abbrev pub write : ℕ → KvResp → Calls → Calls
write r v c = record c { resp = λ q. if q == r then v else c.resp q }

-- `resp->set_rejected(true)`
abbrev pub set_rejected : ℕ → Calls → Calls
set_rejected r c = write r (record (c.resp r) { rejected = true }) c

-- `resp->mutable_get_resp()->set_value(val)`
abbrev pub set_value : ℕ → Bytes → Calls → Calls
set_value r val c = write r (record (c.resp r) { get_resp = some (record { value = val }) }) c

-- `done->Run()`, for the closure `done` made with the response `r`
abbrev pub run : ℕ → ℕ → Calls → Calls
run done r c = record c { replies = (done, c.resp r) ∷ c.replies }

abbrev closure_of : ℕ × KvResp → ℕ
closure_of x = x.0

-- The closures that have been run.
abbrev pub answered : Calls → List ℕ
answered c = map closure_of c.replies
