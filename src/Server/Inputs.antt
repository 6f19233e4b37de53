-- ===== src/Server/Inputs.antt =====
-- Every sequence of what happens to a server.
use jkv.Base.{
  ℕ, List, [], ◌∷◌, ◌++◌, Option, none, some, All, Outcome, returned, fatal, ◌>>=◌, find, ◌==◌,
  if◌then◌else◌,
}
use jkv.Proto.{KvReq, RaftMsgReq, Entry}
use jkv.Env.{Env}
use jkv.Peer.State.{Peer}
use jkv.Peer.History.{ticks, delivered_at}
use jkv.Peer.Apply.Account.{IsCommand}
use jkv.Server.{Server, kv_op, handle_raft_msg, fire, run_at, answer_call}

-- What happens to a server: a call comes in, a task runs, a timer fires, or a call that the
-- server has made is answered.
pub data Input : Type 0 where
  kv_call : KvReq → ℕ → ℕ → Input
  raft_call : RaftMsgReq → ℕ → Input
  task_runs : ℕ → Input
  timer_fires : ℕ → Input
  call_answered : ℕ → Input

abbrev pub brought_by : Input → List ℕ
brought_by (kv_call req resp done) = done ∷ []
brought_by (raft_call req done) = done ∷ []
brought_by (task_runs n) = []
brought_by (timer_fires i) = []
brought_by (call_answered n) = []

abbrev pub brought : List Input → List ℕ
brought [] = []
brought (e ∷ es) = brought_by e ++ brought es

module _ (env : Env) where
  abbrev pub receive : Input → Server env → Outcome (Server env)
  receive (kv_call req resp done) s = returned (kv_op env req resp done s)
  receive (raft_call req done) s = handle_raft_msg env req done s
  receive (task_runs n) s = run_at env n s
  receive (timer_fires i) s = fire env i s
  receive (call_answered n) s = answer_call env n s

  unfoldable pub serve : List Input → Server env → Outcome (Server env)
  serve [] s = returned s
  serve (e ∷ es) s = do s' ← receive e s; serve es s'

  abbrev pub delivered_to_peer : Server env → Option (Peer env) → List Entry
  delivered_to_peer s none = []
  delivered_to_peer s (some p) =
      delivered_at env ticks (record { peer = p; net = s.host.net; calls = s.calls })

  -- Only client commands are delivered, to any peer.
  abbrev pub CommandsAt : Input → Server env → Type 0
  CommandsAt (kv_call req resp done) s = Unit {0}
  CommandsAt (raft_call req done) s = Unit {0}
  CommandsAt (task_runs n) s = Unit {0}
  CommandsAt (timer_fires i) s =
      All (IsCommand env.codec) (delivered_to_peer s (find i s.host.local_peers))
  CommandsAt (call_answered n) s = Unit {0}

  abbrev pub AllCommands : List Input → Server env → Type 0
  AllCommands [] s = Unit {0}
  AllCommands (e ∷ es) s =
      CommandsAt e s × (elim (receive e s) [ returned s' ↦ AllCommands es s' | fatal f ↦ Unit {0} ])

module _ (env : Env) (j : ℕ) where
  -- The entries that raft hands over to the local peer `j` as committed, at an input and at all.
  abbrev pub delivered_by : Input → Server env → List Entry
  delivered_by (kv_call req resp done) s = []
  delivered_by (raft_call req done) s = []
  delivered_by (task_runs n) s = []
  delivered_by (timer_fires i) s =
      if i == j then delivered_to_peer env s (find j s.host.local_peers) else []
  delivered_by (call_answered n) s = []

  unfoldable pub delivered_in : List Input → Server env → List Entry
  delivered_in [] s = []
  delivered_in (e ∷ es) s =
      delivered_by e s
      ++ (elim (receive env e s) [ returned s' ↦ delivered_in es s' | fatal f ↦ [] ])
