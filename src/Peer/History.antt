-- ===== src/Peer/History.antt =====
-- Histories of one peer: every sequence of the calls that the worker's loop makes of `Peer::Tick`,
-- `Step` and `ProposeKvOp`.
pub mod Steps
pub mod Replica
pub mod Agreement
pub mod Recovery
pub mod Honest
pub mod Again
pub mod Told
pub mod Account
pub mod InOrder
use jkv.Base.{ℕ, List, [], ◌∷◌, ◌++◌, Outcome, returned, fatal, ◌>>=◌, if◌then◌else◌}
use jkv.Proto.{KvReq, Message, Entry}
use jkv.Calls.{Calls}
use jkv.Env.{Env}
use jkv.Clients.{Net}
use jkv.Peer.State.{Peer}
use jkv.Peer.Ready.{tick, step}
use jkv.Peer.Ready.Frame.{ready_of}
use jkv.Peer.Propose.{propose_kv_op}

-- A peer with what it shares with its host: the connections, and the clients' calls.
pub record Member (env : Env) : Type 0 where
  pub peer : Peer env
  pub net : Net env
  pub calls : Calls

pub data Event : Type 0 where
  ticks : Event
  steps : Message → Event
  -- a request, with the pointers to its response and its closure
  proposes : KvReq → ℕ → ℕ → Event

-- The closures that the requests of a history bring.
abbrev pub brought_by : Event → List ℕ
brought_by ticks = []
brought_by (steps msg) = []
brought_by (proposes req resp done) = done ∷ []

abbrev pub brought : List Event → List ℕ
brought [] = []
brought (e ∷ es) = brought_by e ++ brought es

module _ (env : Env) where
  abbrev pub happen : Event → Member env → Outcome (Member env)
  happen ticks m = do
    (p, net, c) ← tick env m.peer m.net m.calls
    returned (record { peer = p; net = net; calls = c })
  happen (steps msg) m = returned (record m { peer = (step env m.peer msg).1 })
  happen (proposes req resp done) m = do
    p ← propose_kv_op env req resp done m.peer
    returned (record m { peer = p })

  unfoldable pub run : List Event → Member env → Outcome (Member env)
  run [] m = returned m
  run (e ∷ es) m = do m' ← happen e m; run es m'

  -- The entries that raft hands over as committed at an event.
  abbrev pub delivered_at : Event → Member env → List Entry
  delivered_at ticks m =
      let p = record (m.peer) { raw_node = env.raft.tick m.peer.raw_node } in
      if env.raft.has_ready p.raw_node then env.raft.committed_entries (ready_of env p) else []
  delivered_at (steps msg) m = []
  delivered_at (proposes req resp done) m = []

  -- Those of a whole history, in order.
  unfoldable pub delivered : List Event → Member env → List Entry
  delivered [] m = []
  delivered (e ∷ es) m =
      delivered_at e m ++ (elim (happen e m) [ returned m' ↦ delivered es m' | fatal f ↦ [] ])
