-- ===== src/Server/Order.antt =====
-- The order of the queues of all local peers while the server serves.
use jkv.Base.{◌≡◌, List, returned, Table, AllIn}
use jkv.Env.{Env}
use jkv.Peer.State.{Peer}
use jkv.Peer.Propose.Queue.{LeaderAppendOnly, IsInOrder}
use jkv.Peer.History.InOrder.{AcceptsAt, happen-IsInOrder}
use jkv.Server.{Server}
use jkv.Server.Inputs.{Input, serve}
use jkv.Server.Lift.{AtInputs, serve-AllIn}

module _ (env : Env) (law : LeaderAppendOnly env.raft) where
  -- Raft accepts every request whose task runs, if the peer that it goes to leads, the log of that peer
  -- has an index left, and the messages that raft is stepped with are sound.
  abbrev pub AcceptsInputs : List Input → Server env → Type 0
  AcceptsInputs = AtInputs env (AcceptsAt env law)

  -- The queue of each local peer is in order.
  abbrev pub AllInOrder : Table (Peer env) → Type 0
  AllInOrder = AllIn (IsInOrder env law)

  -- Where raft keeps to its leader append-only property, the messages that it is stepped with are those
  -- of correct servers, it accepts each request whose task runs on a leader, and the log of the peer
  -- that the request goes to has room for one more `uint64_t` index: if the queues of all local peers
  -- are in order at the start, then whatever calls come in and in whatever order tasks run and timers
  -- fire, if the server does not abort, the queue of each local peer is in order afterwards, that is,
  -- it ascends strictly by term and index, and each proposal in it has a place of its node's own in the
  -- log.
  pub serve-AllInOrder :
      (es : List Input) (s s' : Server env)
      → AcceptsInputs es s
      → serve env es s ≡ returned s'
      → AllInOrder s.host.local_peers
      → AllInOrder s'.host.local_peers
  serve-AllInOrder =
      serve-AllIn env (AcceptsAt env law) (IsInOrder env law) (happen-IsInOrder env law)
