-- ===== src/Lib.antt =====
-- A model of jkv, a replicated key-value server on top of the Raft library jraft, and the theorems
-- about it. A process hosts peers; each peer is the replica of one group on this host. A client's
-- request goes through the service to a peer, which proposes it to Raft if it leads and keeps a
-- proposal with the client's closure in a queue. When Raft hands the entry over as committed, every
-- peer applies it to its LevelDB database, and the leader answers the client. Peers exchange Raft's
-- messages through jrpc. All of this runs on one worker's event loop: a call is handed to the loop,
-- and a timer ticks each peer.
--
-- The files and the code:
-- - Base: Booleans, lists, byte strings, `std::unordered_map` as an association list in order of
--   insertion (Base/Tables), and the outcome of code that may abort (Base/Aborts). `JLOG_FATAL` ends
--   the process, so a fatal outcome has no state, and so does an exception of `create_directories`, which
--   nothing catches; undefined behaviour that the code can reach (`end()` or a null pointer dereferenced,
--   `atoi` out of range, an object freed twice) is a fault of its own.
-- - Text: `boost::split` by its laws, `atoi` with the conversions of its result, `std::to_string`. The
--   printer has fuel for 20 digits, which every number below 10^20, so every `uint64_t`, has at most.
-- - Proto: the messages of pb/*.proto; the serializer is a parameter (Proto/Codec).
-- - Config: src/common/config.h. Env: jraft, jrpc, LevelDB and protobuf as parameters, one field for
--   each function that the code calls, with no law but the codec's.
-- - Storage: `DiskStorage` of src/storage/disk_storage.cc, and the finite map that a database stands
--   for (Storage/View).
-- - Calls: the response objects behind the `KvResp*` pointers, and the closures that have been run,
--   each with what its response held then, newest first.
-- - Clients: `PeerHost::GetClient` of src/peer/peer_host.cc, the messages handed to jrpc, and the
--   controllers and the responses of these calls that have not been freed.
-- - Peer: `Peer` of src/peer/peer.cc. Peer/Proposals is `GetProposal` and `CallbackAll` over the deque,
--   Peer/Members `InitGroupMembers`, Peer/Create the constructor, Peer/Apply `ProcessEntries` and all
--   below it, Peer/Send `SendMsgs` and `HandleSendMsg2Peer`, Peer/Ready `HandleRaftReady`, `Tick` and
--   `Step`, Peer/Propose `ProposeKvOp`. Peer/History has every sequence of calls of one peer;
--   Peer/History/Recovery a peer on the database of a process that stopped, and Peer/History/Told what
--   the clients are told.
-- - Host: `PeerHost` of src/peer/peer_host.cc. Server: the services of src/service/*.cc, the tasks of
--   the loop and the timers; its inputs (Server/Inputs) are calls, tasks at any place of the loop's
--   list, timers of any peer and answers to the server's own calls, in any order, so that no schedule
--   is assumed. Server/Moves says what an input does to which peer, and Server/Lift makes of an
--   invariant of one peer one of the server.
-- - Cluster: the servers of a group, each on a host with its own disk and `host_path` (as the scripts
--   host1.sh, host2.sh and host3.sh start them), with the network between them, as a step relation: a server process starts on its host's disk, where none runs; it is asked to quit and
--   its destructors run, or it ends without them, at any point of a round of its peer (`CutShort` of
--   Server/Ends) or between inputs; an input comes to it, or a message that a process has sent, running or
--   ended, comes to the server at the other end of its connection, any number of times or never. Which
--   host a connection leads to is a parameter (`IsNetwork` of Cluster/Wiring). Cluster/Delivery is
--   about the messages, Cluster/Log about what raft delivers to a process, where an entry counts once the
--   peer has applied it, and one of a round that is cut short before it does not, Cluster/Runs projects a
--   cluster's steps to the inputs of one server, Cluster/Disk and Cluster/Durable follow a host's
--   map over all its processes, Cluster/Restart ends a process and starts it again,
--   Cluster/Recovery compares hosts that have come back, Cluster/Progress is about a server that
--   goes on after that, and Cluster/Promise about the clients. What a log that is served again
--   makes of a map is in Peer/Apply/Replay and Peer/Apply/Lives, and what it tells a client in
--   Peer/History/Again.
-- - Echo: example/echo/server/main.cc and example/echo/client/main.cc with their flags; Echo/Answers is
--   about what a client ends with by what a peer does.
-- - Examples: concrete parameters (an association list as a database, a codec, a Raft node of one
--   voter that commits what it takes, connections that never fail) and runs of the code on them.
--
-- Raft's guarantees are hypotheses where a theorem needs them: `LeaderAppendOnly` of
-- Peer/Propose/Queue says that a leader only appends to its log, and that an accepted proposal makes
-- the entry behind the log's end; `LogMatching` of Peer/Propose/Backed that what a leader has put at
-- an index in its term is what is committed there. Both hold for the messages of correct servers only:
-- which these are is a predicate of theirs, `Sound`, and a theorem that uses one of them asks for it at
-- each message that raft is stepped with. LevelDB's are `LeveldbLaws` (a key reads back as it was put or
-- deleted) and `IsReliable` (no status is an error), both of which a database that does not fail has, and
-- `IsDurable`: what a database holds is found again at its path by the next process, also when the last
-- one ended without closing it. LevelDB promises this of a process that crashes; of a machine that does,
-- only for synchronous writes, which the code does not ask for, so no step is a crash of the machine.
--
-- A loop over a list is recursion on it, so no other fuel is needed. The order in which a `for` loop
-- goes through an `unordered_map` is a parameter. Indices are `uint64_t` and wrap; ports wrap at 2^16.
--
-- Not modelled: logging; the command line parser; threads, since the code touches a peer only from its
-- worker's loop; the memory that destructors free, and what a worker's thread may still do while the
-- host is destroyed; a start that aborts after it has made directories; an exception of
-- `boost::filesystem::exists`; and the tests under test/, which are about modules that the repository no
-- longer has. src/common/util.{h,cc} are empty.
pub mod Base
pub mod Text
pub mod Proto
pub mod Storage
pub mod Config
pub mod Env
pub mod Calls
pub mod Clients
pub mod Peer
pub mod Host
pub mod Server
pub mod Cluster
pub mod Echo
pub mod Examples
