-- ===== src/Examples.antt =====
-- Concrete values of the parameters, at which the theorems are applied, and runs of the code on them.
pub mod Kv
pub mod Protobuf
pub mod Solo
pub mod World
pub mod PeerRuns
pub mod ReplicaRuns
pub mod QueueRuns
pub mod NetRuns
pub mod MemberRuns
pub mod ServerRuns
pub mod HostRuns
pub mod ClusterRuns
pub mod FaultRuns
pub mod ClientRuns
