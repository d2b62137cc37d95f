-- ===== src/Cluster.antt =====
-- crates/orlando-cluster: the hash ring, gossip membership and its service, the versioned membership
-- table, authentication, the registry and the routing of calls, ownership, failover and replicas,
-- placement and rebalancing, how a silo joins; with crates/orlando-client, the client's view of it.
pub mod Ring
pub mod Swim
pub mod MembershipTable
pub mod Auth
pub mod Connections
pub mod Client
pub mod Joining
pub mod Membership
pub mod Registry
pub mod Transport
pub mod Remote
pub mod Placement
pub mod Rebalancer
pub mod Ownership
pub mod Failover
pub mod Replica
