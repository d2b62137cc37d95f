-- ===== src/Lib.antt =====
-- Orlando is a virtual-actor framework: a grain is addressed by its type and key, activated on demand
-- on one silo of a cluster, handles one message at a time unless it is reentrant, and may keep its
-- state in a store. This
-- library models the parts of it that decide what is kept, what runs and where, and proves what
-- makes them correct. Paths are from the repository's root.
--
-- Core (crates/orlando-core). `Core.Ids` is grain_id.rs: `GrainId` and its text `type/key`. A text is
-- the list of its bytes. `Core.Lifecycle` is activation_state.rs: `next` is `ActivationState::next`,
-- clause for clause. `Core.Mailbox` is mailbox.rs: `run_mailbox` is the whole task; what wakes the
-- loop (a message, a closed channel, an idle timeout) is a list, the grain's hooks and handlers are a
-- record of functions that say whether they panicked, and the log keeps what the task did, in order.
-- `Core.CallChain` is request_context.rs, and `Core.GrainRef` is grain_ref.rs with filter.rs: a call
-- through a reference, the channel and the wait for the reply being functions of the world.
-- `Core.Reentrant` is reentrant_mailbox.rs: its handlers run side by side, so the task is driven by a
-- schedule, a list of what the runtime picks next (a wake-up, or a step of one running handler), and
-- what a handler does in one step is an argument. `Core.Observers` is observer.rs with stream.rs.
--
-- Runtime (crates/orlando-runtime). `Runtime.Directory` is directory.rs: `get_or_insert`,
-- `get_or_insert_pool`, `register`, `remove`, `drain` and the reads on an explicit state. Channels are
-- numbers, and which of them are closed is an argument. The waits of a drain are left out.
--
-- Persistence (crates/orlando-persistence). `Persistence.Store` is store.rs, the trait `StateStore` as
-- a record of operations on a state, and memory_store.rs, its in-memory implementation.
-- `Persistence.Mailbox` is persistent_mailbox.rs over any such store: load with retries, the
-- sequential loop with its three strategies, the final save. `Persistence.Journal` is
-- memory_journal_store.rs and the load of journaled_mailbox.rs; `Persistence.Journaled` is the part of
-- `JournaledGrainRef::ask` (persistent_silo.rs) that runs in the mailbox. What bincode or serde make
-- of a value is an argument; that it can be read back is a named hypothesis, `IsLossless`. That a
-- store keeps what it was given is another, `IsReliable`; `IsApartFrom` says that a write leaves other
-- grains alone. `Persistence.Mailbox.Reentrant` is the
-- reentrant loop of persistent_mailbox.rs, on such a schedule; a write to the store and the send after
-- it are one step. `Persistence.FileStore` is file_store.rs over a file system that is an argument.
-- `Persistence.Versioned` is the versioned task of persistent_mailbox.rs with its
-- migrations, `Persistence.Silo` the stores by name of persistent_silo.rs, `Persistence.Transaction`
-- transaction.rs with `TransactionalGrainRef::ask` (persistent_silo.rs) and multi_transaction.rs, and
-- `Persistence.Facet` facet.rs. `Persistence.Sink` is replication_sink.rs with replication_producer.rs.
--
-- Timers (crates/orlando-timers). `Timers.Reminders` is reminder_store.rs and the rounds of
-- reminder_service.rs; the times of the polls are arguments.
--
-- Cluster (crates/orlando-cluster). `Cluster.Ring` is hash_ring.rs, with FNV-1a written out.
-- `Cluster.Swim` is swim.rs: the member table, gossip and suspicion of one silo; the clock and what
-- the probes gave are arguments, and the ring, the dropped connections and the broadcast changes are
-- state. `Cluster.Ownership` is cross_cluster_directory.rs and `Cluster.Failover` is failover.rs over
-- any such directory. `Persistence.Replication` is replication_log.rs, the in-memory log that a primary
-- cluster writes, and `Cluster.Replica` is store_wrapper.rs and replication_consumer.rs, which follow
-- it on a secondary one. `Cluster.Swim.Wire` is the gossip of swim.rs as gRPC messages,
-- `Cluster.Membership` is membership.rs, one function per call of the service, and
-- `Cluster.MembershipTable` is membership_table.rs. `Cluster.Auth` is auth.rs, `Cluster.Registry` is
-- message_registry.rs, and `Cluster.Transport` is transport.rs with cluster_gateway.rs, of which
-- `Cluster.Transport.Network` follows one call over many silos
-- and to the gateway of another cluster. `Cluster.Remote` is retry.rs and
-- cluster_grain_ref.rs, the caller's side of such a call. `Cluster.Placement` is
-- placement.rs with `get_ref` of cluster_silo.rs, `Cluster.Rebalancer` is rebalancer.rs, and
-- `Cluster.Connections` is connection_pool.rs. `Cluster.Joining` is `join_cluster` and
-- `discover_and_join` of cluster_silo.rs with the fixed seeds of discovery.rs, and `Cluster.Client` is
-- crates/orlando-client: both ask other silos for their members, and what those answer is an argument.
--
-- The parts meet as they do in the source: both mailboxes are driven by `Core.Lifecycle.next`; the
-- persistent one takes a `StateStore`, a journaled grain a `JournalStore`, the failover manager a
-- `CrossClusterDirectory`; gossip moves silos on the `HashRing` that places grains; the membership
-- service and the direct ping hand the gossip that they carry to `Cluster.Swim`; the transport reads
-- the ring, the registry and the directory of the clusters; the sink's entries go through the log to
-- the replicas.
--
-- Fuel is needed for one function, `Cluster.Transport.Network.invoke`, where it counts the silos that a
-- call may pass through: a silo refuses to forward a call that has made three hops, so four are
-- enough. Other loops are recursion on the list that they run over: a mailbox task whose
-- wake-ups are used up still waits, which is `none`; the rounds of a consumer are
-- counted. Hash maps are association lists (`Base.Map`).
-- 64-bit counters wrap as in a release build.
--
-- Not modelled: the worker dispatch, timers, the builders and the servers, which hand work to the async
-- runtime; extensions and metrics; the stores over a database, the membership table in SQLite among
-- them, the TCP transport, the health server and discovery by DNS or Consul, which are I/O and
-- third-party calls; the macros, which generate code.
pub mod Base
pub mod Core
pub mod Runtime
pub mod Persistence
pub mod Timers
pub mod Cluster
pub mod Tests
