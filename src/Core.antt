-- ===== src/Core.antt =====
-- crates/orlando-core: the lifecycle of one activation, its mailbox, the call chain, references,
-- reentrant mailboxes, observers and streams.
pub mod Lifecycle
pub mod Mailbox
pub mod Ids
pub mod CallChain
pub mod GrainRef
pub mod Reentrant
pub mod Observers
