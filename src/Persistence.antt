-- ===== src/Persistence.antt =====
-- crates/orlando-persistence: state stores (in memory and in files), journals, the replication log and
-- its sink, the mailboxes of persistent grains, transactions and facets.
pub mod Store
pub mod FileStore
pub mod Journal
pub mod Journaled
pub mod Mailbox
pub mod Versioned
pub mod Silo
pub mod Transaction
pub mod Facet
pub mod Replication
pub mod Sink
