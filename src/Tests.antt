-- ===== src/Tests.antt =====
-- Concrete runs of the model: the properties at inputs where their hypotheses hold.
pub mod Mailboxes
pub mod Journals
pub mod Stores
pub mod Directories
pub mod Clusters
pub mod Replicas
pub mod Memberships
pub mod Grains
pub mod Reminders
pub mod Calls
pub mod Remotes
pub mod Reentrants
pub mod Clients
pub mod Files
