-- ===== src/Repo.antt =====
-- internal/storage/sqlstore: the repositories over the tables.
pub mod Versioned
pub mod ModelVersions
pub mod Graph
pub mod Properties
pub mod Contracts
pub mod Objects
pub mod Registries
pub mod Pinning
pub mod Appending
pub mod Calls
pub mod Lawful
pub mod ReadBack
pub mod Contents
pub mod Concurrency
pub mod Listing
