-- ===== src/Network.antt =====
-- services/root-node and services/discovery-node together, over the JSON of the bulletin.
pub mod Events
pub mod Publication
pub mod Indexing
pub mod Domains
