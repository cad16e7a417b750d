-- ===== src/Lib.antt =====
-- OpenAgenet: a network of agents with identifiers of the method `did:ans`. Registrars vouch for
-- agents, a root node checks what they hand in and writes it to a signed bulletin, a content
-- service hands the verified packages out, and discovery nodes answer queries. This library models
-- the Rust crates and services and proves what their parts promise.
--
-- The parts and their files (paths from the root of the repository):
--   crates/oan-crypto      Crypto: keys, signatures, hashes, canonical JSON
--   crates/oan-core        Core: documents (`validate_mvp`) and capability tags (Core/Tags)
--   crates/oan-did-ans     Did: `parse`, `from_public_key`, `key_id`
--   crates/oan-bulletin    Bulletin: events, `sign_core` and `verify_hash_chain`
--   crates/oan-credentials Credentials: signing and checking, and their JSON
--   crates/oan-package     Package; crates/oan-protocol: Protocol
--   crates/oan-storage     Storage: file names, the JSON store, the SQLite table, the wallet
--   services/root-node     Root: Root/Requests checks a request, Root/Publish publishes it,
--                          Root/Authorize authorizes and revokes nodes, Root/Batches hands the
--                          queues on, Root/Events appends to the bulletin, Root/Steps has the
--                          handlers as steps of one machine, and Root/Reads the endpoints that
--                          change nothing
--   services/cdn-node      Cdn: publication, reads and the manifest; Cdn/Reads the endpoints `api`
--   services/discovery-node Discovery: `sync_from_cdn` (Discovery/Sync) with the URLs and keys that
--                          it looks up (Discovery/Service), the candidates of a query
--                          (Discovery/Query), its signed answer (Discovery/Answer) and the other
--                          endpoints (Discovery/Reads)
--   services/registrar-node Registrar: drafts and their validation (Registrar/Drafts), registration
--                          and submission (Registrar/Register), and the reads (Registrar/Reads)
-- Network and Registrar/Published join the nodes: what the registrar submits is what the root
-- checks, and what the root publishes is what a discovery node looks at.
-- Base has what these share (lists and maps over the native numbers, results, texts) and the
-- `Action` that a handler is: it takes the state and gives a result and the state it leaves, since
-- what was written before an error stays written. Json is serde_json's values. Tests runs the
-- definitions on small inputs, with stand-ins for the crates.
--
-- How the code is read:
--   * A file is a field of the state: missing, text that cannot be read, or the value it holds. The
--     SQLite table is the list of its rows. Which writes and statements go through is an argument
--     (`World.disk`, `World.database`), and so is the clock: `World.now k` is the k-th time that a
--     handler may read it, so that no order of the times is taken for granted.
--   * Handlers that the root runs under its lock are single steps. The two batches do not take the
--     lock; here they are single steps too.
--   * A time is a number of nanoseconds, as chrono keeps it. Integers that only grow by one (the
--     sequence, the version) are natural numbers; they stay far below 2^64.
--   * serde's derived `Serialize` is a function into JSON values, with the fields in the order of
--     their names as serde_json's map keeps them.
--   * ed25519-dalek, sha2, base64, bs58, regex and the printing of numbers, texts and times are the
--     record `Primitives`. `SigningLaws`, `KeyLaws`, `TimeLaws` and `Compiled` state what is documented
--     of them, and a theorem that needs it says so.
--   * `is_descendant_or_same` goes from parent to parent until it meets a tag for the second time.
--     Its fuel is the number of tags and one more round, which is enough (Core/Tags/Rounds).
--
-- Not modelled: the start-up of the services and their configuration, axum's routing and the HTTP
-- status of an error, the HTTP client, and everything outside crates and services. What other nodes
-- answer over HTTP is an argument, and so are the order in which a folder is listed, Rust's
-- `to_lowercase`, serde's reading of a document or a tree from a JSON value, and serde_json's number
-- for an `f32`.
pub mod Base
pub mod Json
pub mod Crypto
pub mod Core
pub mod Bulletin
pub mod Did
pub mod Storage
pub mod Credentials
pub mod Package
pub mod Protocol
pub mod Root
pub mod Cdn
pub mod Discovery
pub mod Registrar
pub mod Network
mod Tests
