-- ===== src/Tests.antt =====
-- Runs of the definitions on small inputs.
mod Toy
mod Runs
mod Root
mod Bulletin
mod Core
mod Did
mod Storage
mod Credentials
mod Cdn
mod Discovery
mod Answers
mod Registrar
mod Network
mod Indexing
