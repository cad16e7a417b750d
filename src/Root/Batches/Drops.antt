-- ===== src/Root/Batches/Drops.antt =====
-- What `notify_discovery_batch` of services/root-node/src/main.rs does with the queue.
