-- ===== src/Upload.antt =====
-- The upload path: what the client's sender writes, and the threads of the server that receive,
-- deduplicate, delta-compress against the cache, and store. The queues between the threads keep the
-- order (EDRStore/include/message_queue), so a thread is a function of the sequence that it pops.
pub mod Wire
pub mod Recv
pub mod DualDedup
pub mod CacheComp
pub mod Writer
