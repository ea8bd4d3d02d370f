-- ===== src/Trees.antt =====
-- messaging/trees: message nodes, their trees with a queue each, the repository, the processor.
pub mod Queue
pub mod Node
pub mod Tree
pub mod Cancel
pub mod Drained
pub mod Cancelled
pub mod Serial
pub mod Repository
pub mod Cleanup
pub mod Branch
pub mod Manager
pub mod Processor
