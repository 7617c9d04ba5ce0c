-- ===== src/Indexer.antt =====
-- The indexer: src/workers/indexer, src/services/Soroban, src/services/IndexerService.ts and
-- src/services/IndexedEventService.ts.
pub mod Queue
pub mod Guard
pub mod Events
pub mod Cursors
pub mod Reader
pub mod Backfill
pub mod Worker
