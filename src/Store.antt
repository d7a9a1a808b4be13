-- ===== src/Store.antt =====
-- internal/store/store.go: the SQLite database, as tables of rows, and its operations. `Types`
-- holds the rows, `Query` the way in which a statement runs and fails, and the other modules the
-- operations of one table each, with their proofs below them.
pub mod Opening
pub mod Types
pub mod Query
pub mod Events
pub mod Projects
pub mod Issues
pub mod Outbox
pub mod Releases
pub mod Lifecycle
pub mod Kept
