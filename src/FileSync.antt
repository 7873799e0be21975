-- ===== src/FileSync.antt =====
-- internal/primitive/filesync: the primitive `file.sync`.
pub mod Diff
pub mod Tests
pub mod SyncTests
pub mod Disk
pub mod Apply
pub mod Rollback
pub mod Stream
pub mod Refine
pub mod Contents
pub mod Restored
