-- ===== src/Core.antt =====
-- The versioned store, src/core/prfs.cpp: node records, the tables that hold them, the operations
-- of `PrfsStore`, and what is proved of them.
pub mod Record
pub mod Tables
pub mod Links
pub mod Store
pub mod Attrs
pub mod Views
pub mod History
pub mod Versions
pub mod Loads
pub mod Writes
pub mod Transactions
pub mod Isolation
pub mod Ops
pub mod Invariant
pub mod Sealed
pub mod Sealing
pub mod Sequences
pub mod Pages
pub mod Cursors
pub mod Cuts
pub mod Following
pub mod Names
pub mod Errors
pub mod Candidates
pub mod Changes
pub mod Diffs
pub mod Reaching
pub mod Latest
pub mod Namespace
