-- ===== src/Core/Namespace.antt =====
-- The live namespace of a store: which child stands behind a name of a directory, as a function.
pub mod Keys
pub mod Copies
pub mod Live
pub mod Writable
pub mod Changes
pub mod Transactions
pub mod Refines
pub mod Moves
pub mod Invariant
pub mod Reached
pub mod Lookups
pub mod Refinement
