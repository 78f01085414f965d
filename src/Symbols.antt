-- ===== src/Symbols.antt =====
-- nl-symbol.c: the symbols of a context, a red-black tree ordered by their names.
pub mod Name
pub mod Tree
pub mod Insert
pub mod Delete
pub mod Listing
pub mod Balance
pub mod Sorted
pub mod Search
pub mod Removal
pub mod Refinement
pub mod Rounds
pub mod History
pub mod Associations
mod Tests
