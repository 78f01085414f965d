-- ===== src/Lists.antt =====
-- nl-liststr.c: the functions that change a list in place, on a heap of cells.
pub mod Index
pub mod Turns
pub mod Heap
pub mod Rotate
pub mod Reverse
pub mod Strings
pub mod PushPop
pub mod Sort
mod Tests
