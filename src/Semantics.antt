-- ===== src/Semantics.antt =====
-- The semantics tree of include/dui/rendering.hpp and src/rendering.cpp, and how its changes are told
-- to an accessibility adapter.
pub mod Tree
pub mod Differ
pub mod Bridge
