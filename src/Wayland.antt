-- ===== src/Wayland.antt =====
-- src/platform/wayland.cpp and include/dui/platform/wayland.hpp: the protocol state that the native
-- Wayland adapter keeps, apart from the native calls.
pub mod Commit
pub mod Surface
pub mod Repeat
pub mod Keyboard
pub mod Pointer
